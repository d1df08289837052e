-- ===== src/Consensus.antt =====
-- rust/sdk/src/recover.rs: the maps that gather what the realms answered, by the value on which
-- they have to agree, and the choice of the one group with enough realms. A map is the list of its
-- entries, in an order that no theorem depends on.
pub mod Majority
pub mod Choice
use mathlib.Core.List.{foldl}
use mathlib.Core.Logic.{ite}
use juicebox_sdk.Prelude.{
  ℕ, ◌≤◌, Bool, true, false, List, [], ◌∷◌, ◌++◌, Option, none, some, Outcome, ok, ◌>>◌, assert,
  leb, length, if◌then◌else◌,
}

module _ {K V : Type 0} (dec : Discrete K) where
  -- `map.entry(key).or_default().push(value)`
  abbrev pub entry_push : List (K × List V) → K → V → List (K × List V)
  entry_push [] key value = (key, value ∷ []) ∷ []
  entry_push ((k, values) ∷ rest) key value =
      let pushed = entry_push rest key value in
      ite (dec k key) ((k, values ++ (value ∷ [])) ∷ rest) ((k, values) ∷ pushed)

  -- The loop that fills the map.
  abbrev pub grouped : List (K × V) → List (K × List V)
  grouped = foldl (λ groups pair. entry_push groups pair.0 pair.1) []

  -- `map.retain(|_, values| values.len() >= threshold)`
  abbrev pub retain : ℕ → List (K × List V) → List (K × List V)
  retain threshold [] = []
  retain threshold ((k, values) ∷ rest) =
      let kept = retain threshold rest in
      if leb threshold (length values) then (k, values) ∷ kept else kept

  -- `into_iter().next()`
  abbrev pub first : List (K × List V) → Option (K × List V)
  first [] = none
  first (group ∷ rest) = some group

  -- The groups are retained, asserted to be one at most, and the one is taken.
  unfoldable pub consensus {ℓ} : {E : Type ℓ} → ℕ → List (K × V) → Outcome E (Option (K × List V))
  consensus threshold pairs = do
    let retained = retain threshold (grouped pairs)
    assert (leb (length retained) 1)
    ok (first retained)
