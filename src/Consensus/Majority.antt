-- ===== src/Consensus/Majority.antt =====
-- With a threshold above half of the answers one group at most is left.
use mathlib.Core.List.{foldl}
use mathlib.Core.Logic.{ite, if_pos, if_neg}
use juicebox_sdk.Prelude.{
  ℕ, suc, ◌+◌, ◌*◌, ◌≤◌, ◌≡◌, refl, inl, inr, Bool-cases, leb→le, List, [], ◌∷◌, leb, length,
  length-append, arith,
}
use juicebox_sdk.Consensus.{entry_push, retain}

module _ {K V : Type 0} (dec : Discrete K) where
  -- The values that come with a key, in order.
  abbrev pub values_of : K → List (K × V) → List V
  values_of key [] = []
  values_of key ((k, v) ∷ rest) =
      let others = values_of key rest in ite (dec k key) (v ∷ others) others

  abbrev pub total : List (K × List V) → ℕ
  total [] = 0
  total ((k, values) ∷ rest) = length values + total rest

  total-entry_push :
      (groups : List (K × List V)) (key : K) (value : V)
      → total (entry_push dec groups key value) ≡ suc (total groups)
  total-entry_push [] key value = refl
  total-entry_push ((k, values) ∷ rest) key value = elim (dec k key) [
    | yes e ↦ rw (if_pos _ e) (omega (arith, length-append values (value ∷ [])))
    | no n ↦ rw (if_neg _ n) (omega (arith, total-entry_push rest key value))
  ]

  pub total-foldl :
      (pairs : List (K × V)) (groups : List (K × List V))
      → total (foldl (λ groups pair. entry_push dec groups pair.0 pair.1) groups pairs)
        ≡ total groups + length pairs
  total-foldl [] groups = omega arith
  total-foldl ((k, v) ∷ pairs) groups =
      omega (arith, total-foldl pairs (entry_push dec groups k v), total-entry_push groups k v)

  pub total-retain :
      (threshold : ℕ) (groups : List (K × List V))
      → length (retain dec threshold groups) * threshold ≤ total groups
  total-retain threshold [] = omega arith
  total-retain threshold ((k, values) ∷ rest) = elim (Bool-cases (leb threshold (length values))) [
    | inl h ↦ rw h (grind (arith, total-retain threshold rest, leb→le threshold (length values) h))
    | inr h ↦ rw h (omega (arith, total-retain threshold rest))
  ]
