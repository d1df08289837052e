-- ===== src/Join.antt =====
-- rust/sdk/src/request.rs: `join_at_least_threshold` and `min`. The futures are given by what they
-- return, in the order in which they complete.
pub mod Order
pub mod Threshold
pub mod Reorder
pub mod Confirmed
use juicebox_sdk.Join.Order.{Ord}
use juicebox_sdk.Prelude.{
  ℕ, ◌-◌, List, [], ◌∷◌, ◌++◌, Outcome, ok, err, panic, ◌>>=◌, ◌>>◌, assert, ltb, leb, length,
  if◌then◌else◌,
}

module _ {ℓ} {E : Type ℓ} ⦃o : Ord E⦄ where
  min_loop : E → List E → E
  min_loop best [] = best
  min_loop best (e ∷ es) = min_loop (if o.le best e then best else e) es

module _ {ℓ κ} {E : Type ℓ} {T : Type κ} ⦃o : Ord E⦄ where
  -- `values.into_iter().min().unwrap()`, as the error that is returned. Of equal values
  -- `Iterator::min` keeps the first.
  min : List E → Outcome E (List T)
  min [] = panic
  min (e ∷ es) = err (min_loop e es)

  -- The `while` loop and the assertion behind it.
  join_loop : ℕ → ℕ → List T → List E → List (Outcome E T) → Outcome E (List T)
  join_loop total threshold oks errors [] = do assert (leb threshold (length oks)); ok oks
  join_loop total threshold oks errors (ok a ∷ rest) =
      join_loop total threshold (oks ++ (a ∷ [])) errors rest
  join_loop total threshold oks errors (err e ∷ rest) =
      let more = errors ++ (e ∷ []) in
      let on = join_loop total threshold oks more rest in
      if ltb (total - threshold) (length more) then min more else on
  join_loop total threshold oks errors (panic ∷ rest) = panic

  unfoldable pub join_at_least_threshold : List (Outcome E T) → ℕ → Outcome E (List T)
  unfolding join_loop min min_loop
  join_at_least_threshold futures threshold = do
    let total = length futures
    assert (leb threshold total)
    assert (ltb 0 threshold)
    join_loop total threshold [] [] futures
