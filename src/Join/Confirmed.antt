-- ===== src/Join/Confirmed.antt =====
-- Which futures stand behind the results of `join_at_least_threshold`.
use mathlib.Core.List.Permᴰ
use juicebox_sdk.Prelude.{
  ℕ, ◌+◌, ◌-◌, ◌≤◌, ◌<◌, ◌≡◌, refl, subst, inl, inr, List, [], ◌∷◌, ◌++◌, map, Permᴰ, Outcome, ok,
  err, panic, >>=-eq-ok, assert, arith, length, All, Bool-cases, ltb, leb,
}
use juicebox_sdk.Join.{min, join_loop, join_at_least_threshold}
use juicebox_sdk.Join.Order.{Ord}
use juicebox_sdk.Join.Threshold.{oks_of, NoPanic, length-oks_of, join_ok_room}
use juicebox_sdk.Join.Reorder.{length-Permᴰ, Permᴰ-oks_of, Permᴰ-NoPanic}

module _ {E T : Type 0} where
  module _ ⦃o : Ord E⦄ where
    min≢ok : (errors : List E) {oks : List T} → min {T = T} errors ≡ ok oks → ⊥
    unfolding min
    min≢ok [] h = cc
    min≢ok (e ∷ es) h = cc

    -- Results are returned only when every future was seen, and none panicked.
    join_loop-NoPanic :
        (total threshold : ℕ) (oks : List T) (errors : List E) (rs : List (Outcome E T))
        {l : List T}
        → join_loop total threshold oks errors rs ≡ ok l
        → NoPanic rs
    unfolding join_loop
    join_loop-NoPanic total threshold oks errors [] h = tt
    join_loop-NoPanic total threshold oks errors (ok a ∷ rs) h =
        join_loop-NoPanic total threshold (oks ++ (a ∷ [])) errors rs h
    join_loop-NoPanic total threshold oks errors (err e ∷ rs) h =
        elim (Bool-cases (ltb (total - threshold) (length (errors ++ (e ∷ []))))) [
          | inl t ↦ let h' = rw t at h in absurd (min≢ok (errors ++ (e ∷ [])) h')
          | inr t ↦
              let h' = rw t at h in join_loop-NoPanic total threshold oks (errors ++ (e ∷ [])) rs h'
        ]
    join_loop-NoPanic total threshold oks errors (panic ∷ rs) h = cc

    join-NoPanic :
        (rs : List (Outcome E T)) (threshold : ℕ) {l : List T}
        → join_at_least_threshold rs threshold ≡ ok l
        → NoPanic rs
    unfolding join_at_least_threshold
    join-NoPanic rs threshold h =
        let a = >>=-eq-ok (assert (leb threshold (length rs))) _ h in
        let b = >>=-eq-ok (assert (ltb 0 threshold)) _ a.2 in
        join_loop-NoPanic (length rs) threshold [] [] rs b.2

  -- At least so many of these give a result; the others give errors.
  abbrev pub Confirm : {X : Type 0} → (X → Outcome E T) → ℕ → List X → Type 0
  Confirm {X = X} f threshold xs =
      (confirmed : List X) × (others : List X) × Permᴰ (confirmed ++ others) xs
      × All (λ x. (a : T) × (f x ≡ ok a)) confirmed
      × All (λ x. (e : E) × (f x ≡ err e)) others
      × (threshold ≤ length confirmed)

  module _ {X : Type 0} (f : X → Outcome E T) where
    split_first :
        (x : X) (xs : List X) (n : ℕ) (r : Outcome E T)
        → f x ≡ r
        → NoPanic (r ∷ map f xs)
        → Confirm f n xs
        → Confirm f (length (oks_of (r ∷ [])) + n) (x ∷ xs)
    split_first x xs n (ok a) e h c =
        (x ∷ c.0, c.1, Permᴰ.cons refl c.2, ((a, e), c.3), c.4, let enough = c.5 in omega arith)
    split_first x xs n (err g) e h c = (
      c.0,
      x ∷ c.1,
      Permᴰ.trans (Permᴰ.middle x c.0 c.1) (Permᴰ.cons refl c.2),
      c.3,
      ((g, e), c.4),
      let enough = c.5 in omega arith,
    )
    split_first x xs n panic e h c = elim h [ ]

    NoPanic-rest : (r : Outcome E T) (rs : List (Outcome E T)) → NoPanic (r ∷ rs) → NoPanic rs
    NoPanic-rest (ok a) rs h = h
    NoPanic-rest (err e) rs h = h
    NoPanic-rest panic rs h = elim h [ ]

    length-oks_of_cons :
        (r : Outcome E T) (rs : List (Outcome E T))
        → length (oks_of (r ∷ [])) + length (oks_of rs) ≡ length (oks_of (r ∷ rs))
    length-oks_of_cons (ok a) rs = omega arith
    length-oks_of_cons (err e) rs = omega arith
    length-oks_of_cons panic rs = omega arith

    split : (xs : List X) → NoPanic (map f xs) → Confirm f (length (oks_of (map f xs))) xs
    split [] h = ([], [], Permᴰ.nil, tt, tt, omega arith)
    split (x ∷ xs) h =
        subst (λ n. Confirm f n (x ∷ xs)) (length-oks_of_cons (f x) (map f xs))
          (split_first x xs (length (oks_of (map f xs))) (f x) refl h
            (split xs (NoPanic-rest (f x) (map f xs) h)))

    pub join-Confirm :
        ⦃o : Ord E⦄ (xs : List X) (futures : List (Outcome E T)) (threshold : ℕ) {l : List T}
        → Permᴰ futures (map f xs)
        → join_at_least_threshold futures threshold ≡ ok l
        → (0 < threshold) × Confirm f threshold xs
    join-Confirm xs futures threshold d h =
        let calm = join-NoPanic futures threshold h in
        let room = join_ok_room futures threshold calm h in
        let same = length-Permᴰ (Permᴰ-oks_of d) in
        let all = split xs (Permᴰ-NoPanic d calm) in
        let enough : threshold ≤ length all.0 =
          omega (arith, length-oks_of futures calm, same, room.0, room.2, all.5) in
        (room.1, (all.0, all.1, all.2, all.3, all.4, enough))
