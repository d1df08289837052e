-- ===== src/Join/Threshold.antt =====
-- When `join_at_least_threshold` returns results, and which error it returns otherwise.
use mathlib.Core.List.{append-nil, append_assoc}
use juicebox_sdk.Prelude.{
  ℕ, suc, ◌+◌, ◌-◌, ◌≤◌, ◌<◌, ◌≡◌, ◌⊎◌, inl, inr, refl, sym, ◌∙◌, le→leb, lt→ltb, true, false, List,
  [], ◌∷◌, ◌++◌, Outcome, ok, err, panic, arith, length, take, length-append, Bool-cases,
  take-append, ltb→lt, ltb, leb, Memᴰ,
}
use juicebox_sdk.Join.{min_loop, min, join_loop, join_at_least_threshold}
use juicebox_sdk.Join.Order.{Ord, IsLeast, le_refl}

module _ {ℓ κ} {E : Type ℓ} {T : Type κ} where
  -- The results and the errors, each in the order of completion.
  abbrev pub oks_of : List (Outcome E T) → List T
  oks_of [] = []
  oks_of (ok a ∷ rest) = a ∷ oks_of rest
  oks_of (err e ∷ rest) = oks_of rest
  oks_of (panic ∷ rest) = oks_of rest

  abbrev pub errors_of : List (Outcome E T) → List E
  errors_of [] = []
  errors_of (ok a ∷ rest) = errors_of rest
  errors_of (err e ∷ rest) = e ∷ errors_of rest
  errors_of (panic ∷ rest) = errors_of rest

  -- No future panics.
  abbrev pub NoPanic : List (Outcome E T) → Type 0
  NoPanic [] = Unit
  NoPanic (ok a ∷ rest) = NoPanic rest
  NoPanic (err e ∷ rest) = NoPanic rest
  NoPanic (panic ∷ rest) = ⊥

  pub length-oks_of :
      (rs : List (Outcome E T))
      → NoPanic rs
      → length (oks_of rs) + length (errors_of rs) ≡ length rs
  length-oks_of [] h = omega arith
  length-oks_of (ok a ∷ rest) h = omega (arith, length-oks_of rest h)
  length-oks_of (err e ∷ rest) h = omega (arith, length-oks_of rest h)
  length-oks_of (panic ∷ rest) h = elim h [ ]

module _ {ℓ} {E : Type ℓ} ⦃o : Ord E⦄ where
  IsLeast-keep :
      {m best e : E} {es : List E}
      → o.le best e ≡ true
      → IsLeast m (best ∷ es)
      → IsLeast m (best ∷ e ∷ es)
  IsLeast-keep {m} {best} {e} h r = record {
    seen = keep_seen r.seen;
    below = (r.below.0, (o.le_trans m best e r.below.0 h, r.below.1));
  }
    where
      keep_seen : {m a b : E} {l : List E} → Memᴰ m (a ∷ l) → Memᴰ m (a ∷ b ∷ l)
      keep_seen (Memᴰ.head p) = Memᴰ.head p
      keep_seen (Memᴰ.tail d) = Memᴰ.tail (Memᴰ.tail d)

  IsLeast-skip :
      {m best e : E} {es : List E}
      → o.le e best ≡ true
      → IsLeast m (e ∷ es)
      → IsLeast m (best ∷ e ∷ es)
  IsLeast-skip {m} {best} {e} h r = record {
    seen = Memᴰ.tail r.seen;
    below = (o.le_trans m e best r.below.0 h, r.below);
  }

  smaller : (a b : E) → o.le a b ≡ false → o.le b a ≡ true
  smaller a b h = elim (o.le_total a b) [ inl k ↦ cc | inr k ↦ k ]

  min_loop-IsLeast : (best : E) (es : List E) → IsLeast (min_loop best es) (best ∷ es)
  unfolding min_loop
  min_loop-IsLeast best [] = record { seen = Memᴰ.head refl; below = (le_refl best, tt) }
  min_loop-IsLeast best (e ∷ es) = elim (Bool-cases (o.le best e)) [
    | inl h ↦ rw h (IsLeast-keep h (min_loop-IsLeast best es))
    | inr h ↦ rw h (IsLeast-skip (smaller best e h) (min_loop-IsLeast e es))
  ]

module _ {ℓ κ} {E : Type ℓ} {T : Type κ} ⦃o : Ord E⦄ where
  min-IsLeast : (es : List E) → 0 < length es → (e : E) × (min {T = T} es ≡ err e) × IsLeast e es
  unfolding min
  min-IsLeast [] h = elim h [ ]
  min-IsLeast (e ∷ es) h = (min_loop e es, refl, min_loop-IsLeast e es)

module _ {ℓ κ} {E : Type ℓ} {T : Type κ} ⦃o : Ord E⦄ where
  join_loop-ok :
      (total threshold : ℕ) (oks : List T) (errors : List E) (rs : List (Outcome E T))
      → NoPanic rs
      → threshold ≤ total
      → length oks + length errors + length rs ≡ total
      → length errors + length (errors_of rs) ≤ total - threshold
      → join_loop total threshold oks errors rs ≡ ok (oks ++ oks_of rs)
  unfolding join_loop
  join_loop-ok total threshold oks errors [] np th eq few =
      rw (le→leb threshold (length oks) (omega arith), append-nil)
  join_loop-ok total threshold oks errors (ok a ∷ rest) np th eq few =
      join_loop-ok total threshold (oks ++ (a ∷ [])) errors rest np th
        (omega (arith, length-append oks (a ∷ []))) few
      ∙ rw append_assoc
  join_loop-ok total threshold oks errors (err e ∷ rest) np th eq few = ground (
    arith,
    length-append errors (e ∷ []),
    join_loop-ok total threshold oks (errors ++ (e ∷ [])) rest np th,
  )
  join_loop-ok total threshold oks errors (panic ∷ rest) np th eq few = elim np [ ]

  -- If no future panics, the threshold is positive and at most the number of futures, and there are
  -- no more errors than it leaves room for, every result is returned, and these are at least the
  -- threshold.
  pub join-ok :
      (rs : List (Outcome E T)) (threshold : ℕ)
      → NoPanic rs
      → 0 < threshold
      → threshold ≤ length rs
      → length (errors_of rs) ≤ length rs - threshold
      → (join_at_least_threshold rs threshold ≡ ok (oks_of rs)) × (threshold ≤ length (oks_of rs))
  unfolding join_at_least_threshold
  join-ok rs threshold np pos enough few = (
    rw (le→leb threshold (length rs) enough, lt→ltb 0 threshold pos)
        (join_loop-ok (length rs) threshold [] [] rs np enough (omega arith) (omega arith)),
    omega (arith, length-oks_of rs np),
  )

  abbrev Fails : ℕ → List E → Outcome E (List T) → Type (ℓ ⊔ κ)
  Fails room errors r = (e : E) × (r ≡ err e) × IsLeast e (take (suc room) errors)

  join_loop-err :
      (total threshold : ℕ) (oks : List T) (errors : List E) (rs : List (Outcome E T))
      → NoPanic rs
      → length errors ≤ total - threshold
      → total - threshold < length errors + length (errors_of rs)
      → Fails (total - threshold) (errors ++ errors_of rs) (join_loop total threshold oks errors rs)
  unfolding join_loop
  join_loop-err total threshold oks errors [] np room many = absurd (omega arith)
  join_loop-err total threshold oks errors (ok a ∷ rest) np room many =
      join_loop-err total threshold (oks ++ (a ∷ [])) errors rest np room many
  join_loop-err total threshold oks errors (err e ∷ rest) np room many =
      let more = errors ++ (e ∷ []) in
      let size = length-append errors (e ∷ []) in
      let regroup : errors ++ (e ∷ errors_of rest) ≡ more ++ errors_of rest =
        sym (append_assoc errors (e ∷ []) (errors_of rest)) in
      rw regroup (elim (Bool-cases (ltb (total - threshold) (length more))) [
        | inl full ↦
            let exact : suc (total - threshold) ≡ length more =
              omega (arith, size, ltb→lt (total - threshold) (length more) full) in
            rw (full, exact, take-append) (min-IsLeast more (omega (arith, size)))
        | inr space ↦
            rw space
              (join_loop-err total threshold oks more rest np (ground arith) (omega (arith, size)))
      ])
  join_loop-err total threshold oks errors (panic ∷ rest) np room many = elim np [ ]

  -- If no future panics, the threshold is positive and at most the number of futures, and there are
  -- more errors than it leaves room for, the error that is returned is the least of those that came
  -- in until it was clear that the threshold cannot be met.
  pub join-err :
      (rs : List (Outcome E T)) (threshold : ℕ)
      → NoPanic rs
      → 0 < threshold
      → threshold ≤ length rs
      → length rs - threshold < length (errors_of rs)
      → (e : E) × (join_at_least_threshold rs threshold ≡ err e)
        × IsLeast e (take (suc (length rs - threshold)) (errors_of rs))
  unfolding join_at_least_threshold
  join-err rs threshold np pos enough many =
      rw (le→leb threshold (length rs) enough, lt→ltb 0 threshold pos)
        (join_loop-err (length rs) threshold [] [] rs np (omega arith) (omega arith))

  -- Fewer futures than the threshold, or a threshold of 0, is a panic.
  pub join_panics :
      (rs : List (Outcome E T)) (threshold : ℕ)
      → (length rs < threshold) ⊎ (threshold ≡ 0)
      → join_at_least_threshold rs threshold ≡ panic
  unfolding join_at_least_threshold
  join_panics rs threshold (inl few) = ground arith
  join_panics rs threshold (inr zero) = ground arith

  -- Results are returned exactly when the errors leave room for the threshold.
  pub join_ok_room :
      (rs : List (Outcome E T)) (threshold : ℕ) {oks : List T}
      → NoPanic rs
      → join_at_least_threshold rs threshold ≡ ok oks
      → (length (errors_of rs) ≤ length rs - threshold) × (0 < threshold) × (threshold ≤ length rs)
  join_ok_room rs threshold np h = elim (Bool-cases (leb threshold (length rs))) [
    | inr few ↦ cc (join_panics rs threshold (inl (ground arith)))
    | inl enough ↦ elim (Bool-cases (ltb 0 threshold)) [
      | inr none_asked ↦ cc (join_panics rs threshold (inr (ground arith)))
      | inl pos ↦ elim (Bool-cases (leb (length (errors_of rs)) (length rs - threshold))) [
        | inl room ↦ (ground arith, ground arith, ground arith)
        | inr full ↦ cc ((join-err rs threshold np (ground arith) (ground arith) (ground arith)).1)
      ]
    ]
  ]
