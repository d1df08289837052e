-- ===== src/Sharing/Roundtrip.antt =====
-- Shares that `create_shares` makes, and the secret that `recover_secret` finds in some of them.
use juicebox_sdk.Prelude.{
  ℕ, zero, suc, ◌+◌, ◌-◌, ◌≤◌, ◌<◌, ◌≡◌, ◌≢◌, refl, sym, ap, subst, ◌∙◌, List, [], ◌∷◌, map, Memᴰ,
  Outcome, ok, panic, ◌⊎◌, inl, inr, ltb, leb, ltb→lt, leb→le, lt→ltb, Bool-cases, length,
  length-map, arith,
}
use juicebox_sdk.Curve.{ScalarField, Secret}
use juicebox_sdk.Sharing.{
  Share, range, as_scalar, scalars, share_secret, create_shares, recover_secret,
}
use juicebox_sdk.Prelude.{All, Distinct}
use juicebox_sdk.Sharing.Polynomial.{interpolated-share_secret}
use juicebox_sdk.Sharing.Recovery.{AreOn, recover_secret-interpolated}

pub length-range : (start n : ℕ) → length (range start n) ≡ n
length-range start zero = refl
length-range start (suc n) = ap suc (length-range (suc start) n)

pub mem-range : (start n : ℕ) {i : ℕ} → Memᴰ i (range start n) → (start ≤ i) × (i < start + n)
mem-range start zero m = elim m [ ]
mem-range start (suc n) (Memᴰ.head e) = (omega arith, omega arith)
mem-range start (suc n) (Memᴰ.tail m) = omega (arith, mem-range (suc start) n m)

range_above : (k m n : ℕ) → k < m → All (λ i. i ≢ k) (range m n)
range_above k m zero h = tt
range_above k m (suc n) h = (λ e. absurd (omega arith), range_above k (suc m) n (omega arith))

pub Distinct-range : (m n : ℕ) → Distinct (range m n)
Distinct-range m zero = tt
Distinct-range m (suc n) = (range_above m (suc m) n (omega arith), Distinct-range (suc m) n)

module _ (F : ScalarField) (S : Secret F) where
  open S use {Carrier}

  abbrev pub indices : List (Share F S) → List ℕ
  indices = map (λ share. share.index)

  abbrev make_share : List Carrier → Carrier → ℕ → Share F S
  make_share cs secret index = record {
    index = index;
    secret = share_secret F S cs secret (as_scalar F index);
  }

  mem_of_made :
      (cs : List Carrier) (secret : Carrier) (is : List ℕ) {share : Share F S}
      → Memᴰ share (map (make_share cs secret) is)
      → Memᴰ share.index is × (share.secret ≡ share_secret F S cs secret (as_scalar F share.index))
  mem_of_made cs secret [] m = elim m [ ]
  mem_of_made cs secret (i ∷ is) (Memᴰ.head e) = (
    Memᴰ.head (ap (λ s. s.index) e),
    subst (λ s. s.secret ≡ share_secret F S cs secret (as_scalar F s.index)) (sym e) refl,
  )
  mem_of_made cs secret (i ∷ is) (Memᴰ.tail m) =
      let r = mem_of_made cs secret is m in (Memᴰ.tail r.0, r.1)

  indices-make_share :
      (cs : List Carrier) (secret : Carrier) (is : List ℕ)
      → indices (map (make_share cs secret) is) ≡ is
  indices-make_share cs secret [] = refl
  indices-make_share cs secret (i ∷ is) = ap (λ l. i ∷ l) (indices-make_share cs secret is)

  -- Different indices up to `count` stay different as scalars.
  apart_scalars :
      (count : ℕ)
      → count < F.order
      → (share : Share F S) (chosen : List (Share F S)) → share.index ≤ count
      → All (λ s. s.index ≤ count) chosen
      → All (λ i. i ≢ share.index) (indices chosen)
      → All (λ y. y ≢ as_scalar F share.index) (scalars F S chosen)
  apart_scalars count small share [] h k d = tt
  apart_scalars count small share (s ∷ chosen) h k d = (
    λ e. d.0 (F.from_injective s.index share.index (omega arith) (omega arith) e),
    apart_scalars count small share chosen h k.1 d.1,
  )

  Distinct-scalars :
      (count : ℕ)
      → count < F.order
      → (chosen : List (Share F S)) → All (λ s. s.index ≤ count) chosen
      → Distinct (indices chosen)
      → Distinct (scalars F S chosen)
  Distinct-scalars count small [] k d = tt
  Distinct-scalars count small (s ∷ chosen) k d =
      (apart_scalars count small s chosen k.0 k.1 d.0, Distinct-scalars count small chosen k.1 d.1)

  AreOn-made :
      (cs : List Carrier) (secret : Carrier) (count : ℕ) (chosen : List (Share F S))
      → All (λ s. Memᴰ s (map (make_share cs secret) (range 1 count))) chosen
      → AreOn F S (share_secret F S cs secret) chosen × All (λ s. s.index ≤ count) chosen
  AreOn-made cs secret count [] k = (tt, tt)
  AreOn-made cs secret count (s ∷ chosen) k =
      let here = mem_of_made cs secret (range 1 count) k.0 in
      let rest = AreOn-made cs secret count chosen k.1 in
      ((here.1, rest.0), (omega (arith, mem-range 1 count here.0), rest.1))

  -- The shares of a call that does not panic.
  create_shares-ok :
      {E : Type 0} (secret : Carrier) (threshold count : ℕ) (random : ℕ → Carrier)
      {shares : List (Share F S)}
      → ◌≡◌ {A = Outcome E (List (Share F S))}
          (create_shares F S secret threshold count random)
          (ok shares)
      → (0 < threshold)
        × (threshold ≤ count)
        × (shares ≡ map (make_share (map random (range 0 (threshold - 1))) secret) (range 1 count))
  unfolding create_shares
  create_shares-ok secret threshold count random h = ground arith

  pub indices-create_shares :
      {E : Type 0} (secret : Carrier) (threshold count : ℕ) (random : ℕ → Carrier)
      (shares : List (Share F S))
      → ◌≡◌ {A = Outcome E (List (Share F S))}
          (create_shares F S secret threshold count random)
          (ok shares)
      → indices shares ≡ range 1 count
  indices-create_shares secret threshold count random shares made =
      let r = create_shares-ok secret threshold count random made in
      ap indices r.2
      ∙ indices-make_share (map random (range 0 (threshold - 1))) secret (range 1 count)

  -- Any shares of one call of `create_shares` with different indices give back its secret, as soon
  -- as they are at least the threshold. The share count lies below the order of the field.
  pub recover_secret-create_shares :
      {E : Type 0} (secret : Carrier) (threshold count : ℕ) (random : ℕ → Carrier)
      (shares chosen : List (Share F S))
      → count < F.order
      → ◌≡◌ {A = Outcome E (List (Share F S))}
          (create_shares F S secret threshold count random)
          (ok shares)
      → All (λ share. Memᴰ share shares) chosen
      → Distinct (indices chosen)
      → threshold ≤ length chosen
      → recover_secret F S chosen ≡ ok secret
  recover_secret-create_shares secret threshold count random shares chosen small made from d
        enough =
      let cs = map random (range 0 (threshold - 1)) in
      let r = create_shares-ok secret threshold count random made in
      let on =
        AreOn-made cs secret count chosen
          (subst (λ l. All (λ share. Memᴰ share l) chosen) r.2 from) in
      let apart = Distinct-scalars count small chosen on.1 d in
      recover_secret-interpolated F S (share_secret F S cs secret) chosen on.0 apart
      ∙ ap ok (
          interpolated-share_secret F S cs secret (scalars F S chosen) apart (
            omega (
              arith,
              r.0,
              enough,
              length-map (range 0 (threshold - 1)) random,
              length-range 0 (threshold - 1),
              length-map chosen (λ share. as_scalar F share.index),
            )))

  -- Either the threshold lies between 1 and the count and `create_shares` gives one share for each
  -- index from 1 to the count, or it does not and `create_shares` panics.
  pub create_shares_cases :
      {E : Type 0} (secret : Carrier) (threshold count : ℕ) (random : ℕ → Carrier)
      → ((shares : List (Share F S)) × (0 < threshold)
          × (threshold ≤ count)
          × ◌≡◌ {A = Outcome E (List (Share F S))}
              (create_shares F S secret threshold count random)
              (ok shares)
          × (indices shares ≡ range 1 count))
        ⊎ ((¬ ((0 < threshold) × (threshold ≤ count)))
            × ◌≡◌ {A = Outcome E (List (Share F S))}
                (create_shares F S secret threshold count random)
                panic)
  unfolding create_shares
  create_shares_cases secret threshold count random = elim (Bool-cases (ltb 0 threshold)) [
    | inr t ↦ inr ((λ h. ground arith), (rw t refl))
    | inl t ↦ elim (Bool-cases (leb threshold count)) [
      | inr u ↦ inr ((λ h. ground arith), ground arith)
      | inl u ↦ inl (
        map (make_share (map random (range 0 (threshold - 1))) secret) (range 1 count),
        ltb→lt 0 threshold t,
        leb→le threshold count u,
        (rw (t, lt→ltb 0 count (omega (arith, ltb→lt 0 threshold t, leb→le threshold count u)), u)
            refl),
        indices-make_share (map random (range 0 (threshold - 1))) secret (range 1 count),
      )
    ]
  ]
