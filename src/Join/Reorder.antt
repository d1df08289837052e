-- ===== src/Join/Reorder.antt =====
-- The order in which the futures complete decides neither whether `join_at_least_threshold`
-- returns results, nor which results these are.
use juicebox_sdk.Prelude.{
  ok_injective, ℕ, ◌-◌, ◌≤◌, ◌≡◌, refl, ap, sym, ◌∙◌, suc, subst, List, ◌∷◌, Permᴰ, Outcome, ok,
  err, panic, arith, length,
}
use mathlib.Core.List.Permᴰ
use juicebox_sdk.Join.{join_at_least_threshold}
use juicebox_sdk.Join.Order.{Ord}
use juicebox_sdk.Join.Threshold.{NoPanic, oks_of, errors_of, length-oks_of, join-ok, join_ok_room}

module _ {ℓ κ} {E : Type ℓ} {T : Type κ} where
  Permᴰ-oks_of_cons :
      (a : Outcome E T) (rs ss : List (Outcome E T))
      → Permᴰ (oks_of rs) (oks_of ss)
      → Permᴰ (oks_of (a ∷ rs)) (oks_of (a ∷ ss))
  Permᴰ-oks_of_cons (ok a) rs ss d = Permᴰ.cons refl d
  Permᴰ-oks_of_cons (err e) rs ss d = d
  Permᴰ-oks_of_cons panic rs ss d = d

  Permᴰ-oks_of_swap :
      (a b : Outcome E T) (rs : List (Outcome E T))
      → Permᴰ (oks_of (a ∷ b ∷ rs)) (oks_of (b ∷ a ∷ rs))
  Permᴰ-oks_of_swap (ok a) (ok b) rs = Permᴰ.swap refl refl
  Permᴰ-oks_of_swap (ok a) _ rs = Permᴰ.refl _
  Permᴰ-oks_of_swap (err e) (ok b) rs = Permᴰ.refl _
  Permᴰ-oks_of_swap (err e) _ rs = Permᴰ.refl _
  Permᴰ-oks_of_swap panic (ok b) rs = Permᴰ.refl _
  Permᴰ-oks_of_swap panic _ rs = Permᴰ.refl _

  pub Permᴰ-oks_of : {rs ss : List (Outcome E T)} → Permᴰ rs ss → Permᴰ (oks_of rs) (oks_of ss)
  Permᴰ-oks_of Permᴰ.nil = Permᴰ.nil
  Permᴰ-oks_of (Permᴰ.cons {a} {l₁} {l₂} p d) =
      subst (λ b. Permᴰ (oks_of (a ∷ l₁)) (oks_of (b ∷ l₂))) p
        (Permᴰ-oks_of_cons a l₁ l₂ (Permᴰ-oks_of d))
  Permᴰ-oks_of (Permᴰ.swap {a} {b} {a'} {b'} {l} p q) =
      subst (λ x. Permᴰ (oks_of (a ∷ b ∷ l)) (oks_of (x ∷ b' ∷ l))) q
        (subst (λ x. Permᴰ (oks_of (a ∷ b ∷ l)) (oks_of (b ∷ x ∷ l))) p (Permᴰ-oks_of_swap a b l))
  Permᴰ-oks_of (Permᴰ.trans d e) = Permᴰ.trans (Permᴰ-oks_of d) (Permᴰ-oks_of e)

module _ {ℓ} {A : Type ℓ} where
  pub length-Permᴰ : {xs ys : List A} → Permᴰ xs ys → length xs ≡ length ys
  length-Permᴰ Permᴰ.nil = refl
  length-Permᴰ (Permᴰ.cons p d) = ap suc (length-Permᴰ d)
  length-Permᴰ (Permᴰ.swap p q) = refl
  length-Permᴰ (Permᴰ.trans d e) = length-Permᴰ d ∙ length-Permᴰ e

module _ {ℓ κ} {E : Type ℓ} {T : Type κ} where
  NoPanic-swap :
      (a b : Outcome E T) (rs : List (Outcome E T)) → NoPanic (a ∷ b ∷ rs) → NoPanic (b ∷ a ∷ rs)
  NoPanic-swap a b rs h = ground arith

  NoPanic-cons :
      (a : Outcome E T) (rs ss : List (Outcome E T))
      → (NoPanic rs → NoPanic ss)
      → NoPanic (a ∷ rs)
      → NoPanic (a ∷ ss)
  NoPanic-cons (ok a) rs ss k h = k h
  NoPanic-cons (err e) rs ss k h = k h
  NoPanic-cons panic rs ss k h = h

  pub Permᴰ-NoPanic : {rs ss : List (Outcome E T)} → Permᴰ rs ss → NoPanic rs → NoPanic ss
  Permᴰ-NoPanic Permᴰ.nil h = h
  Permᴰ-NoPanic (Permᴰ.cons {a} {l₁} {l₂} p d) h =
      subst (λ x. NoPanic (x ∷ l₂)) p (NoPanic-cons a l₁ l₂ (Permᴰ-NoPanic d) h)
  Permᴰ-NoPanic (Permᴰ.swap {a} {b} {a'} {b'} {l} p q) h =
      subst (λ x. NoPanic (x ∷ b' ∷ l)) q
        (subst (λ x. NoPanic (b ∷ x ∷ l)) p (NoPanic-swap a b l h))
  Permᴰ-NoPanic (Permᴰ.trans d e) h = Permᴰ-NoPanic e (Permᴰ-NoPanic d h)

module _ {ℓ κ} {E : Type ℓ} {T : Type κ} ⦃o : Ord E⦄ where
  -- If no future panics and one order of completion gives the results `oks`, every other order gives
  -- the same results, reordered.
  pub join-reorder :
      (rs ss : List (Outcome E T)) (threshold : ℕ) (oks : List T)
      → NoPanic rs
      → Permᴰ rs ss
      → join_at_least_threshold rs threshold ≡ ok oks
      → (join_at_least_threshold ss threshold ≡ ok (oks_of ss)) × Permᴰ oks (oks_of ss)
  join-reorder rs ss threshold oks np p h =
      let room = join_ok_room rs threshold np h in
      let same = length-Permᴰ p in
      let kept = length-Permᴰ (Permᴰ-oks_of p) in
      let np' = Permᴰ-NoPanic p np in
      let few : length (errors_of ss) ≤ length ss - threshold =
        omega (arith, same, kept, length-oks_of rs np, length-oks_of ss np') in
      let all : oks_of rs ≡ oks =
        ok_injective ((sym (join-ok rs threshold np room.1 room.2 room.0).0) ∙ h) in
      (
        (join-ok ss threshold np' room.1 (omega (arith, same)) few).0,
        subst (λ xs. Permᴰ xs (oks_of ss)) all (Permᴰ-oks_of p),
      )
