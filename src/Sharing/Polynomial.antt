-- ===== src/Sharing/Polynomial.antt =====
-- The polynomial that `create_shares` evaluates takes the secret as its value at zero.
use mathlib.Core.List.{foldl}
use mathlib.Core.Path.{ap₂, fun_ext}
use juicebox_sdk.Prelude.{ℕ, suc, ◌+◌ as ◌+ℕ◌, ◌<◌, ◌≡◌, sym, ap, ◌∙◌, List, [], ◌∷◌, length, arith}
use juicebox_sdk.Curve.{ScalarField, Secret}
use juicebox_sdk.Curve.Scalars.{◌-◌}
use juicebox_sdk.Curve.Secrets.{default-add}
use juicebox_sdk.Sharing.{share_secret}
use juicebox_sdk.Prelude.{Distinct}
use juicebox_sdk.Sharing.Interpolate.{
  weighted-add, weighted-mul, interpolated, interpolated_factor, interpolated_const,
}

module _ (F : ScalarField) (S : Secret F) where
  open F use {Scalar, neg}
  open S use {Carrier, default, ◌⊕◌, ◌⊙◌}

  -- `n + 1` points or more do not see the function.
  abbrev Vanishes : ℕ → (Scalar → Carrier) → Type 0
  Vanishes n h = (xs : List Scalar) → Distinct xs → n < length xs → interpolated F S h xs ≡ default

  Vanishes-default : Vanishes 0 (λ _. default)
  Vanishes-default xs d n =
      ap (λ h. interpolated F S h xs) (fun_ext λ x. sym (S.mul-zero default))
      ∙ weighted-mul F S (λ _. default) F.zero [] xs
      ∙ S.mul-zero _

  -- Adding a constant adds it to the sum.
  pub interpolated_add_const :
      (h : Scalar → Carrier) (c : Carrier) (n : ℕ)
      → Vanishes n h
      → (xs : List Scalar) → Distinct xs
      → n < length xs
      → interpolated F S (λ x. h x ⊕ c) xs ≡ c
  interpolated_add_const h c n v [] d k = absurd (omega arith)
  interpolated_add_const h c n v (a ∷ rest) d k =
      weighted-add F S h (λ _. c) [] (a ∷ rest)
      ∙ ap₂ ◌⊕◌ (v (a ∷ rest) d k) (interpolated_const F S c a rest d)
      ∙ default-add F S c

  -- One step of the closure's `fold`.
  Vanishes-fold_step :
      (h : Scalar → Carrier) (c : Carrier) (n : ℕ)
      → Vanishes n h
      → Vanishes (suc n) (λ x. (h x ⊕ c) ⊙ x)
  Vanishes-fold_step h c n v [] d k = absurd (omega arith)
  Vanishes-fold_step h c n v (a ∷ rest) d k =
      ap (λ f. interpolated F S f (a ∷ rest)) (fun_ext split)
      ∙ weighted-add F S (λ x. g x ⊙ ◌-◌ F x a) (λ x. g x ⊙ a) [] (a ∷ rest)
      ∙ ap₂ ◌⊕◌
          (interpolated_factor F S g a rest d
            ∙ ap (λ t. t ⊙ neg a) (interpolated_add_const h c n v rest d.1 (omega arith)))
          (weighted-mul F S g a [] (a ∷ rest)
            ∙ ap (λ t. t ⊙ a) (interpolated_add_const h c n v (a ∷ rest) d (omega arith)))
      ∙ sym (S.mul-add c (neg a) a)
      ∙ ap (λ t. c ⊙ t) (F.add_comm _ _ ∙ F.add-neg a)
      ∙ S.mul-zero c
    where
      g : Scalar → Carrier
      g x = h x ⊕ c

      split : (x : Scalar) → g x ⊙ x ≡ g x ⊙ ◌-◌ F x a ⊕ g x ⊙ a
      split x =
          ap (λ t. g x ⊙ t)
            (sym (
              F.add_assoc x (neg a) a
              ∙ ap (λ t. F.◌+◌ x t) (F.add_comm _ _ ∙ F.add-neg a)
              ∙ F.add-zero x))
          ∙ S.mul-add (g x) _ _

  Vanishes-fold :
      (cs : List Carrier) (h : Scalar → Carrier) (n : ℕ)
      → Vanishes n h
      → Vanishes (n +ℕ length cs) (λ x. foldl (λ acc c. (acc ⊕ c) ⊙ x) (h x) cs)
  Vanishes-fold [] h n v xs d k = v xs d (omega arith)
  Vanishes-fold (c ∷ cs) h n v xs d k =
      Vanishes-fold cs (λ x. (h x ⊕ c) ⊙ x) (suc n) (Vanishes-fold_step h c n v) xs d (omega arith)

  -- More points than coefficients determine the secret.
  pub interpolated-share_secret :
      (coefficients : List Carrier) (secret : Carrier) (xs : List Scalar)
      → Distinct xs
      → length coefficients < length xs
      → interpolated F S (share_secret F S coefficients secret) xs ≡ secret
  unfolding share_secret
  interpolated-share_secret coefficients secret xs d k =
      interpolated_add_const (λ x. foldl (λ acc c. (acc ⊕ c) ⊙ x) default coefficients) secret
        (length coefficients)
        (λ ys e j. Vanishes-fold coefficients (λ _. default) 0 Vanishes-default ys e (omega arith))
        xs d k
