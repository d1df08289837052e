-- ===== src/Curve/Secrets.antt =====
-- Consequences of the laws of a type of secrets.
use juicebox_sdk.Prelude.{◌≡◌, ◌≢◌, sym, ap, ◌∙◌}
use juicebox_sdk.Curve.{ScalarField, Secret}

module _ (F : ScalarField) (S : Secret F) where
  open F use {Scalar, zero, one, ◌*◌, invert, mul_comm, mul-invert}
  open S use {
    Carrier, default, ◌⊕◌, ◌⊙◌, add_assoc, add_comm, add-default, mul-zero, mul-one, mul-add,
    mul-mul,
  }

  pub default-add : (p : Carrier) → default ⊕ p ≡ p
  default-add p = add_comm default p ∙ add-default p

  pub default-mul : (a : Scalar) → default ⊙ a ≡ default
  default-mul a =
      ap (λ t. t ⊙ a) (sym (mul-zero default))
      ∙ sym (mul-mul default zero a)
      ∙ ap (λ t. default ⊙ t) (mul_comm zero a)
      ∙ mul-mul default a zero
      ∙ mul-zero (default ⊙ a)

  pub mul_right_comm : (p : Carrier) (a b : Scalar) → p ⊙ a ⊙ b ≡ p ⊙ b ⊙ a
  mul_right_comm p a b = sym (mul-mul p a b) ∙ ap (λ t. p ⊙ t) (mul_comm a b) ∙ mul-mul p b a

  pub add_interchange : (p q r s : Carrier) → p ⊕ q ⊕ (r ⊕ s) ≡ p ⊕ r ⊕ (q ⊕ s)
  add_interchange p q r s =
      add_assoc p q (r ⊕ s)
      ∙ ap (λ t. p ⊕ t) (sym (add_assoc q r s) ∙ ap (λ t. t ⊕ s) (add_comm q r) ∙ add_assoc r q s)
      ∙ sym (add_assoc p r (q ⊕ s))

  pub mul-invert_cancel : (p : Carrier) (a : Scalar) → a ≢ zero → p ⊙ a ⊙ invert a ≡ p
  mul-invert_cancel p a h =
      sym (mul-mul p a (invert a)) ∙ ap (λ t. p ⊙ t) (mul-invert a h) ∙ mul-one p

  pub mul_cancel : (p q : Carrier) (a : Scalar) → a ≢ zero → p ⊙ a ≡ q ⊙ a → p ≡ q
  mul_cancel p q a h e =
      sym (mul-invert_cancel p a h) ∙ ap (λ t. t ⊙ invert a) e ∙ mul-invert_cancel q a h
