-- ===== src/Curve/Groups.antt =====
-- Negation and subtraction of points.
use juicebox_sdk.Prelude.{◌≡◌, sym, ap, ◌∙◌}
use juicebox_sdk.Curve.{ScalarField, Group}

module _ (F : ScalarField) (G : Group F) where
  open G use {
    Carrier, default, ◌⊕◌, ◌⊙◌, add_assoc, add_comm, add-default, mul-zero, mul-add, neg, add-neg,
  }

  -- `p - q`
  infixl 65 ◌⊖◌
  abbrev pub ◌⊖◌ : Carrier → Carrier → Carrier
  p ⊖ q = p ⊕ neg q

  pub add_cancel : (p q r : Carrier) → p ⊕ r ≡ q ⊕ r → p ≡ q
  add_cancel p q r h = sym (undo p) ∙ ap (λ t. t ⊕ neg r) h ∙ undo q
    where
      undo : (x : Carrier) → x ⊕ r ⊕ neg r ≡ x
      undo x = add_assoc x r (neg r) ∙ ap (λ t. x ⊕ t) (add-neg r) ∙ add-default x

  pub mul-neg : (p : Carrier) (a : F.Scalar) → p ⊙ F.neg a ≡ neg (p ⊙ a)
  mul-neg p a = add_cancel (p ⊙ F.neg a) (neg (p ⊙ a)) (p ⊙ a) (
      sym (mul-add p (F.neg a) a)
      ∙ ap (λ t. p ⊙ t) (F.add_comm _ _ ∙ F.add-neg a)
      ∙ mul-zero p
      ∙ sym (add_comm _ _ ∙ add-neg (p ⊙ a)))

  pub add_sub_cancel : (p q : Carrier) → p ⊕ q ⊖ q ≡ p
  add_sub_cancel p q = add_assoc p q (neg q) ∙ ap (λ t. p ⊕ t) (add-neg q) ∙ add-default p
