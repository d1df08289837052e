-- ===== src/Curve/Scalars.antt =====
-- Consequences of the laws of a field.
use juicebox_sdk.Prelude.{◌≡◌, ◌≢◌, sym, ap, ◌∙◌, ◌≡⟨◌⟩◌, ◌∎}
use juicebox_sdk.Curve.{ScalarField, Secret}

module _ (F : ScalarField) where
  open F use {
    Scalar, zero, one, ◌+◌, ◌*◌, neg, invert, add_assoc, add_comm, add-zero, add-neg, mul_assoc,
    mul_comm, mul-one, mul-add, mul-invert, one≢zero,
  }

  -- `a - b`
  infixl 65 ◌-◌
  abbrev pub ◌-◌ : Scalar → Scalar → Scalar
  a - b = a + neg b

  pub add_left_comm : (a b c : Scalar) → a + (b + c) ≡ b + (a + c)
  add_left_comm a b c = sym (add_assoc a b c) ∙ ap (λ t. t + c) (add_comm a b) ∙ add_assoc b a c

  pub mul_left_comm : (a b c : Scalar) → a * (b * c) ≡ b * (a * c)
  mul_left_comm a b c = sym (mul_assoc a b c) ∙ ap (λ t. t * c) (mul_comm a b) ∙ mul_assoc b a c

  pub add_cancel : (a b c : Scalar) → a + c ≡ b + c → a ≡ b
  add_cancel a b c h = go
    where
      undo : (x : Scalar) → x + c + neg c ≡ x
      undo x = add_assoc x c (neg c) ∙ ap (λ t. x + t) (add-neg c) ∙ add-zero x

      go : a ≡ b
      go = sym (undo a) ∙ ap (λ t. t + neg c) h ∙ undo b

  pub mul-zero : (a : Scalar) → a * zero ≡ zero
  mul-zero a = add_cancel (a * zero) zero (a * zero) (
      sym (mul-add a zero zero)
      ∙ ap (λ t. a * t) (add-zero zero)
      ∙ sym (add-zero (a * zero))
      ∙ add_comm (a * zero) zero)

  pub mul-neg : (a b : Scalar) → a * neg b ≡ neg (a * b)
  mul-neg a b = add_cancel (a * neg b) (neg (a * b)) (a * b) (
      sym (mul-add a (neg b) b)
      ∙ ap (λ t. a * t) (add_comm (neg b) b ∙ add-neg b)
      ∙ mul-zero a
      ∙ sym (add-neg (a * b))
      ∙ add_comm (a * b) (neg (a * b)))

  pub sub_self_iff : (a b : Scalar) → a - b ≡ zero → a ≡ b
  sub_self_iff a b h = add_cancel a b (neg b) (h ∙ sym (add-neg b))

  -- There are no divisors of zero.
  pub mul-ne-zero : (a b : Scalar) → a ≢ zero → b ≢ zero → a * b ≢ zero
  mul-ne-zero a b ha hb e = hb (
      sym (mul-one b)
      ∙ mul_comm b one
      ∙ ap (λ t. t * b) (sym (mul-invert a ha) ∙ mul_comm a (invert a))
      ∙ mul_assoc (invert a) a b
      ∙ ap (λ t. invert a * t) e
      ∙ mul-zero (invert a))

  pub invert-mul : (a b : Scalar) → a ≢ zero → b ≢ zero → invert (a * b) ≡ invert a * invert b
  invert-mul a b ha hb =
      invert (a * b)
      ≡⟨ sym (mul-one _) ∙ ap (λ t. invert (a * b) * t) (sym inverse) ⟩
        invert (a * b) * (a * b * (invert a * invert b))
      ≡⟨ sym (mul_assoc _ _ _)
        ∙ ap (λ t. t * (invert a * invert b))
            (mul_comm _ _ ∙ mul-invert (a * b) (mul-ne-zero a b ha hb)) ⟩
        one * (invert a * invert b)
      ≡⟨ mul_comm _ _ ∙ mul-one _ ⟩ invert a * invert b ∎
    where
      inverse : a * b * (invert a * invert b) ≡ one
      inverse = simp (
        mul_assoc,
        mul_left_comm b (invert a) (invert b),
        mul-invert b hb,
        mul-one,
        mul-invert a ha,
      )

  pub neg-mul : (a b : Scalar) → neg a * b ≡ neg (a * b)
  neg-mul a b = mul_comm (neg a) b ∙ mul-neg b a ∙ ap neg (mul_comm b a)

  pub neg-neg : (a : Scalar) → neg (neg a) ≡ a
  neg-neg a = add_cancel (neg (neg a)) a (neg a) (add_comm _ _ ∙ add-neg (neg a) ∙ sym (add-neg a))

  pub mul-neg-one : (a : Scalar) → a * neg one ≡ neg a
  mul-neg-one a = mul-neg a one ∙ ap neg (mul-one a)

  pub sub_add_sub : (a b x : Scalar) → a - x + (x - b) ≡ a - b
  sub_add_sub a b x =
      add_assoc a (neg x) (x - b)
      ∙ ap (λ t. a + t)
          (sym (add_assoc (neg x) x (neg b))
            ∙ ap (λ t. t + neg b) (add_comm (neg x) x ∙ add-neg x)
            ∙ add_comm zero (neg b)
            ∙ add-zero (neg b))

  pub neg-sub : (a b : Scalar) → a - b ≡ neg (b - a)
  neg-sub a b =
      add_cancel (a - b) (neg (b - a)) (b - a)
        (sub_add_sub a a b ∙ add-neg a ∙ sym (add_comm _ _ ∙ add-neg (b - a)))

  pub add-mul : (a b c : Scalar) → (a + b) * c ≡ a * c + b * c
  add-mul a b c =
      mul_comm (a + b) c
      ∙ mul-add c a b
      ∙ ap (λ t. t + c * b) (mul_comm c a)
      ∙ ap (λ t. a * c + t) (mul_comm c b)

  -- `impl Secret for Scalar`: the scalars themselves can be shared.
  abbrev pub scalar_secret : Secret F
  scalar_secret = record {
    Carrier = Scalar;
    default = zero;
    ◌⊕◌ = ◌+◌;
    ◌⊙◌ = ◌*◌;
    add_assoc = add_assoc;
    add_comm = add_comm;
    add-default = add-zero;
    mul-zero = mul-zero;
    mul-one = mul-one;
    mul-add = mul-add;
    add-mul = add-mul;
    mul-mul = λ a b c. sym (mul_assoc a b c);
  }
