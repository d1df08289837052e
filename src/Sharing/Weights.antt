-- ===== src/Sharing/Weights.antt =====
-- The Lagrange coefficient of a point, and how it changes when a point is added to the others.
use mathlib.Core.List.{foldl}
use mathlib.Core.Path.{ap₂}
use juicebox_sdk.Prelude.{◌≡◌, ◌≢◌, sym, ap, ◌∙◌, ◌≡⟨◌⟩◌, ◌∎, List, [], ◌∷◌, ◌++◌, map}
use juicebox_sdk.Curve.{ScalarField}
use juicebox_sdk.Curve.Scalars.{
  ◌-◌, mul-zero, mul_left_comm, mul-ne-zero, invert-mul, sub_self_iff, neg-sub, neg-mul,
}
use juicebox_sdk.Sharing.{product, numerator, denominator}
use juicebox_sdk.Prelude.{All}

module _ (F : ScalarField) where
  open F use {
    Scalar, zero, one, ◌+◌, ◌*◌, neg, invert, add_assoc, add_comm, add-zero, add-neg, mul_assoc,
    mul_comm, mul-one, mul-add, mul-invert, one≢zero,
  }

  product_from :
      (acc : Scalar) (xs : List Scalar) → foldl (λ acc a. acc * a) acc xs ≡ acc * product F xs
  product_from acc [] = sym (mul-one acc)
  product_from acc (x ∷ xs) =
      product_from (acc * x) xs
      ∙ mul_assoc acc x (product F xs)
      ∙ ap (λ t. acc * t)
          (ap (λ t. t * product F xs) (sym (mul-one x) ∙ mul_comm x one)
            ∙ sym (product_from (one * x) xs))

  pub product-cons : (x : Scalar) (xs : List Scalar) → product F (x ∷ xs) ≡ x * product F xs
  product-cons x xs =
      product_from (one * x) xs ∙ ap (λ t. t * product F xs) (mul_comm one x ∙ mul-one x)

  abbrev pub weight : Scalar → List Scalar → Scalar
  weight x others = numerator F others * invert (denominator F x others)

  pub denominator-cons :
      (x a : Scalar) (others : List Scalar)
      → denominator F x (a ∷ others) ≡ ◌-◌ F a x * denominator F x others
  denominator-cons x a others = product-cons (◌-◌ F a x) (map (λ other. ◌-◌ F other x) others)

  -- No factor of the denominator is zero where the other points differ from this one.
  pub denominator-ne-zero :
      (x : Scalar) (others : List Scalar) → All (λ y. y ≢ x) others → denominator F x others ≢ zero
  denominator-ne-zero x [] h = one≢zero
  denominator-ne-zero x (a ∷ others) h = rw denominator-cons (
      mul-ne-zero F (◌-◌ F a x) (denominator F x others) (λ e. h.0 (sub_self_iff F a x e))
        (denominator-ne-zero x others h.1))

  pub denominator-eq-zero :
      (x : Scalar) (before after : List Scalar) → denominator F x (before ++ (x ∷ after)) ≡ zero
  denominator-eq-zero x [] after =
      denominator-cons x x after
      ∙ ap (λ t. t * denominator F x after) (add-neg x)
      ∙ mul_comm zero _
      ∙ mul-zero F _
  denominator-eq-zero x (b ∷ before) after =
      denominator-cons x b (before ++ (x ∷ after))
      ∙ ap (λ t. ◌-◌ F b x * t) (denominator-eq-zero x before after)
      ∙ mul-zero F _

  -- One more point `a` turns `x - a` times the coefficient into `- a` times the old one.
  pub weight_step :
      (x a : Scalar) (others : List Scalar)
      → a ≢ x
      → All (λ y. y ≢ x) others
      → ◌-◌ F x a * weight x (a ∷ others) ≡ neg a * weight x others
  weight_step x a others apart h =
      ◌-◌ F x a * weight x (a ∷ others)
      ≡⟨ ap (λ t. ◌-◌ F x a * t)
          (ap (λ t. t * invert (denominator F x (a ∷ others))) (product-cons a others)
            ∙ ap (λ t. a * N * t)
                (ap invert (denominator-cons x a others)
                  ∙ invert-mul F u D u≢0 (denominator-ne-zero x others h))) ⟩
        ◌-◌ F x a * (a * N * (invert u * invert D))
      ≡⟨ ap (λ t. t * (a * N * (invert u * invert D))) (neg-sub F x a) ⟩
        neg u * (a * N * (invert u * invert D))
      ≡⟨ neg-mul F u _ ∙ ap neg collect ⟩ neg (a * (N * invert D))
      ≡⟨ sym (neg-mul F a (N * invert D)) ⟩ neg a * weight x others ∎
    where
      u : Scalar
      u = ◌-◌ F a x

      N : Scalar
      N = numerator F others

      D : Scalar
      D = denominator F x others

      u≢0 : u ≢ zero
      u≢0 e = apart (sub_self_iff F a x e)

      collect : u * (a * N * (invert u * invert D)) ≡ a * (N * invert D)
      collect =
          mul_left_comm F u (a * N) (invert u * invert D)
          ∙ ap (λ t. a * N * t)
              (sym (mul_assoc u (invert u) (invert D))
                ∙ ap (λ t. t * invert D) (mul-invert u u≢0)
                ∙ mul_comm one (invert D)
                ∙ mul-one (invert D))
          ∙ mul_assoc a N (invert D)

  -- The order of the first two other points does not matter.
  pub weight_swap :
      (x a b : Scalar) (others : List Scalar)
      → weight x (a ∷ b ∷ others) ≡ weight x (b ∷ a ∷ others)
  weight_swap x a b others = ap₂ (λ n d. n * invert d) (swap a b others) swap_denominator
    where
      swap : (a b : Scalar) (l : List Scalar) → product F (a ∷ b ∷ l) ≡ product F (b ∷ a ∷ l)
      swap a b l =
          product-cons a (b ∷ l)
          ∙ ap (λ t. a * t) (product-cons b l)
          ∙ mul_left_comm F a b _
          ∙ sym (product-cons b (a ∷ l) ∙ ap (λ t. b * t) (product-cons a l))

      swap_denominator : denominator F x (a ∷ b ∷ others) ≡ denominator F x (b ∷ a ∷ others)
      swap_denominator = swap (◌-◌ F a x) (◌-◌ F b x) (map (λ other. ◌-◌ F other x) others)
