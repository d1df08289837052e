-- ===== src/Sharing/Interpolate.antt =====
-- The weighted sum of a polynomial's values gives its value at zero.
use mathlib.Core.List.{append_assoc}
use mathlib.Core.Path.{ap₂, fun_ext}
use juicebox_sdk.Prelude.{◌≡◌, ◌≢◌, refl, sym, ap, ◌∙◌, ◌≡⟨◌⟩◌, ◌∎, List, [], ◌∷◌, ◌++◌}
use juicebox_sdk.Curve.{ScalarField, Secret}
use juicebox_sdk.Curve.Scalars.{◌-◌, sub_self_iff, neg-sub, neg-neg, mul-neg-one, sub_add_sub}
use juicebox_sdk.Curve.Secrets.{
  default-add, default-mul, mul_right_comm, add_interchange, mul_cancel,
}
use juicebox_sdk.Prelude.{append-All, Distinct, Distinct-others}
use juicebox_sdk.Sharing.Weights.{weight, weight_step, weight_swap}

module _ (F : ScalarField) (S : Secret F) where
  open F use {Scalar, zero, one, ◌+◌, ◌*◌, neg, invert, mul_comm}
  open S use {
    Carrier, default, ◌⊕◌, ◌⊙◌, add_assoc, add_comm, add-default, mul-zero, mul-one, mul-add,
    add-mul, mul-mul,
  }

  -- The terms for the points `after`, each with all the others, those in `before` too.
  abbrev pub weighted : (Scalar → Carrier) → List Scalar → List Scalar → Carrier
  weighted h before [] = default
  weighted h before (x ∷ after) =
      h x ⊙ weight F x (before ++ after) ⊕ weighted h (before ++ (x ∷ [])) after

  pub weighted-add :
      (f g : Scalar → Carrier) (before after : List Scalar)
      → weighted (λ x. f x ⊕ g x) before after ≡ weighted f before after ⊕ weighted g before after
  weighted-add f g before [] = sym (add-default default)
  weighted-add f g before (x ∷ after) =
      ap₂ ◌⊕◌ (add-mul (f x) (g x) _) (weighted-add f g (before ++ (x ∷ [])) after)
      ∙ add_interchange F S _ _ _ _

  pub weighted-mul :
      (f : Scalar → Carrier) (k : Scalar) (before after : List Scalar)
      → weighted (λ x. f x ⊙ k) before after ≡ weighted f before after ⊙ k
  weighted-mul f k before [] = sym (default-mul F S k)
  weighted-mul f k before (x ∷ after) =
      ap₂ ◌⊕◌ (mul_right_comm F S (f x) k _) (weighted-mul f k (before ++ (x ∷ [])) after)
      ∙ sym (add-mul _ _ k)

  weighted_swap :
      (h : Scalar → Carrier) (a b : Scalar) (before after : List Scalar)
      → weighted h (a ∷ b ∷ before) after ≡ weighted h (b ∷ a ∷ before) after
  weighted_swap h a b before [] = refl
  weighted_swap h a b before (x ∷ after) =
      ap₂ (λ w rest. h x ⊙ w ⊕ rest) (weight_swap F x a b (before ++ after))
        (weighted_swap h a b (before ++ (x ∷ [])) after)

  -- A factor `x - a` takes the point `a` away.
  weighted_factor :
      (g : Scalar → Carrier) (a : Scalar) (before after : List Scalar)
      → Distinct (a ∷ (before ++ after))
      → weighted (λ x. g x ⊙ ◌-◌ F x a) (a ∷ before) after ≡ weighted g before after ⊙ neg a
  weighted_factor g a before [] d = sym (default-mul F S (neg a))
  weighted_factor g a before (x ∷ after) d =
      ap₂ ◌⊕◌ at_x (weighted_factor g a (before ++ (x ∷ [])) after (rw append_assoc d))
      ∙ sym (add-mul _ _ (neg a))
    where
      others : List Scalar
      others = before ++ after

      apart : a ≢ x
      apart e = (append-All (λ y. y ≢ a) before (x ∷ after) d.0).1.0 (sym e)

      at_x : g x ⊙ ◌-◌ F x a ⊙ weight F x (a ∷ others) ≡ g x ⊙ weight F x others ⊙ neg a
      at_x =
          sym (mul-mul (g x) _ _)
          ∙ ap (λ t. g x ⊙ t)
              (weight_step F x a others apart (Distinct-others before x after d.1) ∙ mul_comm _ _)
          ∙ mul-mul (g x) _ _

  abbrev pub interpolated : (Scalar → Carrier) → List Scalar → Carrier
  interpolated h xs = weighted h [] xs

  pub interpolated_factor :
      (g : Scalar → Carrier) (a : Scalar) (rest : List Scalar)
      → Distinct (a ∷ rest)
      → interpolated (λ x. g x ⊙ ◌-◌ F x a) (a ∷ rest) ≡ interpolated g rest ⊙ neg a
  interpolated_factor g a rest d =
      ap₂ ◌⊕◌
        (ap (λ t. t ⊙ weight F a rest) (ap (λ t. g a ⊙ t) (F.add-neg a) ∙ mul-zero (g a))
          ∙ default-mul F S _)
        (weighted_factor g a [] rest d)
      ∙ default-add F S _

  interpolated_swap :
      (h : Scalar → Carrier) (a b : Scalar) (rest : List Scalar)
      → interpolated h (a ∷ b ∷ rest) ≡ interpolated h (b ∷ a ∷ rest)
  interpolated_swap h a b rest =
      sym (add_assoc _ _ _) ∙ ap₂ ◌⊕◌ (add_comm _ _) (weighted_swap h a b [] rest) ∙ add_assoc _ _ _

  weight_alone : (x : Scalar) → weight F x [] ≡ one
  weight_alone x = F.mul-invert one F.one≢zero

  interpolated_const_step :
      (c : Carrier) (a b : Scalar) (rest : List Scalar)
      → Distinct (a ∷ b ∷ rest)
      → interpolated (λ _. c) (a ∷ rest) ≡ c
      → interpolated (λ _. c) (b ∷ rest) ≡ c
      → interpolated (λ _. c) (a ∷ b ∷ rest) ≡ c
  interpolated_const_step c a b rest d from_a from_b =
      mul_cancel F S (interpolated (λ _. c) (a ∷ b ∷ rest)) c (◌-◌ F b a)
        (λ e. d.0.0 (sub_self_iff F b a e))
        (interpolated (λ _. c) (a ∷ b ∷ rest) ⊙ ◌-◌ F b a
          ≡⟨ sym (weighted-mul (λ _. c) _ [] (a ∷ b ∷ rest))
            ∙ ap (λ h. interpolated h (a ∷ b ∷ rest)) (fun_ext split) ⟩
            interpolated (λ x. c ⊙ ◌-◌ F x a ⊕ c ⊙ ◌-◌ F x b ⊙ neg one) (a ∷ b ∷ rest)
          ≡⟨ weighted-add (λ x. c ⊙ ◌-◌ F x a) (λ x. c ⊙ ◌-◌ F x b ⊙ neg one) [] (a ∷ b ∷ rest)
            ∙ ap₂ ◌⊕◌ at_a (
                weighted-mul (λ x. c ⊙ ◌-◌ F x b) (neg one) [] (a ∷ b ∷ rest)
                ∙ ap (λ t. t ⊙ neg one) at_b) ⟩
            c ⊙ neg a ⊕ c ⊙ neg b ⊙ neg one
          ≡⟨ ap (λ t. c ⊙ neg a ⊕ t)
              (sym (mul-mul c _ _) ∙ ap (λ t. c ⊙ t) (mul-neg-one F (neg b) ∙ neg-neg F b))
            ∙ sym (mul-add c (neg a) b)
            ∙ ap (λ t. c ⊙ t) (F.add_comm _ _) ⟩
            c ⊙ ◌-◌ F b a ∎)
    where
      split : (x : Scalar) → c ⊙ ◌-◌ F b a ≡ c ⊙ ◌-◌ F x a ⊕ c ⊙ ◌-◌ F x b ⊙ neg one
      split x =
          ap (λ t. c ⊙ t)
            (sym (sub_add_sub F b a x)
              ∙ F.add_comm _ _
              ∙ ap (λ t. ◌-◌ F x a + t) (neg-sub F b x ∙ sym (mul-neg-one F _)))
          ∙ mul-add c _ _
          ∙ ap (λ t. c ⊙ ◌-◌ F x a ⊕ t) (mul-mul c _ _)

      at_a : interpolated (λ x. c ⊙ ◌-◌ F x a) (a ∷ b ∷ rest) ≡ c ⊙ neg a
      at_a = interpolated_factor (λ _. c) a (b ∷ rest) d ∙ ap (λ t. t ⊙ neg a) (from_b)

      at_b : interpolated (λ x. c ⊙ ◌-◌ F x b) (a ∷ b ∷ rest) ≡ c ⊙ neg b
      at_b =
          interpolated_swap _ a b rest
          ∙ interpolated_factor (λ _. c) b (a ∷ rest) ((λ e. d.0.0 (sym e), d.1.0), (d.0.1, d.1.1))
          ∙ ap (λ t. t ⊙ neg b) (from_a)

  -- The coefficients of the points add up to one.
  pub interpolated_const :
      (c : Carrier) (a : Scalar) (rest : List Scalar)
      → Distinct (a ∷ rest)
      → interpolated (λ _. c) (a ∷ rest) ≡ c
  interpolated_const c a [] d = add-default _ ∙ ap (λ t. c ⊙ t) (weight_alone a) ∙ mul-one c
  interpolated_const c a (b ∷ rest) d =
      interpolated_const_step c a b rest d (interpolated_const c a rest (d.0.1, d.1.1))
        (interpolated_const c b rest d.1)
