-- ===== src/Tests/Five.antt =====
-- The field with five elements, over which the theorems on secret sharing run.
use juicebox_sdk.Prelude.{
  ℕ, ◌+◌, ◌*◌, ◌-◌, ◌%◌, ◌<◌, ◌≡◌, ◌≢◌, refl, ap, sym, ◌∙◌, Bool, true, ◌&&◌, ◌==◌, ==_iff,
  if◌then◌else◌, arith,
}
use juicebox_sdk.Curve.{ScalarField, Secret}

pub data Five : Type 0 where
  f0 f1 f2 f3 f4 : Five

abbrev to_ℕ : Five → ℕ
to_ℕ f0 = 0
to_ℕ f1 = 1
to_ℕ f2 = 2
to_ℕ f3 = 3
to_ℕ f4 = 4

abbrev pub of_ℕ : ℕ → Five
of_ℕ n =
    if n % 5 == 0
    then f0
    else if n % 5 == 1
    then f1
    else if n % 5 == 2
    then f2
    else if n % 5 == 3
    then f3
    else f4

abbrev all_five : (Five → Bool) → Bool
all_five p = p f0 && p f1 && p f2 && p f3 && p f4

all_five_sound : (p : Five → Bool) → all_five p ≡ true → (x : Five) → p x ≡ true
all_five_sound p h f0 = ground arith
all_five_sound p h f1 = ground arith
all_five_sound p h f2 = ground arith
all_five_sound p h f3 = ground arith
all_five_sound p h f4 = ground arith

abbrev same : Five → Five → Bool
same a b = to_ℕ a == to_ℕ b

of_ℕ-to_ℕ : (a : Five) → of_ℕ (to_ℕ a) ≡ a
of_ℕ-to_ℕ f0 = refl
of_ℕ-to_ℕ f1 = refl
of_ℕ-to_ℕ f2 = refl
of_ℕ-to_ℕ f3 = refl
of_ℕ-to_ℕ f4 = refl

same_sound : (a b : Five) → same a b ≡ true → a ≡ b
same_sound a b h = sym (of_ℕ-to_ℕ a) ∙ ap of_ℕ ((==_iff (to_ℕ a) (to_ℕ b)).0 h) ∙ of_ℕ-to_ℕ b

pub law₂ :
    (f g : Five → Five → Five)
    → all_five (λ a. all_five (λ b. same (f a b) (g a b))) ≡ true
    → (a b : Five) → f a b ≡ g a b
law₂ f g h a b = same_sound (f a b) (g a b) (
    all_five_sound (λ b. same (f a b) (g a b))
      (all_five_sound (λ a. all_five (λ b. same (f a b) (g a b))) h a) b)

pub law₃ :
    (f g : Five → Five → Five → Five)
    → all_five (λ a. all_five (λ b. all_five (λ c. same (f a b c) (g a b c)))) ≡ true
    → (a b c : Five) → f a b c ≡ g a b c
law₃ f g h a =
    law₂ (f a) (g a)
      (all_five_sound (λ a. all_five (λ b. all_five (λ c. same (f a b c) (g a b c)))) h a)

abbrev add : Five → Five → Five
add a b = of_ℕ (to_ℕ a + to_ℕ b)

abbrev mul : Five → Five → Five
mul a b = of_ℕ (to_ℕ a * to_ℕ b)

abbrev negate : Five → Five
negate a = of_ℕ (5 - to_ℕ a)

abbrev inverse : Five → Five
inverse f0 = f0
inverse f1 = f1
inverse f2 = f3
inverse f3 = f2
inverse f4 = f4

pub Five-discrete : Discrete Five
Five-discrete = hlevel

pub mul-inverse : (a : Five) → a ≢ f0 → mul a (inverse a) ≡ f1
mul-inverse f0 h = absurd (h refl)
mul-inverse f1 h = refl
mul-inverse f2 h = refl
mul-inverse f3 h = refl
mul-inverse f4 h = refl

pub of_ℕ_injective : (m n : ℕ) → m < 5 → n < 5 → of_ℕ m ≡ of_ℕ n → m ≡ n
of_ℕ_injective m n p q h = ground arith

pub f1≢f0 : f1 ≢ f0
f1≢f0 e = cc

abbrev pub five : ScalarField
five = record {
  Scalar = Five;
  zero = f0;
  one = f1;
  ◌+◌ = add;
  ◌*◌ = mul;
  neg = negate;
  invert = inverse;
  dec = Five-discrete;
  from = of_ℕ;
  order = 5;
  add_assoc = law₃ (λ a b c. add (add a b) c) (λ a b c. add a (add b c)) refl;
  add_comm = law₂ add (λ a b. add b a) refl;
  add-zero = λ a. law₂ (λ a b. add a f0) (λ a b. a) refl a f0;
  add-neg = λ a. law₂ (λ a b. add a (negate a)) (λ a b. f0) refl a f0;
  mul_assoc = law₃ (λ a b c. mul (mul a b) c) (λ a b c. mul a (mul b c)) refl;
  mul_comm = law₂ mul (λ a b. mul b a) refl;
  mul-one = λ a. law₂ (λ a b. mul a f1) (λ a b. a) refl a f0;
  mul-add = law₃ (λ a b c. mul a (add b c)) (λ a b c. add (mul a b) (mul a c)) refl;
  mul-invert = mul-inverse;
  one≢zero = f1≢f0;
  from_injective = of_ℕ_injective;
}

-- The scalars as secrets, and with them the one group of the tests.
abbrev pub five_secret : Secret five
five_secret = record {
  Carrier = Five;
  default = f0;
  ◌⊕◌ = add;
  ◌⊙◌ = mul;
  add_assoc = five.add_assoc;
  add_comm = five.add_comm;
  add-default = five.add-zero;
  mul-zero = λ a. law₂ (λ a b. mul a f0) (λ a b. f0) refl a f0;
  mul-one = five.mul-one;
  mul-add = five.mul-add;
  add-mul = law₃ (λ a b c. mul (add a b) c) (λ a b c. add (mul a c) (mul b c)) refl;
  mul-mul = law₃ (λ a b c. mul a (mul b c)) (λ a b c. mul (mul a b) c) refl;
}
