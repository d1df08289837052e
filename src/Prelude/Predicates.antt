-- ===== src/Prelude/Predicates.antt =====
-- Lists without repetition, and predicates on all elements.
use mathlib.Core.Path.{refl, sym, subst, ◌∙◌}
use mathlib.Core.Logic.{◌≢◌}
use mathlib.Core.List.{List, [], ◌∷◌, ◌++◌, map, Permᴰ, Memᴰ}

module _ {ℓ κ} {A : Type ℓ} where
  abbrev pub All : (A → Type κ) → List A → Type κ
  All P [] = Unit
  All P (x ∷ xs) = P x × All P xs

  pub All-append : (P : A → Type κ) (xs ys : List A) → All P xs → All P ys → All P (xs ++ ys)
  All-append P [] ys h k = k
  All-append P (x ∷ xs) ys h k = (h.0, All-append P xs ys h.1 k)

  pub append-All : (P : A → Type κ) (xs ys : List A) → All P (xs ++ ys) → All P xs × All P ys
  append-All P [] ys h = (tt, h)
  append-All P (x ∷ xs) ys h = let r = append-All P xs ys h.1 in ((h.0, r.0), r.1)

module _ {ℓ} {A : Type ℓ} where
  -- No two positions hold the same value.
  abbrev pub Distinct : List A → Type ℓ
  Distinct [] = Unit
  Distinct (x ∷ xs) = All (λ y. y ≢ x) xs × Distinct xs

  -- A value differs from all the others, on both sides.
  pub Distinct-others :
      (before : List A) (x : A) (after : List A)
      → Distinct (before ++ (x ∷ after))
      → All (λ y. y ≢ x) (before ++ after)
  Distinct-others [] x after d = d.0
  Distinct-others (b ∷ before) x after d = (
    λ e. (append-All (λ y. y ≢ b) before (x ∷ after) d.0).1.0 (sym e),
    Distinct-others before x after d.1,
  )

module _ {ℓ κ} {A : Type ℓ} (P : A → Type κ) where
  pub All-Permᴰ : {xs ys : List A} → Permᴰ xs ys → All P xs → All P ys
  All-Permᴰ Permᴰ.nil h = tt
  All-Permᴰ (Permᴰ.cons p d) h = (subst P p h.0, All-Permᴰ d h.1)
  All-Permᴰ (Permᴰ.swap p q) h = (subst P q h.1.0, (subst P p h.0, h.1.1))
  All-Permᴰ (Permᴰ.trans d e) h = All-Permᴰ e (All-Permᴰ d h)

  pub All_of_mem : (xs : List A) {x : A} → All P xs → Memᴰ x xs → P x
  All_of_mem [] h m = elim m [ ]
  All_of_mem (y ∷ ys) h (Memᴰ.head e) = subst P (sym e) h.0
  All_of_mem (y ∷ ys) h (Memᴰ.tail m) = All_of_mem ys h.1 m

module _ {ℓ} {A : Type ℓ} where
  pub Distinct-Permᴰ : {xs ys : List A} → Permᴰ xs ys → Distinct xs → Distinct ys
  Distinct-Permᴰ Permᴰ.nil h = tt
  Distinct-Permᴰ (Permᴰ.cons {a} {b} {l₂} p d) h =
      (subst (λ x. All (λ y. y ≢ x) l₂) p (All-Permᴰ (λ y. y ≢ a) d h.0), Distinct-Permᴰ d h.1)
  Distinct-Permᴰ (Permᴰ.swap {a} {b} {a'} {b'} {l} p q) h = (
    (λ e. h.0.0 (q ∙ sym e ∙ sym p), subst (λ x. All (λ y. y ≢ x) l) q h.1.0),
    (subst (λ x. All (λ y. y ≢ x) l) p h.0.1, h.1.1),
  )
  Distinct-Permᴰ (Permᴰ.trans d e) h = Distinct-Permᴰ e (Distinct-Permᴰ d h)

module _ {A : Type 0} where
  pub All-both :
      (P Q R : A → Type 0) (xs : List A)
      → ((x : A) → P x → Q x → R x)
      → All P xs
      → All Q xs
      → All R xs
  All-both P Q R [] f h k = tt
  All-both P Q R (x ∷ xs) f h k = (f x h.0 k.0, All-both P Q R xs f h.1 k.1)

  pub All-everywhere : (P : A → Type 0) (xs : List A) → ((x : A) → P x) → All P xs
  All-everywhere P [] f = tt
  All-everywhere P (x ∷ xs) f = (f x, All-everywhere P xs f)

  pub All-own : (xs : List A) → All (λ x. Memᴰ x xs) xs
  All-own [] = tt
  All-own (x ∷ xs) =
      let rest = All-own xs in
      (
        Memᴰ.head refl,
        All-both (λ y. Memᴰ y xs) (λ y. Memᴰ y xs) (λ y. Memᴰ y (x ∷ xs)) xs (λ y m n. Memᴰ.tail m)
            rest rest,
      )

  module _ {B : Type 0} (P : B → Type 0) (f : A → B) where
    pub All-map : (xs : List A) → All (λ x. P (f x)) xs → All P (map f xs)
    All-map [] h = tt
    All-map (x ∷ xs) h = (h.0, All-map xs h.1)

    pub All-unmap : (xs : List A) → All P (map f xs) → All (λ x. P (f x)) xs
    All-unmap [] h = tt
    All-unmap (x ∷ xs) h = (h.0, All-unmap xs h.1)
