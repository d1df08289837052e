-- ===== src/Join/Order.antt =====
-- What `E: Ord` promises of the errors that are joined, and the least of some errors.
use juicebox_sdk.Prelude.{◌≡◌, ◌⊎◌, inl, inr, Bool, true, List, [], ◌∷◌, Memᴰ}

pub record Ord {ℓ} (E : Type ℓ) : Type ℓ where
  pub le : E → E → Bool
  pub le_total : (a b : E) → (le a b ≡ true) ⊎ (le b a ≡ true)
  pub le_trans : (a b c : E) → le a b ≡ true → le b c ≡ true → le a c ≡ true

module _ {ℓ} {E : Type ℓ} ⦃o : Ord E⦄ where
  abbrev pub IsBelow : E → List E → Type 0
  IsBelow e [] = Unit
  IsBelow e (a ∷ es) = (o.le e a ≡ true) × IsBelow e es

  -- `e` is one of `es`, and none of them is smaller.
  pub record IsLeast (e : E) (es : List E) : Type ℓ where
    pub seen : Memᴰ e es
    pub below : IsBelow e es

  pub le_refl : (e : E) → o.le e e ≡ true
  le_refl e = elim (o.le_total e e) [ inl h ↦ h | inr h ↦ h ]

  pub IsBelow-le : (a b : E) (es : List E) → o.le a b ≡ true → IsBelow b es → IsBelow a es
  IsBelow-le a b [] h k = tt
  IsBelow-le a b (e ∷ es) h k = (o.le_trans a b e h k.0, IsBelow-le a b es h k.1)
