-- ===== src/Curve.antt =====
-- What the program uses of curve25519_dalek: the field of scalars, and the groups that a secret can
-- live in. The crate is not part of the repository, so both are interfaces: the operations that the
-- code calls, with their documented laws.
pub mod Scalars
pub mod Secrets
pub mod Groups
use juicebox_sdk.Prelude.{ℕ, ◌<◌, ◌≡◌, ◌≢◌, Option, some, Bytes}

-- `curve25519_dalek::Scalar`: the integers modulo the prime `order`.
pub record ScalarField : Type 1 where
  infixl 65 ◌+◌
  infixl 70 ◌*◌
  pub Scalar : Type 0
  pub zero : Scalar
  pub one : Scalar
  pub ◌+◌ : Scalar → Scalar → Scalar
  pub ◌*◌ : Scalar → Scalar → Scalar
  pub neg : Scalar → Scalar
  pub invert : Scalar → Scalar
  -- `==`
  pub dec : Discrete Scalar
  -- `Scalar::from(u32)`
  pub from : ℕ → Scalar
  pub order : ℕ
  pub add_assoc : (a b c : Scalar) → a + b + c ≡ a + (b + c)
  pub add_comm : (a b : Scalar) → a + b ≡ b + a
  pub add-zero : (a : Scalar) → a + zero ≡ a
  pub add-neg : (a : Scalar) → a + neg a ≡ zero
  pub mul_assoc : (a b c : Scalar) → a * b * c ≡ a * (b * c)
  pub mul_comm : (a b : Scalar) → a * b ≡ b * a
  pub mul-one : (a : Scalar) → a * one ≡ a
  pub mul-add : (a b c : Scalar) → a * (b + c) ≡ a * b + a * c
  pub mul-invert : (a : Scalar) → a ≢ zero → a * invert a ≡ one
  pub one≢zero : one ≢ zero
  pub from_injective : (m n : ℕ) → m < order → n < order → from m ≡ from n → m ≡ n

-- The trait `Secret` of rust/secret_sharing/src/lib.rs: `Default`, `Add`, and `Mul` by a scalar.
pub record Secret (F : ScalarField) : Type 1 where
  infixl 65 ◌⊕◌
  infixl 70 ◌⊙◌
  pub Carrier : Type 0
  pub default : Carrier
  pub ◌⊕◌ : Carrier → Carrier → Carrier
  pub ◌⊙◌ : Carrier → F.Scalar → Carrier
  pub add_assoc : (p q r : Carrier) → p ⊕ q ⊕ r ≡ p ⊕ (q ⊕ r)
  pub add_comm : (p q : Carrier) → p ⊕ q ≡ q ⊕ p
  pub add-default : (p : Carrier) → p ⊕ default ≡ p
  pub mul-zero : (p : Carrier) → p ⊙ F.zero ≡ default
  pub mul-one : (p : Carrier) → p ⊙ F.one ≡ p
  pub mul-add : (p : Carrier) (a b : F.Scalar) → p ⊙ F.◌+◌ a b ≡ p ⊙ a ⊕ p ⊙ b
  pub add-mul : (p q : Carrier) (a : F.Scalar) → (p ⊕ q) ⊙ a ≡ p ⊙ a ⊕ q ⊙ a
  pub mul-mul : (p : Carrier) (a b : F.Scalar) → p ⊙ F.◌*◌ a b ≡ p ⊙ a ⊙ b

-- `RistrettoPoint`, with its compressed form and the two hash functions that the code applies to
-- bytes.
pub record Group (F : ScalarField) : Type 1 where
  pub points : Secret F
  pub open points use *
  pub neg : points.Carrier → points.Carrier
  -- `Point::mul_base(s)` is `base ⊙ s`.
  pub base : points.Carrier
  pub compress : points.Carrier → Bytes
  pub decompress : Bytes → Option points.Carrier
  -- `Point::hash_from_bytes::<Sha512>`
  pub hash_from_bytes : Bytes → points.Carrier
  -- `Scalar::from_hash` of a SHA-512 over these bytes.
  pub from_hash : Bytes → F.Scalar
  pub sha512 : Bytes → Bytes
  pub add-neg : (p : points.Carrier) → points.◌⊕◌ p (neg p) ≡ points.default
  pub decompress-compress : (p : points.Carrier) → decompress (compress p) ≡ some p
