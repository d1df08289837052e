-- ===== src/Marshalling/BigEndian.antt =====
-- The bytes stand for the number, most significant first.
use mathlib.Core.List.{foldl}
use juicebox_sdk.Prelude.{
  ◌⊎◌, inl, inr, ltb→lt, Bool-cases, ℕ, ◌+◌, ◌*◌, ◌<◌, ◌≤◌, ◌≡◌, refl, [], ◌∷◌, Bytes, AreBytes,
  length, Outcome, ok, panic, ltb, u16_mod, u32_mod, u64_mod, arith,
}
use juicebox_sdk.Marshalling.{byte_at, to_be2, to_be4, to_be8}

-- The number that bytes in network order stand for.
abbrev pub from_be : Bytes → ℕ
from_be = foldl (λ acc b. acc * 256 + b) 0

-- A result that holds `size` bytes for the number, which is below the bound, or a panic for a number
-- from the bound on.
abbrev pub Encodes {ℓ} : {E : Type ℓ} → Outcome E Bytes → ℕ → ℕ → ℕ → Type ℓ
Encodes result size bound n =
    ((bytes : Bytes) × (n < bound)
      × (result ≡ ok bytes)
      × (length bytes ≡ size)
      × AreBytes bytes
      × (from_be bytes ≡ n))
    ⊎ ((bound ≤ n) × (result ≡ panic))

-- `to_be2` gives two bytes in network order that stand for the number if it is below 2 ^ 16, and
-- panics otherwise.
pub to_be2_cases {ℓ} : {E : Type ℓ} (n : ℕ) → Encodes (to_be2 {E = E} n) 2 u16_mod n
unfolding to_be2
to_be2_cases n = elim (Bool-cases (ltb n u16_mod)) [
  | inl h ↦
      let small = ltb→lt n u16_mod h in
      inl (
        byte_at n 256 ∷ byte_at n 1 ∷ [],
        ground arith,
        (rw h refl),
        refl,
        (omega arith, (omega arith, tt)),
        omega arith,
      )
  | inr h ↦ inr (ground arith, (rw h refl))
]

-- `to_be4` gives four bytes in network order that stand for the number if it is below 2 ^ 32, and
-- panics otherwise.
pub to_be4_cases {ℓ} : {E : Type ℓ} (n : ℕ) → Encodes (to_be4 {E = E} n) 4 u32_mod n
unfolding to_be4
to_be4_cases n = elim (Bool-cases (ltb n u32_mod)) [
  | inl h ↦
      let small = ltb→lt n u32_mod h in
      inl (
        byte_at n 16777216 ∷ byte_at n 65536 ∷ byte_at n 256 ∷ byte_at n 1 ∷ [],
        ground arith,
        (rw h refl),
        refl,
        (omega arith, (omega arith, (omega arith, (omega arith, tt)))),
        omega arith,
      )
  | inr h ↦ inr (ground arith, (rw h refl))
]

-- `to_be8` gives eight bytes in network order that stand for the number if it is below 2 ^ 64, and
-- panics otherwise.
pub to_be8_cases {ℓ} : {E : Type ℓ} (n : ℕ) → Encodes (to_be8 {E = E} n) 8 u64_mod n
unfolding to_be8
to_be8_cases n = elim (Bool-cases (ltb n u64_mod)) [
  | inl h ↦
      let small = ltb→lt n u64_mod h in
      inl (
        byte_at n 72057594037927936
            ∷ byte_at n 281474976710656
            ∷ byte_at n 1099511627776
            ∷ byte_at n 4294967296
            ∷ byte_at n 16777216
            ∷ byte_at n 65536
            ∷ byte_at n 256
            ∷ byte_at n 1
            ∷ [],
        ground arith,
        (rw h refl),
        refl,
        (
          omega arith,
          (
            omega arith,
            (
              omega arith,
              (omega arith, (omega arith, (omega arith, (omega arith, (omega arith, tt))))),
            ),
          ),
        ),
        omega arith,
      )
  | inr h ↦ inr (ground arith, (rw h refl))
]
