-- ===== src/Marshalling.antt =====
-- rust/marshalling/src/lib.rs: the integers that are put before a field in what is hashed or signed.
pub mod BigEndian
use juicebox_sdk.Prelude.{
  ℕ, ◌/◌, ◌%◌, [], ◌∷◌, Bytes, Outcome, ok, ◌>>◌, assert, ltb, u16_mod, u32_mod, u64_mod,
}

-- The last byte of `n` shifted down by `k` bits, where `shift` is 2 ^ k.
abbrev pub byte_at : ℕ → ℕ → ℕ
byte_at n shift = n / shift % 256

unfoldable pub to_be2 {ℓ} : {E : Type ℓ} → ℕ → Outcome E Bytes
to_be2 value = do assert (ltb value u16_mod); ok (byte_at value 256 ∷ byte_at value 1 ∷ [])

unfoldable pub to_be4 {ℓ} : {E : Type ℓ} → ℕ → Outcome E Bytes
to_be4 value = do
  assert (ltb value u32_mod)
  ok (byte_at value 16777216 ∷ byte_at value 65536 ∷ byte_at value 256 ∷ byte_at value 1 ∷ [])

unfoldable pub to_be8 {ℓ} : {E : Type ℓ} → ℕ → Outcome E Bytes
to_be8 value = do
  assert (ltb value u64_mod)
  ok (
      byte_at value 72057594037927936
      ∷ byte_at value 281474976710656
      ∷ byte_at value 1099511627776
      ∷ byte_at value 4294967296
      ∷ byte_at value 16777216
      ∷ byte_at value 65536
      ∷ byte_at value 256
      ∷ byte_at value 1
      ∷ [])
