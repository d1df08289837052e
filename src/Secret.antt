-- ===== src/Secret.antt =====
-- rust/sdk/src/types.rs: the user's secret, its padding to 129 bytes, and its encryption.
pub mod Padding
pub mod Roundtrip
use juicebox_sdk.Prelude.{
  ℕ, suc, ◌+◌, ◌-◌, ◌≤◌, ◌≡◌, List, [], ◌∷◌, ◌++◌, Bytes, Option, none, some, Outcome, ok, panic,
  ◌>>=◌, ◌>>◌, assert, unwrap, ltb, leb, ◌==◌, if◌then◌else◌, length, take, drop, replicate,
}

-- `ChaCha20Poly1305` of the crate chacha20poly1305, which is not part of the repository: for every
-- key and nonce, a plaintext within the cipher's limit has a ciphertext, which is 16 bytes longer
-- and is decrypted to the plaintext.
pub record Cipher : Type 0 where
  pub encrypt : Bytes → Bytes → Bytes → Option Bytes
  pub decrypt : Bytes → Bytes → Bytes → Option Bytes
  pub encrypt-some :
      (key nonce plaintext : Bytes)
      → length plaintext ≤ 274877906880
      → (ciphertext : Bytes) × (encrypt key nonce plaintext ≡ some ciphertext)
        × (length ciphertext ≡ length plaintext + 16)
        × (decrypt key nonce ciphertext ≡ some plaintext)

-- `SecretBytesArray::try_from`, into an array of `n` bytes.
abbrev pub secret_bytes_array : ℕ → Bytes → Option Bytes
secret_bytes_array n value = if length value == n then some value else none

-- `Vec::resize`.
abbrev pub resize : Bytes → ℕ → ℕ → Bytes
resize bytes n value = take n bytes ++ replicate (n - length bytes) value

-- The slice `bytes[start..end]`.
abbrev pub slice {ℓ} : {E : Type ℓ} → Bytes → ℕ → ℕ → Outcome E Bytes
slice bytes start end = do
  assert (leb start end)
  assert (leb end (length bytes))
  ok (take (end - start) (drop start bytes))

abbrev pub max_user_secret_length : ℕ
max_user_secret_length = 128

-- `From<Vec<u8>> for UserSecret`. A secret is its bytes.
unfoldable pub user_secret {ℓ} : {E : Type ℓ} → Bytes → Outcome E Bytes
user_secret value = do assert (leb (length value) max_user_secret_length); ok value

-- `From<&UserSecret> for PaddedUserSecret`. The length is converted to a byte.
unfoldable pub padded_user_secret {ℓ} : {E : Type ℓ} → Bytes → Outcome E Bytes
padded_user_secret value = do
  assert (ltb (length value) 256)
  unwrap (secret_bytes_array 129 (resize (length value ∷ value) (max_user_secret_length + 1) 0))

-- `From<&PaddedUserSecret> for UserSecret`.
unfoldable pub unpadded_user_secret {ℓ} : {E : Type ℓ} → Bytes → Outcome E Bytes
unfolding user_secret
unpadded_user_secret [] = panic
unpadded_user_secret (unpadded_length ∷ rest) = do
  value ← slice (unpadded_length ∷ rest) 1 (suc unpadded_length)
  user_secret value

abbrev pub user_secret_encryption_nonce : Bytes
user_secret_encryption_nonce = replicate 12 0

module _ (C : Cipher) where
  unfoldable pub encrypt {ℓ} : {E : Type ℓ} → Bytes → Bytes → Outcome E Bytes
  unfolding padded_user_secret
  encrypt secret encryption_key = do
    padded_secret ← padded_user_secret secret
    ciphertext ← unwrap (C.encrypt encryption_key user_secret_encryption_nonce padded_secret)
    unwrap (secret_bytes_array 145 ciphertext)

  unfoldable pub decrypt {ℓ} : {E : Type ℓ} → Bytes → Bytes → Outcome E Bytes
  unfolding unpadded_user_secret
  decrypt encrypted_secret encryption_key = do
    plaintext ← unwrap (C.decrypt encryption_key user_secret_encryption_nonce encrypted_secret)
    padded_secret ← unwrap (secret_bytes_array 129 plaintext)
    unpadded_user_secret padded_secret
