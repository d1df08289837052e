-- ===== src/Crypto.antt =====
-- The cryptography of the crates that the SDK calls and that are not part of the repository: the
-- ristretto group, the cipher, the keyed hashes, the password hash and the signatures.
use juicebox_sdk.Prelude.{ℕ, ◌≡◌, Bool, true, Bytes, Option, some, length}
use juicebox_sdk.Curve.{ScalarField, Group}
use juicebox_sdk.Secret.{Cipher}

pub record Crypto (F : ScalarField) : Type 1 where
  pub group : Group F
  pub cipher : Cipher
  -- `Scalar::as_bytes`
  pub scalar_bytes : F.Scalar → Bytes
  -- `Blake2sMac<U16>` and `Blake2sMac256`, of a key and a message.
  pub mac16 : Bytes → Bytes → Bytes
  pub mac32 : Bytes → Bytes → Bytes
  -- `ParamsBuilder` with its three costs, and `hash_password_into` an output of 64 bytes, from the
  -- parameters, the password and the salt.
  pub Params : Type 0
  pub params : ℕ → ℕ → ℕ → Option Params
  pub min_m_cost : ℕ
  pub min_t_cost : ℕ
  pub min_p_cost : ℕ
  pub argon2id : Params → Bytes → Bytes → Option Bytes
  pub length-argon2id :
      (p : Params) (password salt : Bytes) {hash : Bytes}
      → argon2id p password salt ≡ some hash
      → length hash ≡ 64
  -- Ed25519.
  pub SigningKey : Type 0
  pub VerifyingKey : Type 0
  pub sign : SigningKey → Bytes → Bytes
  pub verifying_key_bytes : SigningKey → Bytes
  pub decompress_verifying_key : Bytes → Option VerifyingKey
  pub verify_strict : VerifyingKey → Bytes → Bytes → Bool
  pub decompress_verifying_key-signer :
      (key : SigningKey)
      → (v : VerifyingKey) × (decompress_verifying_key (verifying_key_bytes key) ≡ some v)
        × ((message : Bytes) → verify_strict v message (sign key message) ≡ true)
