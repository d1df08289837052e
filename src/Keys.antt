-- ===== src/Keys.antt =====
-- What is derived by hashing: rust/realm/api/src/types.rs (the tag and the commitment of a realm),
-- rust/sdk/src/types.rs (the unlock key, the encryption key) and rust/sdk/src/pin.rs (the PIN).
pub mod Unambiguous
use juicebox_sdk.Prelude.{
  ℕ, ◌*◌, List, [], ◌∷◌, ◌++◌, Bytes, bytes_of, Option, none, some, Outcome, ok, ◌>>=◌, length,
  take, drop,
}
use juicebox_sdk.Marshalling.{to_be4}
use juicebox_sdk.Curve.{ScalarField}
use juicebox_sdk.Realm.{RealmId, PinHashingMode, standard2019, fast_insecure}
use juicebox_sdk.Crypto.{Crypto}

-- Two calls of `chain_update`: the length of a field, and the field.
unfoldable pub fields : {E : Type 0} → List Bytes → Outcome E Bytes
fields [] = ok []
fields (field ∷ rest) = do
  size ← to_be4 (length field)
  others ← fields rest
  ok (size ++ (field ++ others))

module _ (F : ScalarField) (K : Crypto F) where
  -- `UnlockKeyTag::derive`
  unfoldable pub unlock_key_tag : {E : Type 0} → Bytes → RealmId → Outcome E Bytes
  unlock_key_tag unlock_key realm_id = do
    message ← fields (bytes_of "Unlock Key Tag" ∷ realm_id ∷ [])
    ok (K.mac16 unlock_key message)

  -- `EncryptedUserSecretCommitment::derive`
  unfoldable pub encrypted_user_secret_commitment :
      {E : Type 0} → Bytes → RealmId → F.Scalar → Bytes → Outcome E Bytes
  encrypted_user_secret_commitment unlock_key realm_id share encrypted_secret = do
    message ← fields (
        bytes_of "Encrypted User Secret Commitment"
        ∷ realm_id
        ∷ K.scalar_bytes share
        ∷ encrypted_secret
        ∷ [])
    ok (K.mac16 unlock_key message)

  -- `UserSecretEncryptionKey::derive`
  unfoldable pub user_secret_encryption_key : {E : Type 0} → Bytes → F.Scalar → Outcome E Bytes
  user_secret_encryption_key seed scalar = do
    message ← fields (bytes_of "User Secret Encryption Key" ∷ K.scalar_bytes scalar ∷ [])
    ok (K.mac32 seed message)

  -- The unlock key is the second half of the hash, the commitment the first.
  unfoldable pub derive_unlock_key_and_commitment : Bytes → Bytes × Bytes
  derive_unlock_key_and_commitment oprf_result =
      let digest = K.group.sha512 oprf_result in (drop 32 digest, take 32 digest)

  -- A `None` of `hash` stands inside the outcome. The access key comes first.
  unfoldable pub argon2 :
      {E : Type 0} → Bytes → K.Params → Bytes → Bytes → Outcome E (Option (Bytes × Bytes))
  argon2 pin params version info = do
    salt ← fields (version ∷ info ∷ [])
    ok (elim (K.argon2id params pin salt) [
      | none ↦ none
      | some hashed_pin ↦ some (take 32 hashed_pin, drop 32 hashed_pin)
    ])

  abbrev pub mode_params : PinHashingMode → Option K.Params
  mode_params standard2019 = K.params (1024 * 16) 32 1
  mode_params fast_insecure = K.params K.min_m_cost K.min_t_cost K.min_p_cost

  -- `Pin::hash`
  unfoldable pub pin_hash :
      {E : Type 0} → Bytes → PinHashingMode → Bytes → Bytes → Outcome E (Option (Bytes × Bytes))
  unfolding argon2
  pin_hash pin mode version info = elim (mode_params mode) [
    | none ↦ ok none
    | some params ↦ argon2 pin params version info
  ]
