-- ===== src/Register/Prepared.antt =====
-- What rust/sdk/src/register.rs makes between its two phases.
use juicebox_sdk.Prelude.{
  ℕ, ◌<◌, ◌≡◌, sym, ap, subst, ◌∙◌, List, map, Bytes, Option, some, Outcome, ok, >>=-eq-ok,
  ok_injective, unwrap, unwrap-eq-ok, length, lt→ltb, u32_mod,
}
use juicebox_sdk.Curve.{ScalarField}
use juicebox_sdk.Curve.Scalars.{scalar_secret}
use juicebox_sdk.Crypto.{Crypto}
use juicebox_sdk.Realm.{Realm}
use juicebox_sdk.Configuration.{Configuration, share_count}
use juicebox_sdk.Configuration.Accepted.{IsAccepted}
use juicebox_sdk.Api.{Register2Request, Policy}
use juicebox_sdk.Sharing.{Share, create_shares}
use juicebox_sdk.Oprf.{unoblivious_evaluate}
use juicebox_sdk.Keys.{pin_hash, derive_unlock_key_and_commitment, user_secret_encryption_key}
use juicebox_sdk.Secret.{encrypt}
use juicebox_sdk.Recover.Errors.{RecoverError}
use juicebox_sdk.Register.{Environment, Registration, signed_public_keys, prepared_requests}
use juicebox_sdk.Register.Stored.{AreStored}
use juicebox_sdk.Register.Placed.{stored-requests}

share_count-ok :
    {E : Type 0} (c : Configuration) (count : ℕ)
    → length c.realms < u32_mod
    → ◌≡◌ {A = Outcome E ℕ} (share_count c) (ok count)
    → length c.realms ≡ count
unfolding share_count
share_count-ok c count small h =
    let h' = rw (lt→ltb (length c.realms) u32_mod small) at h in ok_injective h'

module _ (F : ScalarField) (K : Crypto F) where
  -- The registration whose requests these are.
  abbrev pub registration : Environment F K → Bytes → Bytes → Policy F K → Registration F K
  registration env access_key encrypted_secret policy =
      let derived =
        derive_unlock_key_and_commitment F K
          (unoblivious_evaluate F K.group env.private_key access_key) in
      record {
        version = env.version;
        unlock_key = derived.0;
        unlock_key_commitment = derived.1;
        encrypted_secret = encrypted_secret;
        policy = policy;
      }

  -- The hashed PIN, the encryption key and the encrypted secret of a preparation, and what the requests
  -- hold.
  pub prepared_requests-AreStored :
      (env : Environment F K) (c : Configuration) (pin secret info : Bytes) (policy : Policy F K)
      (requests : List (Realm × Register2Request F K))
      → IsAccepted c
      → ◌≡◌ {A = Outcome RecoverError (List (Realm × Register2Request F K))}
          (prepared_requests F K env c pin secret info policy)
          (ok requests)
      → (access_key : Bytes) × (seed : Bytes) × (encryption_key : Bytes)
        × (encrypted_secret : Bytes) × ◌≡◌ {A = Outcome RecoverError (Option (Bytes × Bytes))}
            (pin_hash F K pin c.pin_hashing_mode env.version info)
            (ok (some (access_key, seed)))
        × ◌≡◌ {A = Outcome RecoverError Bytes}
            (user_secret_encryption_key F K seed env.encryption_key_scalar)
            (ok encryption_key)
        × ◌≡◌ {A = Outcome RecoverError Bytes}
            (encrypt K.cipher secret encryption_key)
            (ok encrypted_secret)
        × AreStored F K c
            (registration env access_key encrypted_secret policy)
            (K.verifying_key_bytes env.signing_key)
            env.private_key
            env.encryption_key_scalar
            env.key_polynomial
            env.scalar_polynomial
            requests
  unfolding prepared_requests
  prepared_requests-AreStored env c pin secret info policy requests accepted h =
      let hashed =
        >>=-eq-ok {E = RecoverError} (pin_hash F K pin c.pin_hashing_mode env.version info) _ h in
      let keys = >>=-eq-ok {E = RecoverError} (unwrap hashed.0) _ hashed.2 in
      let count = >>=-eq-ok {E = RecoverError} (share_count c) _ keys.2 in
      let key_shares =
        >>=-eq-ok {E = RecoverError}
          (create_shares F (scalar_secret F) env.private_key c.recover_threshold count.0
            env.key_polynomial)
          _ count.2 in
      let signed =
        >>=-eq-ok {E = RecoverError}
          (signed_public_keys F K env.signing_key (map (λ s. s.secret) key_shares.0) c.realms) _
          key_shares.2 in
      let scalar_shares =
        >>=-eq-ok {E = RecoverError}
          (create_shares F (scalar_secret F) env.encryption_key_scalar c.recover_threshold count.0
            env.scalar_polynomial)
          _ signed.2 in
      let encryption_key =
        >>=-eq-ok {E = RecoverError}
          (user_secret_encryption_key F K keys.0.1 env.encryption_key_scalar) _ scalar_shares.2 in
      let encrypted =
        >>=-eq-ok {E = RecoverError} (encrypt K.cipher secret encryption_key.0) _
          encryption_key.2 in
      let same = share_count-ok {E = RecoverError} c count.0 accepted.fits count.1 in
      let created =
        λ (key : F.Scalar) (polynomial : ℕ → F.Scalar) (shares : List (Share F (scalar_secret F)))
            (n : ℕ).
          ◌≡◌ {A = Outcome RecoverError (List (Share F (scalar_secret F)))}
            (create_shares F (scalar_secret F) key c.recover_threshold n polynomial) (ok shares) in
      (
        keys.0.0,
        keys.0.1,
        encryption_key.0,
        encrypted.0,
        hashed.1 ∙ ap ok (unwrap-eq-ok RecoverError hashed.0 keys.1),
        encryption_key.1,
        encrypted.1,
        stored-requests F K c (registration env keys.0.0 encrypted.0 policy) env.signing_key
            env.private_key env.encryption_key_scalar env.key_polynomial env.scalar_polynomial
            key_shares.0 scalar_shares.0 signed.0 requests accepted
            (subst (created env.private_key env.key_polynomial key_shares.0) (sym same)
              key_shares.1)
            (subst (created env.encryption_key_scalar env.scalar_polynomial scalar_shares.0)
              (sym same) scalar_shares.1)
            signed.1 encrypted.2,
      )
