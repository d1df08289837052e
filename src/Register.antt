-- ===== src/Register.antt =====
-- rust/sdk/src/register.rs: the two phases of registration. The realms' answers, the order in which
-- they arrive and all random values are given by the environment.
pub mod Errors
pub mod Requests
pub mod Stored
pub mod Placed
pub mod Prepared
pub mod Recast
pub mod Confirmed
use juicebox_sdk.Prelude.{
  ℕ, List, [], ◌∷◌, map, Permᴰ, Bytes, Outcome, ok, err, panic, ◌>>=◌, ◌>>◌, unwrap,
}
use juicebox_sdk.Curve.{ScalarField}
use juicebox_sdk.Curve.Scalars.{scalar_secret}
use juicebox_sdk.Crypto.{Crypto}
use juicebox_sdk.Realm.{Realm}
use juicebox_sdk.Configuration.{Configuration, share_count}
use juicebox_sdk.Api.{
  SecretsRequest, SecretsResponse, RequestError, Register2Request, Policy, register1, register2,
  register1_response, register2_response, register1_ok, register2_ok,
}
use juicebox_sdk.Join.{join_at_least_threshold}
use juicebox_sdk.Sharing.{create_shares}
use juicebox_sdk.Oprf.{to_public_key, unoblivious_evaluate}
use juicebox_sdk.Keys.{
  pin_hash, derive_unlock_key_and_commitment, unlock_key_tag, encrypted_user_secret_commitment,
  user_secret_encryption_key,
}
use juicebox_sdk.Signing.{OprfSignedPublicKey, sign_public_key}
use juicebox_sdk.Secret.{encrypt}
use juicebox_sdk.Register.Errors.{
  RegisterError, register_error, register_assertion, RegisterError-Ord,
}

module _ (F : ScalarField) (K : Crypto F) where
  pub record Environment : Type 1 where
    pub make_request : Realm → SecretsRequest F K → Outcome RequestError (SecretsResponse F K)
    pub arrival : ℕ → {A : Type 0} → List A → List A
    pub arrival-Permᴰ :
        (phase : ℕ) {A : Type 0} (futures : List A) → Permᴰ (arrival phase futures) futures
    pub version : Bytes
    pub private_key : F.Scalar
    pub key_polynomial : ℕ → F.Scalar
    pub signing_key : K.SigningKey
    pub encryption_key_scalar : F.Scalar
    pub scalar_polynomial : ℕ → F.Scalar

  unfoldable pub register1_result :
      Outcome RequestError (SecretsResponse F K) → Outcome RegisterError (Unit {0})
  register1_result (err e) = err (register_error e)
  register1_result (ok (register1_response register1_ok)) = ok tt
  register1_result (ok _) = err register_assertion
  register1_result panic = panic

  unfoldable pub register2_result :
      Outcome RequestError (SecretsResponse F K) → Outcome RegisterError (Unit {0})
  register2_result (err e) = err (register_error e)
  register2_result (ok (register2_response register2_ok)) = ok tt
  register2_result (ok _) = err register_assertion
  register2_result panic = panic

  -- The public keys of the shares, signed for the realms.
  unfoldable pub signed_public_keys :
      {E : Type 0}
      → K.SigningKey
      → List F.Scalar
      → List Realm
      → Outcome E (List OprfSignedPublicKey)
  signed_public_keys signing_key (share ∷ shares) (realm ∷ realms) = do
    key ← sign_public_key F K (to_public_key F K.group share) realm.id signing_key
    keys ← signed_public_keys signing_key shares realms
    ok (key ∷ keys)
  signed_public_keys signing_key _ _ = ok []

  -- What all requests of the second phase share.
  pub record Registration : Type 0 where
    pub version : Bytes
    pub unlock_key : Bytes
    pub unlock_key_commitment : Bytes
    pub encrypted_secret : Bytes
    pub policy : Policy F K

  abbrev pub request_for :
      Registration
      → F.Scalar
      → OprfSignedPublicKey
      → Bytes
      → F.Scalar
      → Bytes
      → Register2Request F K
  request_for c key_share signed tag scalar_share commitment = record {
    version = c.version;
    oprf_private_key = key_share;
    oprf_signed_public_key = signed;
    unlock_key_commitment = c.unlock_key_commitment;
    unlock_key_tag = tag;
    encryption_key_scalar_share = scalar_share;
    encrypted_secret = c.encrypted_secret;
    encrypted_secret_commitment = commitment;
    policy = c.policy;
  }

  -- `zip4`, and the request for each realm.
  unfoldable pub register2_requests :
      {E : Type 0}
      → Registration
      → List Realm
      → List F.Scalar
      → List OprfSignedPublicKey
      → List F.Scalar
      → Outcome E (List (Realm × Register2Request F K))
  register2_requests c (realm ∷ realms) (key_share ∷ key_shares) (signed ∷ signeds)
        (scalar_share ∷ scalar_shares) =
      do
        tag ← unlock_key_tag F K c.unlock_key realm.id
        commitment ←
            encrypted_user_secret_commitment F K c.unlock_key realm.id scalar_share
              c.encrypted_secret
        rest ← register2_requests c realms key_shares signeds scalar_shares
        ok ((realm, request_for c key_share signed tag scalar_share commitment) ∷ rest)
  register2_requests c _ _ _ _ = ok []

  module _ (env : Environment) where
    -- What stands between the two phases.
    unfoldable pub prepared_requests :
        {E : Type 0}
        → Configuration
        → Bytes
        → Bytes
        → Bytes
        → Policy F K
        → Outcome E (List (Realm × Register2Request F K))
    unfolding signed_public_keys register2_requests
    prepared_requests configuration pin secret info policy = do
      hashed ← pin_hash F K pin configuration.pin_hashing_mode env.version info
      keys ← unwrap hashed
      count ← share_count configuration
      key_shares ←
          create_shares F (scalar_secret F) env.private_key configuration.recover_threshold count
            env.key_polynomial
      let private_key_shares = map (λ share. share.secret) key_shares
      signed ← signed_public_keys env.signing_key private_key_shares configuration.realms
      let oprf_result = unoblivious_evaluate F K.group env.private_key keys.0
      let derived = derive_unlock_key_and_commitment F K oprf_result
      scalar_shares ←
          create_shares F (scalar_secret F) env.encryption_key_scalar
            configuration.recover_threshold count env.scalar_polynomial
      encryption_key ← user_secret_encryption_key F K keys.1 env.encryption_key_scalar
      encrypted_secret ← encrypt K.cipher secret encryption_key
      register2_requests
          (record {
            version = env.version;
            unlock_key = derived.0;
            unlock_key_commitment = derived.1;
            encrypted_secret = encrypted_secret;
            policy = policy;
          })
          configuration.realms private_key_shares signed (map (λ share. share.secret) scalar_shares)

    unfoldable pub perform_register :
        Configuration → Bytes → Bytes → Bytes → Policy F K → Outcome RegisterError (Unit {0})
    unfolding prepared_requests register1_result register2_result
    perform_register configuration pin secret info policy = do
      join_at_least_threshold
            (env.arrival 1 (
              map (λ realm. register1_result (env.make_request realm register1))
                configuration.realms))
            configuration.register_threshold
          >>= λ _. ok tt
      requests ← prepared_requests configuration pin secret info policy
      join_at_least_threshold
            (env.arrival 2
              (map (λ r. register2_result (env.make_request r.0 (register2 r.1))) requests))
            configuration.register_threshold
          >>= λ _. ok tt
