-- ===== src/Recover/Registered.antt =====
-- Recovery, rust/sdk/src/recover.rs, after registration, rust/sdk/src/register.rs, with the same PIN.
use juicebox_sdk.Prelude.{
  Option, some, ℕ, ◌<◌, ◌≡◌, ◌≢◌, refl, sym, ap, ◌∙◌, List, [], ◌∷◌, Bytes, Outcome, ok,
  ok_injective, length, All,
}
use juicebox_sdk.Curve.{ScalarField}
use juicebox_sdk.Crypto.{Crypto}
use juicebox_sdk.Realm.{Realm}
use juicebox_sdk.Configuration.{Configuration}
use juicebox_sdk.Configuration.Accepted.{IsAccepted}
use juicebox_sdk.Api.{Register2Request, Policy}
use juicebox_sdk.Secret.{user_secret, decrypt}
use juicebox_sdk.Secret.Roundtrip.{decrypt-encrypt}
use juicebox_sdk.Register.{prepared_requests}
use juicebox_sdk.Register as Register
use juicebox_sdk.Register.Errors.{RegisterError}
use juicebox_sdk.Register.Recast.{Casts-prepared_requests}
use juicebox_sdk.Register.Prepared.{registration, prepared_requests-AreStored}
use juicebox_sdk.Recover.{
  Environment, perform_recover_with_configuration, recover_from, next_attempt, perform_recover,
}
use juicebox_sdk.Recover.Errors.{RecoverError}
use juicebox_sdk.Recover.Honest.{IsHonest}
use juicebox_sdk.Recover.Honest.Versions.{phase1-honest}
use juicebox_sdk.Recover.Honest.Pins.{phase2-honest}
use juicebox_sdk.Recover.Honest.Scalars.{phase3-honest}
use juicebox_sdk.Register.{Registration}
use juicebox_sdk.Register.Stored.{AreStored}
use juicebox_sdk.Oprf.{unoblivious_evaluate}
use juicebox_sdk.Keys.{pin_hash, derive_unlock_key_and_commitment, user_secret_encryption_key}

module _ (F : ScalarField) (K : Crypto F) where
  module _ (env : Environment F K) (attempt : ℕ) (c : Configuration) (reg : Registration F K)
      (verifying_key : Bytes) (key scalar : F.Scalar)
      (key_polynomial scalar_polynomial : ℕ → F.Scalar)
      (requests : List (Realm × Register2Request F K)) (nonce : Realm → F.Scalar)
      (num_guesses guess_count : Realm → ℕ) (accepted : IsAccepted c)
      (stored : AreStored F K c reg verifying_key key scalar key_polynomial scalar_polynomial
        requests)
      (honest : All (IsHonest F K env attempt nonce num_guesses guess_count) requests) where
    -- Recovery from honest realms that hold what registration made.
    recover-stored :
        (pin info access_key seed encryption_key secret : Bytes)
        → env.random attempt ≢ F.zero
        → length c.realms < F.order
        → ◌≡◌ {A = Outcome RecoverError (Option (Bytes × Bytes))}
            (pin_hash F K pin c.pin_hashing_mode reg.version info)
            (ok (some (access_key, seed)))
        → derive_unlock_key_and_commitment F K (unoblivious_evaluate F K.group key access_key)
          ≡ (reg.unlock_key, reg.unlock_key_commitment)
        → ◌≡◌ {A = Outcome RecoverError Bytes}
            (user_secret_encryption_key F K seed scalar)
            (ok encryption_key)
        → ◌≡◌ {A = Outcome RecoverError Bytes}
            (decrypt K.cipher reg.encrypted_secret encryption_key)
            (ok secret)
        → perform_recover_with_configuration F K env attempt pin info c ≡ ok secret
    unfolding perform_recover_with_configuration
    recover-stored pin info access_key seed encryption_key secret nz small hashed derived keyed
          opened =
        let one =
          phase1-honest F K env attempt c reg verifying_key key scalar key_polynomial
            scalar_polynomial requests nonce num_guesses guess_count accepted stored honest in
        let two =
          phase2-honest F K env attempt c reg verifying_key key scalar key_polynomial
            scalar_polynomial requests nonce num_guesses guess_count accepted stored honest
            access_key one.0 nz small one.2 derived in
        let three =
          phase3-honest F K env attempt c reg verifying_key key scalar key_polynomial
            scalar_polynomial requests nonce num_guesses guess_count accepted stored honest one.0
            small one.2 in
        rw one.1 (rw hashed (rw two (rw three (rw keyed opened))))

  recover-prepared :
      (registering : Register.Environment F K) (env : Environment F K) (c : Configuration)
      (pin value secret info : Bytes) (policy : Policy F K)
      (requests : List (Realm × Register2Request F K)) (nonce : Realm → F.Scalar)
      (num_guesses guess_count : Realm → ℕ)
      → IsAccepted c
      → length c.realms < F.order
      → ◌≡◌ {A = Outcome RecoverError Bytes} (user_secret value) (ok secret)
      → ◌≡◌ {A = Outcome RegisterError (List (Realm × Register2Request F K))}
          (prepared_requests F K registering c pin secret info policy)
          (ok requests)
      → All (IsHonest F K env 0 nonce num_guesses guess_count) requests
      → env.random 0 ≢ F.zero
      → perform_recover_with_configuration F K env 0 pin info c ≡ ok secret
  recover-prepared registering env c pin value secret info policy requests nonce num_guesses
        guess_count accepted small made prepared honest nz =
      let p =
        prepared_requests-AreStored F K registering c pin secret info policy requests accepted (
          Casts-prepared_requests RegisterError RecoverError F K registering c pin secret info
            policy requests prepared) in
      let sealed = decrypt-encrypt K.cipher {E = RecoverError} value secret p.2 made in
      let same = ok_injective (sym sealed.1 ∙ p.6) in
      recover-stored env 0 c (registration F K registering p.0 p.3 policy)
        (K.verifying_key_bytes registering.signing_key) registering.private_key
        registering.encryption_key_scalar registering.key_polynomial registering.scalar_polynomial
        requests nonce num_guesses guess_count accepted p.7 honest pin info p.0 p.1 p.2 secret nz
        small p.4 refl p.5 (ap (λ e. decrypt K.cipher e p.2) (sym same) ∙ sealed.3)

  -- With an accepted configuration that has fewer realms than there are scalars, a secret of at most
  -- 128 bytes that registration prepared for it is recovered with the same PIN and user info, whatever
  -- configurations were used before, if the realms hold the prepared requests and answer each phase of
  -- the first attempt from what they hold, in any order, and the random scalar of that attempt is not
  -- zero.
  pub perform_recover-prepared :
      (registering : Register.Environment F K) (env : Environment F K) (c : Configuration)
      (previous : List Configuration) (pin value secret info : Bytes) (policy : Policy F K)
      (requests : List (Realm × Register2Request F K)) (nonce : Realm → F.Scalar)
      (num_guesses guess_count : Realm → ℕ)
      → IsAccepted c
      → length c.realms < F.order
      → ◌≡◌ {A = Outcome RecoverError Bytes} (user_secret value) (ok secret)
      → ◌≡◌ {A = Outcome RegisterError (List (Realm × Register2Request F K))}
          (prepared_requests F K registering c pin secret info policy)
          (ok requests)
      → All (IsHonest F K env 0 nonce num_guesses guess_count) requests
      → env.random 0 ≢ F.zero
      → perform_recover F K env c previous pin info ≡ ok secret
  unfolding perform_recover recover_from
  perform_recover-prepared registering env c [] pin value secret info policy requests nonce
        num_guesses guess_count accepted small made prepared honest nz =
      recover-prepared registering env c pin value secret info policy requests nonce num_guesses
        guess_count accepted small made prepared honest nz
  perform_recover-prepared registering env c (next ∷ previous) pin value secret info policy requests
        nonce num_guesses guess_count accepted small made prepared honest nz =
      ap (λ r. next_attempt F K r (recover_from F K env pin info 1 next previous))
        (recover-prepared registering env c pin value secret info policy requests nonce num_guesses
          guess_count accepted small made prepared honest nz)
