-- ===== src/Recover/Guesses.antt =====
-- Recovery, rust/sdk/src/recover.rs, after registration, rust/sdk/src/register.rs, with a wrong PIN.
use juicebox_sdk.Prelude.{
  some_injective, ℕ, ◌<◌, ◌≡◌, ◌≢◌, refl, sym, ap, ◌∙◌, List, [], ◌∷◌, map, Bytes, Option, some,
  Outcome, ok, err, ok_injective, length, All,
}
use juicebox_sdk.Curve.{ScalarField}
use juicebox_sdk.Crypto.{Crypto}
use juicebox_sdk.Realm.{Realm}
use juicebox_sdk.Configuration.{Configuration}
use juicebox_sdk.Configuration.Accepted.{IsAccepted}
use juicebox_sdk.Api.{Register2Request, Policy}
use juicebox_sdk.Oprf.{unoblivious_evaluate}
use juicebox_sdk.Keys.{pin_hash, derive_unlock_key_and_commitment}
use juicebox_sdk.Register.{Registration, prepared_requests}
use juicebox_sdk.Register as Register
use juicebox_sdk.Register.Errors.{RegisterError}
use juicebox_sdk.Register.Recast.{Casts-prepared_requests}
use juicebox_sdk.Register.Prepared.{registration, prepared_requests-AreStored}
use juicebox_sdk.Register.Stored.{AreStored}
use juicebox_sdk.Recover.{
  Environment, perform_recover_with_configuration, recover_from, next_attempt, perform_recover,
}
use juicebox_sdk.Recover.Errors.{RecoverError, invalid_pin}
use juicebox_sdk.Recover.Honest.{remaining, IsHonest}
use juicebox_sdk.Recover.Honest.Versions.{phase1-honest}
use juicebox_sdk.Recover.Honest.Pins.{IsLeast, phase2-differs}

module _ (F : ScalarField) (K : Crypto F) where
  module _ (env : Environment F K) (attempt : ℕ) (c : Configuration) (reg : Registration F K)
      (verifying_key : Bytes) (key scalar : F.Scalar)
      (key_polynomial scalar_polynomial : ℕ → F.Scalar)
      (requests : List (Realm × Register2Request F K)) (nonce : Realm → F.Scalar)
      (num_guesses guess_count : Realm → ℕ) (accepted : IsAccepted c)
      (stored : AreStored F K c reg verifying_key key scalar key_polynomial scalar_polynomial
        requests)
      (honest : All (IsHonest F K env attempt nonce num_guesses guess_count) requests) where
    recover-differs :
        (pin info access_key seed : Bytes)
        → env.random attempt ≢ F.zero
        → length c.realms < F.order
        → ◌≡◌ {A = Outcome RecoverError (Option (Bytes × Bytes))}
            (pin_hash F K pin c.pin_hashing_mode reg.version info)
            (ok (some (access_key, seed)))
        → (derive_unlock_key_and_commitment F K (unoblivious_evaluate F K.group key access_key)).1
          ≢ reg.unlock_key_commitment
        → (m : ℕ) × (perform_recover_with_configuration F K env attempt pin info c
            ≡ err (invalid_pin m))
          × IsLeast (map (λ r. remaining (num_guesses r.0) (guess_count r.0)) requests) m
    unfolding perform_recover_with_configuration
    recover-differs pin info access_key seed nz small hashed differs =
        let one =
          phase1-honest F K env attempt c reg verifying_key key scalar key_polynomial
            scalar_polynomial requests nonce num_guesses guess_count accepted stored honest in
        let two =
          phase2-differs F K env attempt c reg verifying_key key scalar key_polynomial
            scalar_polynomial requests nonce num_guesses guess_count accepted stored honest
            access_key one.0 nz small one.2 differs in
        (two.0, (rw one.1 (rw hashed (rw two.1 refl))), two.2)

  -- With an accepted configuration that has fewer realms than there are scalars, if the realms hold the
  -- requests that registration prepared with one PIN and answer each phase of the first attempt from
  -- what they hold, in any order, and the random scalar of that attempt is not zero, recovery with a PIN
  -- or user info that derives another commitment ends in InvalidPin with the least number of guesses
  -- that one of the realms leaves, whatever configurations were used before.
  pub perform_recover-wrong_pin :
      (registering : Register.Environment F K) (env : Environment F K) (c : Configuration)
      (previous : List Configuration) (pin wrong_pin secret info wrong_info : Bytes)
      (policy : Policy F K) (requests : List (Realm × Register2Request F K))
      (nonce : Realm → F.Scalar) (num_guesses guess_count : Realm → ℕ)
      (keys wrong_keys : Bytes × Bytes)
      → IsAccepted c
      → length c.realms < F.order
      → ◌≡◌ {A = Outcome RegisterError (List (Realm × Register2Request F K))}
          (prepared_requests F K registering c pin secret info policy)
          (ok requests)
      → All (IsHonest F K env 0 nonce num_guesses guess_count) requests
      → env.random 0 ≢ F.zero
      → ◌≡◌ {A = Outcome RecoverError (Option (Bytes × Bytes))}
          (pin_hash F K pin c.pin_hashing_mode registering.version info)
          (ok (some keys))
      → ◌≡◌ {A = Outcome RecoverError (Option (Bytes × Bytes))}
          (pin_hash F K wrong_pin c.pin_hashing_mode registering.version wrong_info)
          (ok (some wrong_keys))
      → (derive_unlock_key_and_commitment F K
          (unoblivious_evaluate F K.group registering.private_key wrong_keys.0)).1
        ≢ (derive_unlock_key_and_commitment F K
            (unoblivious_evaluate F K.group registering.private_key keys.0)).1
      → (m : ℕ) × (perform_recover F K env c previous wrong_pin wrong_info ≡ err (invalid_pin m))
        × IsLeast (map (λ r. remaining (num_guesses r.0) (guess_count r.0)) requests) m
  unfolding perform_recover recover_from
  perform_recover-wrong_pin registering env c previous pin wrong_pin secret info wrong_info policy
        requests nonce num_guesses guess_count keys wrong_keys accepted small prepared honest nz
        right wrong differs =
      let p =
        prepared_requests-AreStored F K registering c pin secret info policy requests accepted (
          Casts-prepared_requests RegisterError RecoverError F K registering c pin secret info
            policy requests prepared) in
      let same : p.0 ≡ keys.0 = ap (λ k. k.0) (some_injective (ok_injective (sym p.4 ∙ right))) in
      let commitment = λ (key : Bytes).
        (derive_unlock_key_and_commitment F K
          (unoblivious_evaluate F K.group registering.private_key key)).1 in
      let ended =
        recover-differs env 0 c (registration F K registering p.0 p.3 policy)
          (K.verifying_key_bytes registering.signing_key) registering.private_key
          registering.encryption_key_scalar registering.key_polynomial registering.scalar_polynomial
          requests nonce num_guesses guess_count accepted p.7 honest wrong_pin wrong_info
          wrong_keys.0 wrong_keys.1 nz small wrong (λ e. differs (e ∙ ap commitment same)) in
      (ended.0, first_attempt previous ended.1, ended.2)
    where
      first_attempt :
          {m : ℕ} (previous : List Configuration)
          → perform_recover_with_configuration F K env 0 wrong_pin wrong_info c
            ≡ err (invalid_pin m)
          → perform_recover F K env c previous wrong_pin wrong_info ≡ err (invalid_pin m)
      first_attempt [] h = h
      first_attempt (next ∷ rest) h =
          ap (λ r. next_attempt F K r (recover_from F K env wrong_pin wrong_info 1 next rest)) h
