-- ===== src/Recover.antt =====
-- rust/sdk/src/recover.rs: the three phases of recovery, with a configuration and with those before
-- it. What the realms answer, in which order the answers arrive, and the random scalar are given by
-- the environment, for each attempt with a configuration.
pub mod Errors
pub mod Realms
pub mod Attempts
pub mod Agreement
pub mod Commitments
pub mod Unanimous
pub mod Honest
pub mod Registered
pub mod Guesses
use mathlib.Core.List.{foldl}
use juicebox_sdk.Prelude.{
  ℕ, suc, ◌+◌, Bool, true, false, List, [], ◌∷◌, map, Permᴰ, Bytes, Option, none, some, Outcome, ok,
  err, panic, ◌>>=◌, ◌>>◌, map_err, ok_or, unwrap, bytes_eq, bytes_discrete, pairs_discrete,
  if◌then◌else◌, ltb,
}
use juicebox_sdk.Curve.{ScalarField}
use juicebox_sdk.Curve.Scalars.{scalar_secret}
use juicebox_sdk.Crypto.{Crypto}
use juicebox_sdk.Realm.{Realm}
use juicebox_sdk.Configuration.{Configuration}
use juicebox_sdk.Api.{SecretsRequest, SecretsResponse, RequestError, recover1, recover2, recover3}
use juicebox_sdk.Join.{join_at_least_threshold}
use juicebox_sdk.Consensus.{consensus}
use juicebox_sdk.Sharing.{Share, recover_secret}
use juicebox_sdk.Oprf.{PrecompressedPoint, precompressed, start, finalize}
use juicebox_sdk.Keys.{
  pin_hash, derive_unlock_key_and_commitment, unlock_key_tag, encrypted_user_secret_commitment,
  user_secret_encryption_key,
}
use juicebox_sdk.Secret.{decrypt}
use juicebox_sdk.Recover.Errors.{
  RecoverError, invalid_pin, not_registered, recover_assertion, RecoverError-Ord,
}
use juicebox_sdk.Recover.Realms.{
  Recover2Result, Recover3Result, recover1_result, recover2_result, recover3_result,
}

module _ (F : ScalarField) (K : Crypto F) where
  pub record Environment : Type 1 where
    pub make_request : ℕ → Realm → SecretsRequest F K → Outcome RequestError (SecretsResponse F K)
    -- The order in which the futures of a phase complete.
    pub arrival : ℕ → ℕ → {A : Type 0} → List A → List A
    pub arrival-Permᴰ :
        (attempt phase : ℕ) {A : Type 0} (futures : List A)
        → Permᴰ (arrival attempt phase futures) futures
    pub random : ℕ → F.Scalar

  -- `Iterator::min` of the guesses that remain.
  abbrev pub least : List ℕ → Option ℕ
  least [] = none
  least (g ∷ gs) = some (foldl (λ best next. if ltb next best then next else best) g gs)

  -- The commitment and verifying key, under which the share and the guesses are gathered.
  abbrev pub gathered : Recover2Result F K → (Bytes × Bytes) × (Share F K.group.points × ℕ)
  gathered a = ((a.commitment, a.verifying_key), (a.share, a.guesses_remaining))

  -- The unlock key, if its commitment is the realms' one.
  abbrev pub unlocked : Bytes → Bytes × Bytes → List ℕ → Outcome RecoverError Bytes
  unlocked unlock_key_commitment derived all_guesses_remaining =
      if bytes_eq unlock_key_commitment derived.1
      then ok derived.0
      else (unwrap (least all_guesses_remaining) >>= λ guesses_remaining.
          err (invalid_pin guesses_remaining))

  module _ (env : Environment) (attempt : ℕ) where
    -- The first phase: a version and the realms that agree on it.
    unfoldable pub phase1 : Configuration → Outcome RecoverError (Bytes × List Realm)
    phase1 configuration = do
      answers ←
          join_at_least_threshold
            (env.arrival attempt 1 (
              map (λ realm. recover1_result F K realm (env.make_request attempt realm recover1))
                configuration.realms))
            configuration.recover_threshold
      chosen ← consensus bytes_discrete configuration.recover_threshold answers
      ok_or not_registered chosen

    -- The second phase: the unlock key.
    unfoldable pub phase2 : Configuration → Bytes → List Realm → Bytes → Outcome RecoverError Bytes
    phase2 configuration version realms access_key = do
      let started = start F K.group access_key (env.random attempt)
      answers ←
          join_at_least_threshold
            (env.arrival attempt 2 (
              map
                (λ realm. recover2_result F K configuration realm started.1 (
                  env.make_request attempt realm
                    (recover2 (record { version = version; oprf_blinded_input = started.1 }))))
                realms))
            configuration.recover_threshold
      chosen ← consensus pairs_discrete configuration.recover_threshold (map gathered answers)
      group ← ok_or recover_assertion chosen
      blinded_result ←
          map_err (λ _. recover_assertion)
            (recover_secret F K.group.points (map (λ v. v.0) group.1))
      let oprf_result =
          finalize F K.group access_key started.0 (precompressed F K.group blinded_result)
      unlocked group.0.0 (derive_unlock_key_and_commitment F K oprf_result) (map (λ v. v.1) group.1)

    -- The loop over the answers of the third phase leaves out the shares whose commitment differs.
    abbrev pub usable_shares :
        Bytes
        → List (Recover3Result F K)
        → Outcome RecoverError (List (Bytes × Share F (scalar_secret F)))
    usable_shares unlock_key [] = ok []
    usable_shares unlock_key (a ∷ answers) = do
      our_commitment ←
          encrypted_user_secret_commitment F K unlock_key a.realm.id a.share.secret
            a.encrypted_secret
      rest ← usable_shares unlock_key answers
      ok (
          if bytes_eq our_commitment a.commitment
          then (a.encrypted_secret, a.share) ∷ rest
          else rest)

    -- The third phase: the encrypted secret and the scalar of its key.
    unfoldable pub phase3 :
        Configuration → Bytes → List Realm → Bytes → Outcome RecoverError (Bytes × F.Scalar)
    phase3 configuration version realms unlock_key = do
      answers ←
          join_at_least_threshold
            (env.arrival attempt 3 (
              map
                (λ realm. unlock_key_tag F K unlock_key realm.id >>= λ tag.
                  recover3_result F K configuration realm (
                    env.make_request attempt realm
                      (recover3 (record { version = version; unlock_key_tag = tag }))))
                realms))
            configuration.recover_threshold
      usable ← usable_shares unlock_key answers
      chosen ← consensus bytes_discrete configuration.recover_threshold usable
      group ← ok_or recover_assertion chosen
      scalar ← map_err (λ _. recover_assertion) (recover_secret F (scalar_secret F) group.1)
      ok (group.0, scalar)

    unfoldable pub perform_recover_with_configuration :
        Bytes → Bytes → Configuration → Outcome RecoverError Bytes
    unfolding phase1 phase2 phase3
    perform_recover_with_configuration pin info configuration = do
      found ← phase1 configuration
      hashed ← pin_hash F K pin configuration.pin_hashing_mode found.0 info
      keys ← unwrap hashed
      unlock_key ← phase2 configuration found.0 found.1 keys.0
      recovered ← phase3 configuration found.0 found.1 unlock_key
      encryption_key ← user_secret_encryption_key F K keys.1 recovered.1
      decrypt K.cipher recovered.0 encryption_key

  -- The result of an attempt ends the loop, unless it is `not_registered` and there is a previous
  -- configuration left.
  abbrev pub next_attempt :
      Outcome RecoverError Bytes → Outcome RecoverError Bytes → Outcome RecoverError Bytes
  next_attempt (err not_registered) continued = continued
  next_attempt result continued = result

  unfoldable pub recover_from :
      Environment
      → Bytes
      → Bytes
      → ℕ
      → Configuration
      → List Configuration
      → Outcome RecoverError Bytes
  unfolding perform_recover_with_configuration
  recover_from env pin info attempt configuration [] =
      perform_recover_with_configuration env attempt pin info configuration
  recover_from env pin info attempt configuration (next ∷ previous) =
      next_attempt (perform_recover_with_configuration env attempt pin info configuration)
        (recover_from env pin info (suc attempt) next previous)

  unfoldable pub perform_recover :
      Environment → Configuration → List Configuration → Bytes → Bytes → Outcome RecoverError Bytes
  unfolding recover_from
  perform_recover env configuration previous_configurations pin info =
      recover_from env pin info 0 configuration previous_configurations
