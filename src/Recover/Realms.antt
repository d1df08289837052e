-- ===== src/Recover/Realms.antt =====
-- rust/sdk/src/recover.rs: what each phase makes of one realm's answer.
use juicebox_sdk.Prelude.{
  ℕ, ◌+◌, ◌-◌, ◌%◌, Bytes, Outcome, ok, err, panic, ◌>>=◌, ◌>>◌, map_err, ok_or, u16_mod,
}
use juicebox_sdk.Curve.{ScalarField}
use juicebox_sdk.Curve.Scalars.{scalar_secret}
use juicebox_sdk.Crypto.{Crypto}
use juicebox_sdk.Realm.{Realm}
use juicebox_sdk.Configuration.{Configuration, share_index}
use juicebox_sdk.Api.{
  SecretsResponse, RequestError, recover1_response, recover2_response, recover3_response,
  Recover2Ok, recover1_ok, recover1_not_registered, recover1_no_guesses, recover2_ok,
  recover2_version_mismatch, recover2_not_registered, recover2_no_guesses, recover3_ok,
  recover3_version_mismatch, recover3_not_registered, recover3_bad_unlock_key_tag,
  recover3_no_guesses,
}
use juicebox_sdk.Sharing.{Share}
use juicebox_sdk.Oprf.{PrecompressedPoint, verify_proof}
use juicebox_sdk.Signing.{verify}
use juicebox_sdk.Recover.Errors.{
  RecoverError, invalid_pin, not_registered, recover_assertion, recover_error,
}

module _ (F : ScalarField) (K : Crypto F) where
  unfoldable pub recover1_result :
      Realm → Outcome RequestError (SecretsResponse F K) → Outcome RecoverError (Bytes × Realm)
  recover1_result realm (err e) = err (recover_error e)
  recover1_result realm (ok (recover1_response (recover1_ok version))) = ok (version, realm)
  recover1_result realm (ok (recover1_response recover1_not_registered)) = err not_registered
  recover1_result realm (ok (recover1_response recover1_no_guesses)) = err (invalid_pin 0)
  recover1_result realm (ok _) = err recover_assertion
  recover1_result realm panic = panic

  -- The tuple that the second phase gives for one realm.
  pub record Recover2Result : Type 0 where
    pub verifying_key : Bytes
    pub share : Share F K.group.points
    pub commitment : Bytes
    pub guesses_remaining : ℕ

  -- The subtraction of two `u16` wraps around, as in a release build.
  abbrev pub checked_answer :
      Configuration
      → Realm
      → PrecompressedPoint F K.group
      → Recover2Ok F K
      → Outcome RecoverError Recover2Result
  checked_answer configuration realm blinded_input r = do
    let guesses_remaining = (r.num_guesses + u16_mod - r.guess_count) % u16_mod
    map_err (λ _. recover_assertion) (verify F K r.oprf_signed_public_key realm.id)
    map_err (λ _. recover_assertion)
        (verify_proof F K.group blinded_input r.oprf_blinded_result
          r.oprf_signed_public_key.public_key r.oprf_proof)
    index ← ok_or recover_assertion (share_index configuration realm.id)
    ok (record {
      verifying_key = r.oprf_signed_public_key.verifying_key;
      share = record { index = index; secret = r.oprf_blinded_result.uncompressed };
      commitment = r.unlock_key_commitment;
      guesses_remaining = guesses_remaining;
    })

  unfoldable pub recover2_result :
      Configuration
      → Realm
      → PrecompressedPoint F K.group
      → Outcome RequestError (SecretsResponse F K)
      → Outcome RecoverError Recover2Result
  recover2_result configuration realm blinded_input (err e) = err (recover_error e)
  recover2_result configuration realm blinded_input (ok (recover2_response (recover2_ok r))) =
      checked_answer configuration realm blinded_input r
  recover2_result configuration realm blinded_input
        (ok (recover2_response recover2_version_mismatch)) =
      err recover_assertion
  recover2_result configuration realm blinded_input
        (ok (recover2_response recover2_not_registered)) =
      err not_registered
  recover2_result configuration realm blinded_input (ok (recover2_response recover2_no_guesses)) =
      err (invalid_pin 0)
  recover2_result configuration realm blinded_input (ok _) = err recover_assertion
  recover2_result configuration realm blinded_input panic = panic

  -- The tuple that the third phase gives for one realm.
  pub record Recover3Result : Type 0 where
    pub share : Share F (scalar_secret F)
    pub encrypted_secret : Bytes
    pub commitment : Bytes
    pub realm : Realm

  unfoldable pub recover3_result :
      Configuration
      → Realm
      → Outcome RequestError (SecretsResponse F K)
      → Outcome RecoverError Recover3Result
  recover3_result configuration realm (err e) = err (recover_error e)
  recover3_result configuration realm (ok (recover3_response (recover3_ok r))) = do
    index ← ok_or recover_assertion (share_index configuration realm.id)
    ok (record {
      share = record { index = index; secret = r.encryption_key_scalar_share };
      encrypted_secret = r.encrypted_secret;
      commitment = r.encrypted_secret_commitment;
      realm = realm;
    })
  recover3_result configuration realm (ok (recover3_response recover3_not_registered)) =
      err not_registered
  recover3_result configuration realm (ok (recover3_response recover3_no_guesses)) =
      err (invalid_pin 0)
  recover3_result configuration realm
        (ok (recover3_response (recover3_bad_unlock_key_tag guesses_remaining))) =
      err (invalid_pin guesses_remaining)
  recover3_result configuration realm (ok (recover3_response recover3_version_mismatch)) =
      err recover_assertion
  recover3_result configuration realm (ok _) = err recover_assertion
  recover3_result configuration realm panic = panic
