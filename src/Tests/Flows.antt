-- ===== src/Tests/Flows.antt =====
-- Recovery, registration and deletion against realms that answer in one way.
use juicebox_sdk.Prelude.{
  Bytes, take, bytes_of, bytes_eq, ℕ, zero, suc, ◌≡◌, ◌≢◌, ◌↔◌, refl, List, [], ◌∷◌, Outcome, ok,
  err, All, arith, replicate,
}
use mathlib.Core.List.Permᴰ
use juicebox_sdk.Realm.{Realm}
use juicebox_sdk.Api.{
  SecretsRequest, SecretsResponse, RequestError, transient, recover1_response,
  recover1_not_registered, recover1_ok, Register2Request, delete_response, delete_ok,
}
use juicebox_sdk.Join.{join_at_least_threshold}
use juicebox_sdk.Recover.{
  Environment, usable_shares, phase1, perform_recover_with_configuration, perform_recover,
}
use juicebox_sdk.Recover.Commitments.{IsCommitted, usable_shares-IsCommitted}
use juicebox_sdk.Recover.Errors.{RecoverError-Ord, not_registered, recover_transient}
use juicebox_sdk.Recover.Realms.{Recover3Result, recover1_result}
use juicebox_sdk.Recover.Attempts.{attempted, perform_recover-previous}
use juicebox_sdk.Recover.Agreement.{Ends, phase1_cases}
use juicebox_sdk.Delete.{perform_delete}
use juicebox_sdk.Delete.Cases.{IsDeleted, perform_delete-ok_iff}
use juicebox_sdk.Marshalling.{to_be2, to_be4}
use juicebox_sdk.Keys.{fields, unlock_key_tag, encrypted_user_secret_commitment}
use juicebox_sdk.Signing.{OprfSignedPublicKey, sign_public_key, signature_msg}
use juicebox_sdk.Register.{Registration, signed_public_keys, register2_requests}
use juicebox_sdk.Register.Requests.{IsSound, register2_requests-IsSound}
use juicebox_sdk.Tests.Five.{five, f2, f3}
use juicebox_sdk.Tests.Bench.{bench}
use juicebox_sdk.Tests.Setups.{configuration, realm}

-- Not registered with the first configuration, and out of reach with the second.
abbrev answers :
    ℕ → Realm → SecretsRequest five bench → Outcome RequestError (SecretsResponse five bench)
answers zero realm request = ok (recover1_response recover1_not_registered)
answers (suc n) realm request = err transient

abbrev env : Environment five bench
env = record {
  make_request = answers;
  arrival = λ attempt phase futures. futures;
  arrival-Permᴰ = λ attempt phase futures. Permᴰ.refl futures;
  random = λ attempt. five.one;
}

first_attempt : attempted five bench env (1 ∷ []) (2 ∷ []) 0 configuration ≡ err not_registered
unfolding perform_recover_with_configuration phase1 join_at_least_threshold recover1_result
    RecoverError-Ord
first_attempt = refl

second_attempt : attempted five bench env (1 ∷ []) (2 ∷ []) 1 configuration ≡ err recover_transient
unfolding perform_recover_with_configuration phase1 join_at_least_threshold recover1_result
    RecoverError-Ord
second_attempt = refl

transient≢not_registered :
    attempted five bench env (1 ∷ []) (2 ∷ []) 1 configuration ≢ err not_registered
transient≢not_registered e = cc (second_attempt)

perform_recover-previous_example :
    perform_recover five bench env configuration
      (configuration ∷ configuration ∷ [])
      (1 ∷ [])
      (2 ∷ [])
    ≡ attempted five bench env (1 ∷ []) (2 ∷ []) 1 configuration
perform_recover-previous_example =
    perform_recover-previous five bench env (1 ∷ []) (2 ∷ []) configuration [] configuration
      (configuration ∷ []) (first_attempt, tt) transient≢not_registered

-- Every realm reports the same version.
abbrev reporting : Environment five bench
reporting = record env {
  make_request = λ attempt realm request. ok (recover1_response (recover1_ok (replicate 16 7)));
}

phase1_cases_example : Ends five bench reporting 0 configuration
phase1_cases_example =
    phase1_cases five bench reporting 0 configuration (omega arith) (omega arith)
      ((λ e. cc e), ((λ e. cc e), ((λ e. cc e), tt)))

abbrev deleting :
    Realm → SecretsRequest five bench → Outcome RequestError (SecretsResponse five bench)
deleting realm request = ok (delete_response delete_ok)

perform_delete-ok_iff_example :
    (perform_delete five bench deleting configuration ≡ ok tt)
    ↔ All (IsDeleted five bench deleting) configuration.realms
perform_delete-ok_iff_example = perform_delete-ok_iff five bench deleting configuration

-- The second phase of registration for the first realm.
abbrev registration : Registration five bench
registration = record {
  version = replicate 16 7;
  unlock_key = 8 ∷ [];
  unlock_key_commitment = 9 ∷ [];
  encrypted_secret = 1 ∷ 2 ∷ [];
  policy = record { num_guesses = 3 };
}

abbrev taken : {A : Type 0} → Outcome ⊥ (List A) → List A
taken (ok a) = a
taken _ = []

abbrev signed : List OprfSignedPublicKey
signed = taken (signed_public_keys five bench 77 (f3 ∷ []) configuration.realms)

abbrev requests : List (Realm × Register2Request five bench)
requests =
    taken
      (register2_requests five bench registration configuration.realms (f3 ∷ []) signed (f2 ∷ []))

signed_made :
    ◌≡◌ {A = Outcome ⊥ (List OprfSignedPublicKey)}
      (signed_public_keys five bench 77 (f3 ∷ []) configuration.realms)
      (ok signed)
unfolding signed_public_keys sign_public_key signature_msg to_be2
signed_made = refl

requests_made :
    ◌≡◌ {A = Outcome ⊥ (List (Realm × Register2Request five bench))}
      (register2_requests five bench registration configuration.realms (f3 ∷ []) signed (f2 ∷ []))
      (ok requests)
unfolding signed_public_keys sign_public_key signature_msg to_be2 register2_requests unlock_key_tag
    encrypted_user_secret_commitment fields to_be4
requests_made = refl

register2_requests-IsSound_example : All (IsSound five bench ⊥ registration) requests
register2_requests-IsSound_example =
    register2_requests-IsSound five bench registration 77 configuration.realms (f3 ∷ []) signed
      (f2 ∷ []) requests signed_made requests_made

-- Two answers of the third phase, of which the first has the derived commitment. Its message starts
-- with the length of the label.
abbrev third : Bytes → Recover3Result five bench
third commitment = record {
  share = record { index = 1; secret = f2 };
  encrypted_secret = 1 ∷ [];
  commitment = commitment;
  realm = realm 1;
}

abbrev third_answers : List (Recover3Result five bench)
third_answers =
    third (0 ∷ 0 ∷ 0 ∷ 32 ∷ take 12 (bytes_of "Encrypted User Secret Commitment"))
    ∷ third (4 ∷ [])
    ∷ []

one_usable :
    usable_shares five bench env 0 (8 ∷ []) third_answers
    ≡ ok ((1 ∷ [], record { index = 1; secret = f2 }) ∷ [])
unfolding encrypted_user_secret_commitment fields to_be4 bytes_eq
one_usable = refl

usable_shares-IsCommitted_example :
    All
      (IsCommitted five bench (8 ∷ []) third_answers)
      ((1 ∷ [], record { index = 1; secret = f2 }) ∷ [])
usable_shares-IsCommitted_example =
    usable_shares-IsCommitted five bench (8 ∷ []) env 0 third_answers
      ((1 ∷ [], record { index = 1; secret = f2 }) ∷ []) one_usable
