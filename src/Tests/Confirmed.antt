-- ===== src/Tests/Confirmed.antt =====
-- Registration with three realms, of which two have to confirm and the third is out of reach.
use juicebox_sdk.Prelude.{Bytes, suc, ◌<◌, ◌≡◌, refl, List, [], ◌∷◌, Outcome, ok, err, replicate}
use mathlib.Core.List.Permᴰ
use juicebox_sdk.Realm.{Realm}
use juicebox_sdk.Configuration.{Configuration, share_count}
use juicebox_sdk.Api.{
  SecretsRequest, SecretsResponse, RequestError, register1, register2, register1_response,
  register1_ok, register2_response, register2_ok, transient, Register2Request, Policy,
}
use juicebox_sdk.Join.{join_at_least_threshold}
use juicebox_sdk.Keys.{
  pin_hash, fields, user_secret_encryption_key, unlock_key_tag, encrypted_user_secret_commitment,
}
use juicebox_sdk.Marshalling.{to_be2, to_be4}
use juicebox_sdk.Sharing.{create_shares}
use juicebox_sdk.Signing.{sign_public_key, signature_msg}
use juicebox_sdk.Secret.{padded_user_secret, encrypt}
use juicebox_sdk.Register.{
  Environment, prepared_requests, register1_result, register2_result, perform_register,
}
use juicebox_sdk.Register.Errors.{RegisterError, RegisterError-Ord}
use juicebox_sdk.Register.Confirmed.{AtLeast, Answered, Stored, perform_register-Stored}
use juicebox_sdk.Tests.Five.{five, f2, f3}
use juicebox_sdk.Tests.Bench.{bench}
use juicebox_sdk.Tests.Setups.{configuration}

abbrev two_of_three : Configuration
two_of_three = record configuration { register_threshold = 2 }

abbrev answer : SecretsRequest five bench → Outcome RequestError (SecretsResponse five bench)
answer register1 = ok (register1_response register1_ok)
answer (register2 r) = ok (register2_response register2_ok)
answer _ = err transient

abbrev answer_at :
    Bytes → SecretsRequest five bench → Outcome RequestError (SecretsResponse five bench)
answer_at (suc (suc (suc n)) ∷ id) request = err transient
answer_at _ request = answer request

abbrev env : Environment five bench
env = record {
  make_request = λ realm request. answer_at realm.id request;
  arrival = λ phase futures. futures;
  arrival-Permᴰ = λ phase futures. Permᴰ.refl futures;
  version = replicate 16 7;
  private_key = f2;
  key_polynomial = λ n. f3;
  signing_key = 77;
  encryption_key_scalar = f3;
  scalar_polynomial = λ n. f2;
}

abbrev policy : Policy five bench
policy = record { num_guesses = 5 }

succeeds :
    perform_register five bench env two_of_three (1 ∷ 2 ∷ []) (42 ∷ 43 ∷ []) (3 ∷ []) policy ≡ ok tt
unfolding perform_register join_at_least_threshold register1_result register2_result
    prepared_requests pin_hash fields to_be4 share_count create_shares sign_public_key signature_msg
    to_be2 user_secret_encryption_key encrypt padded_user_secret unlock_key_tag
    encrypted_user_secret_commitment
succeeds = refl

perform_register-Stored_example :
    (requests : List (Realm × Register2Request five bench)) × (0 < 2)
    × AtLeast 2 (Answered five bench env) two_of_three.realms
    × ◌≡◌ {A = Outcome RegisterError (List (Realm × Register2Request five bench))}
        (prepared_requests five bench env two_of_three (1 ∷ 2 ∷ []) (42 ∷ 43 ∷ []) (3 ∷ []) policy)
        (ok requests)
    × AtLeast 2 (Stored five bench env) requests
perform_register-Stored_example =
    perform_register-Stored five bench env two_of_three (1 ∷ 2 ∷ []) (42 ∷ 43 ∷ []) (3 ∷ []) policy
      succeeds
