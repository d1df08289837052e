-- ===== src/Tests/Messages.antt =====
-- Sized fields, signatures, the user's secret, and padded responses.
use juicebox_sdk.Prelude.{◌≡◌, refl, List, [], ◌∷◌, Bytes, Outcome, ok, length, arith}
use juicebox_sdk.Marshalling.{to_be2, to_be4}
use juicebox_sdk.Keys.{fields}
use juicebox_sdk.Keys.Unambiguous.{fields_injective, signature_msg_injective}
use juicebox_sdk.Signing.{OprfSignedPublicKey, signature_msg, sign_public_key, verify}
use juicebox_sdk.Signing.Correctness.{verify-sign_public_key}
use juicebox_sdk.Secret.{user_secret, encrypt, decrypt}
use juicebox_sdk.Secret.Roundtrip.{decrypt-encrypt}
use juicebox_sdk.Padded.{PaddedSecretsResponse, padded_response, unpadded_response}
use juicebox_sdk.Padded.Roundtrip.{unpadded_response-padded_response}
use juicebox_sdk.Tests.Five.{five}
use juicebox_sdk.Tests.Bench.{bench, plain_cipher}

abbrev message : Bytes
message = 0 ∷ 0 ∷ 0 ∷ 1 ∷ 9 ∷ 0 ∷ 0 ∷ 0 ∷ 0 ∷ []

hashed_fields : ◌≡◌ {A = Outcome ⊥ Bytes} (fields ((9 ∷ []) ∷ [] ∷ [])) (ok message)
unfolding fields to_be4
hashed_fields = refl

fields_injective_example : ◌≡◌ {A = List Bytes} ((9 ∷ []) ∷ [] ∷ []) ((9 ∷ []) ∷ [] ∷ [])
fields_injective_example =
    fields_injective ((9 ∷ []) ∷ [] ∷ []) ((9 ∷ []) ∷ [] ∷ []) message hashed_fields hashed_fields

abbrev to_sign : Bytes
to_sign = 0 ∷ 2 ∷ 5 ∷ 6 ∷ 0 ∷ 1 ∷ 9 ∷ []

signed_message : ◌≡◌ {A = Outcome ⊥ Bytes} (signature_msg (5 ∷ 6 ∷ []) (9 ∷ [])) (ok to_sign)
unfolding signature_msg to_be2
signed_message = refl

signature_msg_injective_example :
    ◌≡◌ {A = Bytes} (5 ∷ 6 ∷ []) (5 ∷ 6 ∷ []) × ◌≡◌ {A = Bytes} (9 ∷ []) (9 ∷ [])
signature_msg_injective_example =
    signature_msg_injective (5 ∷ 6 ∷ []) (5 ∷ 6 ∷ []) (9 ∷ []) (9 ∷ []) to_sign signed_message
      signed_message

abbrev signed_key : OprfSignedPublicKey
signed_key = record { public_key = 9 ∷ []; verifying_key = 77 ∷ []; signature = 77 ∷ to_sign }

key_signed :
    ◌≡◌ {A = Outcome ⊥ OprfSignedPublicKey}
      (sign_public_key five bench (9 ∷ []) (5 ∷ 6 ∷ []) 77)
      (ok signed_key)
unfolding sign_public_key signature_msg to_be2
key_signed = refl

verify-sign_public_key_example :
    (verify five bench signed_key (5 ∷ 6 ∷ []) ≡ ok tt) × (signed_key.public_key ≡ (9 ∷ []))
verify-sign_public_key_example =
    verify-sign_public_key five bench (9 ∷ []) (5 ∷ 6 ∷ []) 77 key_signed

abbrev secret : Bytes
secret = 104 ∷ 105 ∷ []

secret_made : ◌≡◌ {A = Outcome ⊥ Bytes} (user_secret secret) (ok secret)
unfolding user_secret
secret_made = refl

decrypt-encrypt_example :
    (encrypted_secret : Bytes) × ◌≡◌ {A = Outcome ⊥ Bytes}
      (encrypt plain_cipher secret (1 ∷ []))
      (ok encrypted_secret)
    × (length encrypted_secret ≡ 145)
    × ◌≡◌ {A = Outcome ⊥ Bytes} (decrypt plain_cipher encrypted_secret (1 ∷ [])) (ok secret)
decrypt-encrypt_example = decrypt-encrypt plain_cipher secret secret (1 ∷ []) secret_made

-- A response is its own serialization.
abbrev to_vec : Bytes → Outcome ⊥ Bytes
to_vec response = ok response

unpadded_response-padded_response_example :
    (padded : PaddedSecretsResponse) × (padded_response to_vec (3 ∷ 4 ∷ []) ≡ ok padded)
    × (length padded.padded_bytes ≡ 436)
    × (unpadded_response to_vec padded ≡ ok (3 ∷ 4 ∷ []))
unpadded_response-padded_response_example =
    unpadded_response-padded_response to_vec to_vec (3 ∷ 4 ∷ []) (3 ∷ 4 ∷ []) refl (omega arith)
