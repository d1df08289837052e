-- ===== src/Tests/Registered.antt =====
-- Registration with three realms, and recovery from realms that hold what it sent.
use juicebox_sdk.Prelude.{
  take, drop, map, ap, get_elem?, ◌++◌, ◌≢◌, Option, some, Bytes, ℕ, zero, suc, ◌≡◌, refl, List, [],
  ◌∷◌, Outcome, ok, err, All, arith, replicate,
}
use mathlib.Core.List.Permᴰ
use juicebox_sdk.Realm.{Realm}
use juicebox_sdk.Configuration.{share_count}
use juicebox_sdk.Configuration.Accepted.{IsAccepted}
use juicebox_sdk.Api.{
  SecretsRequest, SecretsResponse, RequestError, recover1, recover2, recover3, recover1_response,
  recover1_ok, recover2_response, recover2_ok, recover3_response, recover3_ok, Register2Request,
  register1_response, register1_ok, transient, Policy,
}
use juicebox_sdk.Oprf.{unoblivious_evaluate}
use juicebox_sdk.Keys.{
  derive_unlock_key_and_commitment, argon2, pin_hash, fields, user_secret_encryption_key,
  unlock_key_tag, encrypted_user_secret_commitment,
}
use juicebox_sdk.Marshalling.{to_be2, to_be4}
use juicebox_sdk.Sharing.{create_shares}
use juicebox_sdk.Signing.{sign_public_key, signature_msg}
use juicebox_sdk.Secret.{user_secret, padded_user_secret, encrypt}
use juicebox_sdk.Register.{signed_public_keys, register2_requests, prepared_requests}
use juicebox_sdk.Register as Register
use juicebox_sdk.Register.Errors.{RegisterError}
use juicebox_sdk.Recover.{Environment, perform_recover}
use juicebox_sdk.Recover.Errors.{RecoverError, invalid_pin}
use juicebox_sdk.Recover.Guesses.{perform_recover-wrong_pin}
use juicebox_sdk.Recover.Honest.Pins.{IsLeast}
use juicebox_sdk.Recover.Honest.{remaining, evaluated, held, IsHonest}
use juicebox_sdk.Recover.Registered.{perform_recover-prepared}
use juicebox_sdk.Tests.Five.{five, f2, f3, f1≢f0}
use juicebox_sdk.Tests.Bench.{bench}
use juicebox_sdk.Tests.Setups.{configuration, realm}

-- What a realm holds.
abbrev Held : Type 0
Held = Register2Request five bench

abbrev answer_with :
    Held → SecretsRequest five bench → Outcome RequestError (SecretsResponse five bench)
answer_with r recover1 = ok (recover1_response (recover1_ok r.version))
answer_with r (recover2 q) =
    ok (recover2_response (recover2_ok (evaluated five bench r q.oprf_blinded_input f3 5 0)))
answer_with r (recover3 q) = ok (recover3_response (recover3_ok (held five bench r)))
answer_with r _ = err transient

abbrev answer_at :
    Held
    → Held
    → Held
    → Bytes
    → SecretsRequest five bench
    → Outcome RequestError (SecretsResponse five bench)
answer_at a b c (suc zero ∷ id) = answer_with a
answer_at a b c (suc (suc zero) ∷ id) = answer_with b
answer_at a b c _ = answer_with c

abbrev holding : Held → Held → Held → Environment five bench
holding a b c = record {
  make_request = λ attempt realm request. answer_at a b c realm.id request;
  arrival = λ attempt phase futures. futures;
  arrival-Permᴰ = λ attempt phase futures. Permᴰ.refl futures;
  random = λ attempt. five.one;
}

holding-IsHonest :
    (a b c : Held)
    → All
        (IsHonest five bench (holding a b c) 0 (λ realm. f3) (λ realm. 5) (λ realm. 0))
        ((realm 1, a) ∷ (realm 2, b) ∷ (realm 3, c) ∷ [])
holding-IsHonest a b c = (
  record { first = refl; second = λ q. refl; third = refl },
  (
    record { first = refl; second = λ q. refl; third = refl },
    (record { first = refl; second = λ q. refl; third = refl }, tt),
  ),
)

abbrev registering : Register.Environment five bench
registering = record {
  make_request = λ realm request. ok (register1_response register1_ok);
  arrival = λ phase futures. futures;
  arrival-Permᴰ = λ phase futures. Permᴰ.refl futures;
  version = replicate 16 7;
  private_key = f2;
  key_polynomial = λ n. f3;
  signing_key = 77;
  encryption_key_scalar = f3;
  scalar_polynomial = λ n. f2;
}

abbrev policy : Policy five bench
policy = record { num_guesses = 5 }

abbrev pin : Bytes
pin = 1 ∷ 2 ∷ []

abbrev info : Bytes
info = 3 ∷ []

abbrev secret : Bytes
secret = 42 ∷ 43 ∷ []

abbrev prepared : Outcome RegisterError (List (Realm × Held))
prepared = prepared_requests five bench registering configuration pin secret info policy

abbrev sent : List (Realm × Held)
sent = taken prepared
  where
    taken : Outcome RegisterError (List (Realm × Held)) → List (Realm × Held)
    taken (ok a) = a
    taken _ = []

abbrev held_at : ℕ → Held
held_at n = at n sent
  where
    at : ℕ → List (Realm × Held) → Held
    at n [] = record {
      version = [];
      oprf_private_key = f2;
      oprf_signed_public_key = record { public_key = []; verifying_key = []; signature = [] };
      unlock_key_commitment = [];
      unlock_key_tag = [];
      encryption_key_scalar_share = f2;
      encrypted_secret = [];
      encrypted_secret_commitment = [];
      policy = policy;
    }
    at zero (r ∷ rs) = r.1
    at (suc n) (r ∷ rs) = at n rs

abbrev requests : List (Realm × Held)
requests = (realm 1, held_at 0) ∷ (realm 2, held_at 1) ∷ (realm 3, held_at 2) ∷ []

sent_prepared : prepared ≡ ok requests
unfolding prepared_requests pin_hash fields to_be4 share_count create_shares sign_public_key
    signature_msg to_be2 user_secret_encryption_key encrypt padded_user_secret unlock_key_tag
    encrypted_user_secret_commitment
sent_prepared = refl

configuration-IsAccepted : IsAccepted configuration
configuration-IsAccepted = record {
  distinct = (((λ e. cc e), ((λ e. cc e), tt)), (((λ e. cc e), tt), (tt, tt)));
  fits = omega arith;
  keys = (tt, (tt, (tt, tt)));
  positive = omega arith;
  recover_le = omega arith;
  majority = omega arith;
  register_le = omega arith;
}

secret_made : ◌≡◌ {A = Outcome RecoverError Bytes} (user_secret secret) (ok secret)
unfolding user_secret
secret_made = refl

perform_recover-prepared_example :
    perform_recover five bench
      (holding (held_at 0) (held_at 1) (held_at 2))
      configuration
      []
      pin
      info
    ≡ ok secret
perform_recover-prepared_example =
    perform_recover-prepared five bench registering (holding (held_at 0) (held_at 1) (held_at 2))
      configuration [] pin secret secret info policy requests (λ realm. f3) (λ realm. 5)
      (λ realm. 0) configuration-IsAccepted (omega arith) secret_made sent_prepared
      (holding-IsHonest (held_at 0) (held_at 1) (held_at 2)) f1≢f0

-- A wrong PIN.
abbrev keys_of : Bytes → Bytes × Bytes
keys_of p = let password = take 64 (p ++ replicate 64 0) in (take 32 password, drop 32 password)

abbrev commitment_of : Bytes → Bytes
commitment_of p =
    (derive_unlock_key_and_commitment five bench
      (unoblivious_evaluate five bench.group registering.private_key (keys_of p).0)).1

-- The hash is that of the PIN alone.
pin_hashed :
    (p : Bytes)
    → ◌≡◌ {A = Outcome RecoverError (Option (Bytes × Bytes))}
        (pin_hash five bench p configuration.pin_hashing_mode registering.version info)
        (ok (some (keys_of p)))
unfolding pin_hash argon2 fields to_be4
pin_hashed p = refl

-- The PIN follows a label of 21 bytes.
other_commitment : commitment_of (9 ∷ []) ≢ commitment_of pin
unfolding derive_unlock_key_and_commitment unoblivious_evaluate
other_commitment e = nine≢one (ap (λ l. get_elem? l 21) e)
  where
    nine≢one : ◌≢◌ {A = Option ℕ} (some 9) (some 1)
    nine≢one h = cc h

perform_recover-wrong_pin_example :
    (m : ℕ) × (perform_recover five bench
        (holding (held_at 0) (held_at 1) (held_at 2))
        configuration
        []
        (9 ∷ [])
        info
      ≡ err (invalid_pin m))
    × IsLeast (map (λ r. remaining 5 0) requests) m
perform_recover-wrong_pin_example =
    perform_recover-wrong_pin five bench registering (holding (held_at 0) (held_at 1) (held_at 2))
      configuration [] pin (9 ∷ []) secret info info policy requests (λ realm. f3) (λ realm. 5)
      (λ realm. 0) (keys_of pin) (keys_of (9 ∷ [])) configuration-IsAccepted (omega arith)
      sent_prepared (holding-IsHonest (held_at 0) (held_at 1) (held_at 2)) f1≢f0 (pin_hashed pin)
      (pin_hashed (9 ∷ [])) other_commitment
