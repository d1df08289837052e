-- ===== src/Session/Attempts.antt =====
-- rust/sdk/src/request.rs: `make_hardware_realm_request`, with the session that it takes and leaves,
-- and `make_request`.
use Prim.Native.String.{String}
use juicebox_sdk.Prelude.{
  ℕ, zero, suc, ◌+◌, ◌-◌, ◌*◌, Bool, Bytes, Option, none, some, Outcome, ok, err, panic, map_err,
  ltb, ◌>>=◌, if◌then◌else◌,
}
use juicebox_sdk.Curve.{ScalarField}
use juicebox_sdk.Crypto.{Crypto}
use juicebox_sdk.Api.{
  SecretsRequest, SecretsResponse, needs_forward_secrecy, RequestError, invalid_auth,
  upgrade_required, rate_limit_exceeded, transient, assertion,
}
use juicebox_sdk.Padded.{unpadded_response}
use juicebox_sdk.Realm.{Realm}
use juicebox_sdk.Noise.{Suite}
use juicebox_sdk.Rpc.{Service, make_software_realm_request}
use juicebox_sdk.Session.{Session}
use juicebox_sdk.Session.Calls.{History, history, Network, ask, sleep}
use juicebox_sdk.Session.Requests.{
  RequestErrorOrMissingSession, failed, missing_session, try_make_request,
}

module _ (F : ScalarField) (K : Crypto F) (S : Suite) (N : Network F K S) where
  -- The result of a request, the session that it leaves to the next, and what has been done.
  abbrev pub Done : Type 0
  Done = Outcome RequestError (SecretsResponse F K) × Option Session × History

  abbrev kept_session : ℕ → Option Session → Option Session
  kept_session now none = none
  kept_session now (some session) =
      if ltb (now - session.last_used) session.lifetime then some session else none

  -- `Option::filter` on the session that was taken. An instant in the future has elapsed time 0.
  unfoldable pub current_session : Option Session → ℕ → Option Session
  current_session session moment = kept_session (N.now moment) session

  unfoldable pub read_padded : Bytes → Outcome RequestError (SecretsResponse F K)
  read_padded response = do
    padded ← map_err (λ _. assertion) (N.padded_response_from_slice response)
    map_err (λ _. assertion) (unpadded_response N.secrets_response_from_slice padded)

  -- The match of the loop, on what the try came to. The rounds that are left start with no session.
  unfoldable pub round_result :
      Outcome RequestErrorOrMissingSession (Session × Bytes) × History → ℕ → (History → Done) → Done
  unfolding read_padded
  round_result (ok (session, response), h) attempt again = (read_padded response, some session, h)
  round_result (err (failed transient), h) attempt again = again (sleep {E = ⊥} (5 * attempt) h).1
  round_result (err (failed invalid_auth), h) attempt again = (err invalid_auth, none, h)
  round_result (err (failed upgrade_required), h) attempt again = (err upgrade_required, none, h)
  round_result (err (failed rate_limit_exceeded), h) attempt again =
      (err rate_limit_exceeded, none, h)
  round_result (err (failed assertion), h) attempt again = (err assertion, none, h)
  round_result (err missing_session, h) attempt again = again h
  round_result (panic, h) attempt again = (panic, none, h)

  -- The loop, with as many rounds as are left.
  unfoldable pub hardware_rounds :
      Realm → Bytes → Bytes → Bool → ℕ → ℕ → Option Session → History → Done
  unfolding round_result current_session
  hardware_rounds realm public_key request secrecy zero attempt session h =
      (err transient, session, h)
  hardware_rounds realm public_key request secrecy (suc rounds) attempt session h =
      let asked = ask {E = ⊥} (current_session session) h in
      let again = hardware_rounds realm public_key request secrecy rounds (suc attempt) none in
      round_result
        (try_make_request F K S N realm public_key (current_session session h.moment) request
          secrecy asked.1)
        attempt again

  -- The loop of `make_hardware_realm_request` is its `for attempt in 1..6`. The session is what the
  -- client holds for the realm: `none` stands for a realm that it has no place for.
  abbrev pub serialized_request :
      Realm → Bytes → Bool → Outcome String Bytes → Option (Option Session) → History → Done
  serialized_request realm public_key secrecy (ok bytes) none h = (panic, none, h)
  serialized_request realm public_key secrecy (ok bytes) (some session) h =
      hardware_rounds realm public_key bytes secrecy 5 1 session h
  serialized_request realm public_key secrecy (err e) none h = (err assertion, none, h)
  serialized_request realm public_key secrecy (err e) (some session) h = (err assertion, session, h)
  serialized_request realm public_key secrecy panic held h = (panic, none, h)

  unfoldable pub make_hardware_realm_request :
      Realm → Bytes → SecretsRequest F K → Option (Option Session) → History → Done
  unfolding hardware_rounds needs_forward_secrecy
  make_hardware_realm_request realm public_key request held h =
      serialized_request realm public_key (needs_forward_secrecy F K request)
        (N.secrets_request_to_vec request) held h

  abbrev secrets_service : Service
  secrets_service = record {
    Request = SecretsRequest F K;
    Response = SecretsResponse F K;
    join = N.join;
    is_success = N.is_success;
    to_vec = N.secrets_request_to_vec;
    from_slice = N.secrets_response_from_slice;
  }

  abbrev held_session : Option (Option Session) → Option Session
  held_session none = none
  held_session (some session) = session

  -- `make_request`, on the public key of the realm.
  unfoldable pub make_request :
      Realm → Option Bytes → SecretsRequest F K → Option (Option Session) → History → Done
  unfolding make_hardware_realm_request make_software_realm_request
  make_request realm (some public_key) request held h =
      make_hardware_realm_request realm public_key request held h
  make_request realm none request held h =
      let asked = ask {E = ⊥} (λ m. N.auth_token m realm.id) h in
      let answered =
        make_software_realm_request secrets_service (N.software_http h.moment) realm.address request
          (N.auth_token h.moment realm.id) N.bearer in
      let before = asked.1 in
      (
        answered.0,
        held_session held,
        history before.sent (before.slept + answered.2) (before.moment + answered.1),
      )
