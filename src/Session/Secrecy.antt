-- ===== src/Session/Secrecy.antt =====
-- What a request to a hardware realm lets out, and how often it calls the realm.
use mathlib.Core.List.{append-nil}
use juicebox_sdk.Prelude.{
  ℕ, zero, suc, ◌+◌, ◌*◌, ◌≡◌, sym, ap, subst, map_err-eq-ok, ok_or-eq-ok, ◌∙◌, Bool, true, false,
  [], Bytes, Option, none, some, Outcome, ok, err, panic, map_err, arith,
}
use juicebox_sdk.Curve.{ScalarField}
use juicebox_sdk.Crypto.{Crypto}
use juicebox_sdk.Api.{
  SecretsRequest, SecretsResponse, needs_forward_secrecy, RequestError, invalid_auth,
  upgrade_required, rate_limit_exceeded, transient, assertion,
}
use juicebox_sdk.Realm.{Realm}
use juicebox_sdk.Noise.{Suite, Transport, transport_encrypt}
use juicebox_sdk.Noise.Client.{ClientHandshake, client_start, client_finish}
use juicebox_sdk.Session.{
  NoiseRequest, request_handshake, request_transport, response_handshake, response_transport,
  ClientRequest, ClientResponse, response_ok, response_unavailable, response_invalid_auth,
  response_missing_session, response_session_error, response_decoding_error,
  response_payload_too_large, response_rate_limit_exceeded, Session,
}
use juicebox_sdk.Session.Calls.{History, history, Network, ask, sleep}
use juicebox_sdk.Session.Requests.{
  RequestErrorOrMissingSession, failed, missing_session, expected_session, opened_session,
  make_handshake_request, used_session, make_transport_request, try_make_request,
}
use juicebox_sdk.Session.Attempts.{
  round_result, hardware_rounds, serialized_request, make_hardware_realm_request, current_session,
}
use juicebox_sdk.Session.Log.{
  Logged, Logged-trans, Logged-mono, Tracks, lift-Tracks, convert-Tracks, >>=-Tracks,
  lift_next-Tracks, ask_next-Tracks, deliver-Tracks, Tracks-mono,
}

-- The requests of one try.
abbrev pub cost : Bool → ℕ
cost true = 2
cost false = 1

-- What a handshake holds.
abbrev pub early_payload : Bool → Bytes → Bytes
early_payload true request = []
early_payload false request = request

-- The milliseconds of so many rounds, from an attempt on.
abbrev pub naps : ℕ → ℕ → ℕ
naps zero attempt = 0
naps (suc rounds) attempt = 5 * attempt + naps rounds (suc attempt)

module _ (F : ScalarField) (K : Crypto F) (S : Suite) (N : Network F K S) (realm : Realm)
    (public_key : Bytes) where
  -- A handshake is for this key and holds the payload, and a transport message is the encryption of
  -- the request.
  abbrev pub Encrypts : Bytes → Bytes → NoiseRequest → Type 0
  Encrypts payload request (request_handshake fields) =
      (secret : S.Secret) × (handshake : ClientHandshake S) × (client_start S secret public_key
          payload
        ≡ ok (handshake, fields))
  Encrypts payload request (request_transport ciphertext) =
      (t : Transport) × (t' : Transport) × ◌≡◌
        {A = Outcome RequestErrorOrMissingSession (Transport × Option Bytes)}
        (transport_encrypt S t request) (ok (t', some ciphertext))

  abbrev pub Shields : Bytes → Bytes → ClientRequest → Type 0
  Shields payload request sent = Encrypts payload request sent.encrypted

  module _ (Good : ClientRequest → Type 0) where
    opened_session-Tracks :
        (handshake : ClientHandshake S) (session_id : ℕ) (response : ClientResponse)
        → Tracks Good 0 (opened_session F K S N handshake session_id response)
    unfolding opened_session
    opened_session-Tracks handshake session_id (response_ok (response_handshake r lifetime)) =
        lift_next-Tracks Good 0 (map_err (λ _. assertion) (client_finish S handshake r)) _
          (λ finished e. ask_next-Tracks Good 0 N.now _ (λ now. lift-Tracks Good _))
    opened_session-Tracks handshake session_id (response_ok (response_transport _)) =
        lift-Tracks Good _
    opened_session-Tracks handshake session_id response_missing_session = lift-Tracks Good _
    opened_session-Tracks handshake session_id response_session_error = lift-Tracks Good _
    opened_session-Tracks handshake session_id response_payload_too_large = lift-Tracks Good _
    opened_session-Tracks handshake session_id response_decoding_error = lift-Tracks Good _
    opened_session-Tracks handshake session_id response_unavailable = lift-Tracks Good _
    opened_session-Tracks handshake session_id response_invalid_auth = lift-Tracks Good _
    opened_session-Tracks handshake session_id response_rate_limit_exceeded = lift-Tracks Good _

    used_session-Tracks :
        (session : Session) (response : ClientResponse)
        → Tracks Good 0 (used_session F K S N session response)
    unfolding used_session
    used_session-Tracks session (response_ok (response_transport ciphertext)) =
        ask_next-Tracks Good 0 N.now _ (λ now.
          lift_next-Tracks Good 0 _ _
            (λ decrypted e. lift_next-Tracks Good 0 _ _ (λ response e'. lift-Tracks Good _)))
    used_session-Tracks session (response_ok (response_handshake _ _)) = lift-Tracks Good _
    used_session-Tracks session response_session_error = lift-Tracks Good _
    used_session-Tracks session response_decoding_error = lift-Tracks Good _
    used_session-Tracks session response_payload_too_large = lift-Tracks Good _
    used_session-Tracks session response_unavailable = lift-Tracks Good _
    used_session-Tracks session response_invalid_auth = lift-Tracks Good _
    used_session-Tracks session response_missing_session = lift-Tracks Good _
    used_session-Tracks session response_rate_limit_exceeded = lift-Tracks Good _

  make_handshake_request-Tracks :
      (payload request : Bytes)
      → Tracks (Shields payload request) 1 (make_handshake_request F K S N realm public_key payload)
  unfolding make_handshake_request
  make_handshake_request-Tracks payload request =
      let G = Shields payload request in
      lift_next-Tracks G 1 _ _ (λ checked e. ask_next-Tracks G 1 _ _ (λ random.
        lift_next-Tracks G 1 _ _ (λ started e'. ask_next-Tracks G 1 _ _ (λ session_id.
          ask_next-Tracks G 1 _ _ (λ token. lift_next-Tracks G 1 _ _ (λ auth_token e″.
            >>=-Tracks G 1 0 _ _
              (deliver-Tracks F K S N G realm _
                (random, started.0, map_err-eq-ok (λ _. assertion) _ e'))
              (λ response. opened_session-Tracks G started.0 session_id response)))))))

  make_transport_request-Tracks :
      (session : Session) (payload request : Bytes)
      → Tracks (Shields payload request) 1 (make_transport_request F K S N realm session request)
  unfolding make_transport_request
  make_transport_request-Tracks session payload request =
      let G = Shields payload request in
      ask_next-Tracks G 1 _ _ (λ token. lift_next-Tracks G 1 _ _ (λ auth_token e.
        lift_next-Tracks G 1 _ _ (λ encrypted e'. lift_next-Tracks G 1 _ _ (λ ciphertext e″.
          >>=-Tracks G 1 0 _ _
            (convert-Tracks G failed 1 _ (
              deliver-Tracks F K S N G realm _ (
                session.transport,
                encrypted.0,
                e' ∙ ap (λ o. ok (encrypted.0, o)) (ok_or-eq-ok (failed assertion) _ e″),
              )))
            (λ response. used_session-Tracks G _ response)))))

  try_make_request-Tracks :
      (session : Option Session) (request : Bytes) (secrecy : Bool)
      → Tracks
          (Shields (early_payload secrecy request) request)
          (cost secrecy)
          (try_make_request F K S N realm public_key session request secrecy)
  unfolding try_make_request
  try_make_request-Tracks none request true =
      let G = Shields [] request in
      >>=-Tracks G 1 1 _ _ (convert-Tracks G failed 1 _ (make_handshake_request-Tracks [] request))
        (λ opened. lift_next-Tracks G 1 _ _ (λ checked e.
          convert-Tracks G expected_session 1 _
            (make_transport_request-Tracks opened.0 [] request)))
  try_make_request-Tracks none request false =
      let G = Shields request request in
      lift_next-Tracks G 1 _ _
        (λ checked e. convert-Tracks G failed 1 _ (make_handshake_request-Tracks request request))
  try_make_request-Tracks (some session) request true =
      Tracks-mono (Shields [] request) 1 2 _ (omega arith)
        (make_transport_request-Tracks session [] request)
  try_make_request-Tracks (some session) request false =
      make_transport_request-Tracks session request request

  module _ (Good : ClientRequest → Type 0) where
    round_result-Logged :
        (m n attempt s : ℕ) (h : History)
        (tried : Outcome RequestErrorOrMissingSession (Session × Bytes) × History)
        (again : History → Outcome RequestError (SecretsResponse F K) × Option Session × History)
        → Logged Good m 0 h tried.1
        → ((h' : History) → Logged Good n s h' (again h').2)
        → Logged Good (m + n) (5 * attempt + s) h (round_result F K S N tried attempt again).2
    unfolding round_result sleep
    round_result-Logged m n attempt s h (ok r, h') again l later =
        Logged-mono Good m (m + n) 0 (5 * attempt + s) h h' (omega arith) (omega arith) l
    round_result-Logged m n attempt s h (panic, h') again l later =
        Logged-mono Good m (m + n) 0 (5 * attempt + s) h h' (omega arith) (omega arith) l
    round_result-Logged m n attempt s h (err missing_session, h') again l later =
        Logged-mono Good (m + n) (m + n) (0 + s) (5 * attempt + s) h (again h').2 (omega arith)
          (omega arith) (Logged-trans Good m n 0 s h h' (again h').2 l (later h'))
    round_result-Logged m n attempt s h (err (failed transient), h') again l later =
        let h″ = history h'.sent (h'.slept + 5 * attempt) (suc h'.moment) in
        let nap : Logged Good 0 (5 * attempt) h' h″ =
          ([], sym (append-nil h'.sent), tt, omega arith, omega arith) in
        let until = Logged-trans Good m 0 0 (5 * attempt) h h' h″ l nap in
        Logged-mono Good (m + 0 + n) (m + n) (0 + 5 * attempt + s) (5 * attempt + s) h (again h″).2
          (omega arith) (omega arith)
          (Logged-trans Good (m + 0) n (0 + 5 * attempt) s h h″ (again h″).2 until (later h″))
    round_result-Logged m n attempt s h (err (failed invalid_auth), h') again l later =
        Logged-mono Good m (m + n) 0 (5 * attempt + s) h h' (omega arith) (omega arith) l
    round_result-Logged m n attempt s h (err (failed upgrade_required), h') again l later =
        Logged-mono Good m (m + n) 0 (5 * attempt + s) h h' (omega arith) (omega arith) l
    round_result-Logged m n attempt s h (err (failed rate_limit_exceeded), h') again l later =
        Logged-mono Good m (m + n) 0 (5 * attempt + s) h h' (omega arith) (omega arith) l
    round_result-Logged m n attempt s h (err (failed assertion), h') again l later =
        Logged-mono Good m (m + n) 0 (5 * attempt + s) h h' (omega arith) (omega arith) l

  hardware_rounds-Logged :
      (request : Bytes) (secrecy : Bool) (rounds attempt : ℕ) (session : Option Session)
      (h : History)
      → Logged
          (Shields (early_payload secrecy request) request)
          (rounds * cost secrecy)
          (naps rounds attempt)
          h
          (hardware_rounds F K S N realm public_key request secrecy rounds attempt session h).2
  unfolding hardware_rounds ask Tracks
  hardware_rounds-Logged request secrecy zero attempt session h =
      ([], sym (append-nil h.sent), tt, omega arith, omega arith)
  hardware_rounds-Logged request secrecy (suc rounds) attempt session h =
      let c = cost secrecy in
      let h' = history h.sent h.slept (suc h.moment) in
      let current = current_session F K S N session h.moment in
      let tried = try_make_request F K S N realm public_key current request secrecy h' in
      let again =
        hardware_rounds F K S N realm public_key request secrecy rounds (suc attempt) none in
      let G = Shields (early_payload secrecy request) request in
      Logged-mono G (c + rounds * c) (suc rounds * c) (naps (suc rounds) attempt)
        (naps (suc rounds) attempt) h (round_result F K S N tried attempt again).2 (omega arith)
        (omega arith)
        (round_result-Logged G c (rounds * c) attempt (naps rounds (suc attempt)) h tried again
          (try_make_request-Tracks current request secrecy h')
          (λ later. hardware_rounds-Logged request secrecy rounds (suc attempt) none later))

  -- A request to a hardware realm that is serialized to these bytes is sent in at most ten messages if
  -- it needs forward secrecy, and in at most five otherwise, with at most 75 milliseconds of sleep in
  -- all. Each of the messages is a handshake for the realm's key, whose payload is empty if the
  -- request needs forward secrecy and is the request otherwise, or the request, encrypted by a
  -- transport.
  pub make_hardware_realm_request-Logged :
      (request : SecretsRequest F K) (bytes : Bytes) (held : Option (Option Session)) (h : History)
      → N.secrets_request_to_vec request ≡ ok bytes
      → let secrecy = needs_forward_secrecy F K request in
        Logged
          (Shields (early_payload secrecy bytes) bytes)
          (5 * cost secrecy)
          75
          h
          (make_hardware_realm_request F K S N realm public_key request held h).2
  unfolding make_hardware_realm_request
  make_hardware_realm_request-Logged request bytes held h e =
      let secrecy = needs_forward_secrecy F K request in
      subst
        (λ r.
          Logged (Shields (early_payload secrecy bytes) bytes) (5 * cost secrecy) 75 h
            (serialized_request F K S N realm public_key secrecy r held h).2)
        (sym e) (place held)
    where
      place :
          (held : Option (Option Session))
          → let secrecy = needs_forward_secrecy F K request in
            Logged
              (Shields (early_payload secrecy bytes) bytes)
              (5 * cost secrecy)
              75
              h
              (serialized_request F K S N realm public_key secrecy (ok bytes) held h).2
      place none = ([], sym (append-nil h.sent), tt, omega arith, omega arith)
      place (some session) =
          hardware_rounds-Logged bytes (needs_forward_secrecy F K request) 5 1 session h
