-- ===== src/Session/Requests.antt =====
-- rust/sdk/src/request.rs: one request to a hardware realm, with a new session or an old one.
use juicebox_sdk.Prelude.{
  ℕ, Bool, true, false, not, [], ◌∷◌, Bytes, Option, none, some, ok, err, map_err, ok_or, assert,
  ◌==◌, if◌then◌else◌, length,
}
use juicebox_sdk.Curve.{ScalarField}
use juicebox_sdk.Crypto.{Crypto}
use juicebox_sdk.Api.{RequestError, invalid_auth, rate_limit_exceeded, transient, assertion}
use juicebox_sdk.Realm.{Realm}
use juicebox_sdk.Noise.{Suite, transport_encrypt, transport_decrypt}
use juicebox_sdk.Noise.Client.{ClientHandshake, client_start, client_finish}
use juicebox_sdk.Session.{
  ClientRequestKind, handshake_only, secrets_request, request_handshake, request_transport,
  response_handshake, response_transport, ClientResponse, response_ok, response_unavailable,
  response_invalid_auth, response_missing_session, response_session_error, response_decoding_error,
  response_payload_too_large, response_rate_limit_exceeded, Session,
}
use juicebox_sdk.Session.Calls.{Network, Call, ◌>>=◌, ◌>>◌, lift, convert, ask, deliver}

pub data RequestErrorOrMissingSession : Type 0 where
  failed : RequestError → RequestErrorOrMissingSession
  missing_session : RequestErrorOrMissingSession

-- A missing session is not expected from a session that has just been opened.
abbrev pub expected_session : RequestErrorOrMissingSession → RequestErrorOrMissingSession
expected_session (failed e) = failed e
expected_session missing_session = failed assertion

abbrev pub kind_of : Bytes → ClientRequestKind
kind_of [] = handshake_only
kind_of (b ∷ bs) = secrets_request

abbrev pub holds_nothing : Bytes → Bool
holds_nothing [] = true
holds_nothing (b ∷ bs) = false

module _ (F : ScalarField) (K : Crypto F) (S : Suite) (N : Network F K S) where
  -- The match of `make_handshake_request` on the response.
  unfoldable pub opened_session :
      ClientHandshake S → ℕ → ClientResponse → Call RequestError (Session × Bytes)
  opened_session handshake session_id (response_ok (response_handshake response lifetime)) = do
    finished ← lift (map_err (λ _. assertion) (client_finish S handshake response))
    last_used ← ask N.now
    lift (
        ok (
          record {
            session_id = session_id;
            transport = finished.0;
            lifetime = lifetime;
            last_used = last_used;
          },
          finished.1,
        ))
  opened_session handshake session_id (response_ok (response_transport _)) = lift (err assertion)
  opened_session handshake session_id response_missing_session = lift (err assertion)
  opened_session handshake session_id response_session_error = lift (err assertion)
  opened_session handshake session_id response_payload_too_large = lift (err assertion)
  opened_session handshake session_id response_decoding_error = lift (err assertion)
  opened_session handshake session_id response_unavailable = lift (err transient)
  opened_session handshake session_id response_invalid_auth = lift (err invalid_auth)
  opened_session handshake session_id response_rate_limit_exceeded = lift (err rate_limit_exceeded)

  unfoldable pub make_handshake_request :
      Realm → Bytes → Bytes → Call RequestError (Session × Bytes)
  make_handshake_request realm public_key request = do
    lift (assert (length public_key == 32))
    random ← ask N.draw_secret
    started ← lift (map_err (λ _. assertion) (client_start S random public_key request))
    session_id ← ask N.draw_session_id
    token ← ask (λ m. N.auth_token m realm.id)
    auth_token ← lift (ok_or invalid_auth token)
    response ← deliver F K S N realm (record {
      realm = realm.id;
      auth_token = auth_token;
      session_id = session_id;
      kind = kind_of request;
      encrypted = request_handshake started.1;
    })
    opened_session started.0 session_id response

  -- The match of `make_transport_request` on the response, with the session as the request left it.
  unfoldable pub used_session :
      Session → ClientResponse → Call RequestErrorOrMissingSession (Session × Bytes)
  used_session session (response_ok (response_transport ciphertext)) = do
    last_used ← ask N.now
    decrypted ← lift (transport_decrypt S session.transport ciphertext)
    response ← lift (ok_or (failed assertion) decrypted.1)
    lift (ok (record session { transport = decrypted.0; last_used = last_used }, response))
  used_session session (response_ok (response_handshake _ _)) = lift (err (failed assertion))
  used_session session response_session_error = lift (err (failed assertion))
  used_session session response_decoding_error = lift (err (failed assertion))
  used_session session response_payload_too_large = lift (err (failed assertion))
  used_session session response_unavailable = lift (err (failed transient))
  used_session session response_invalid_auth = lift (err (failed invalid_auth))
  used_session session response_missing_session = lift (err missing_session)
  used_session session response_rate_limit_exceeded = lift (err (failed rate_limit_exceeded))

  -- The session comes back with the response. After an error its callers drop it.
  unfoldable pub make_transport_request :
      Realm → Session → Bytes → Call RequestErrorOrMissingSession (Session × Bytes)
  make_transport_request realm session request = do
    token ← ask (λ m. N.auth_token m realm.id)
    auth_token ← lift (ok_or (failed invalid_auth) token)
    encrypted ← lift (transport_encrypt S session.transport request)
    ciphertext ← lift (ok_or (failed assertion) encrypted.1)
    response ← convert failed (
        deliver F K S N realm (record {
          realm = realm.id;
          auth_token = auth_token;
          session_id = session.session_id;
          kind = secrets_request;
          encrypted = request_transport ciphertext;
        }))
    used_session (record session { transport = encrypted.0 }) response

  unfoldable pub try_make_request :
      Realm
      → Bytes
      → Option Session
      → Bytes
      → Bool
      → Call RequestErrorOrMissingSession (Session × Bytes)
  try_make_request realm public_key none request true = do
    opened ← convert failed (make_handshake_request realm public_key [])
    lift (if holds_nothing opened.1 then ok tt else err (failed assertion))
    convert expected_session (make_transport_request realm opened.0 request)
  try_make_request realm public_key none request false = do
    lift (assert (not false))
    convert failed (make_handshake_request realm public_key request)
  try_make_request realm public_key (some session) request needs_forward_secrecy =
      make_transport_request realm session request
