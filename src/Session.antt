-- ===== src/Session.antt =====
-- rust/realm/api/src/requests.rs: the messages of a client to a hardware realm and its answers;
-- rust/sdk/src/types.rs: the session that a client keeps for such a realm.
pub mod Calls
pub mod Requests
pub mod Attempts
pub mod Client
pub mod Log
pub mod Secrecy
pub mod Sync
pub mod Exchange
use juicebox_sdk.Prelude.{ℕ, Bytes}
use juicebox_sdk.Realm.{RealmId}
use juicebox_sdk.Noise.{HandshakeRequest, HandshakeResponse, Transport}

pub data ClientRequestKind : Type 0 where
  handshake_only secrets_request : ClientRequestKind

pub data NoiseRequest : Type 0 where
  request_handshake : HandshakeRequest → NoiseRequest
  request_transport : Bytes → NoiseRequest

pub data NoiseResponse : Type 0 where
  -- With the lifetime of the session.
  response_handshake : HandshakeResponse → ℕ → NoiseResponse
  response_transport : Bytes → NoiseResponse

pub record ClientRequest : Type 0 where
  pub realm : RealmId
  pub auth_token : Bytes
  pub session_id : ℕ
  pub kind : ClientRequestKind
  pub encrypted : NoiseRequest

pub data ClientResponse : Type 0 where
  response_ok : NoiseResponse → ClientResponse
  response_unavailable response_invalid_auth response_missing_session response_session_error
        response_decoding_error response_payload_too_large response_rate_limit_exceeded :
      ClientResponse

-- Durations and instants are numbers of nanoseconds.
pub record Session : Type 0 where
  pub session_id : ℕ
  pub transport : Transport
  pub lifetime : ℕ
  pub last_used : ℕ
