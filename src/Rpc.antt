-- ===== src/Rpc.antt =====
-- rust/networking/src/rpc.rs: one call of a realm over HTTP; rust/sdk/src/request.rs: what becomes of
-- its errors, and the attempts at a software realm. The HTTP client, the URL type, the status codes
-- and the serialization of other crates are parameters.
pub mod Attempts
use Prim.Native.String.{String}
use juicebox_sdk.Prelude.{
  ℕ, zero, suc, ◌+◌, Bool, true, false, List, [], ◌∷◌, Bytes, Option, none, some, Outcome, ok, err,
  panic, ◌>>=◌, map_err, ok_or, unwrap, if◌then◌else◌, ◌==◌,
}
use juicebox_sdk.Api.{
  RequestError, invalid_auth, upgrade_required, rate_limit_exceeded, transient, assertion,
}

pub data Method : Type 0 where
  get put post delete_method : Method

-- `http::Request` and `http::Response`
pub record HttpRequest : Type 0 where
  pub method : Method
  pub url : String
  pub headers : List (String × String)
  pub body : Option Bytes
  pub timeout : Option ℕ

pub record HttpResponse : Type 0 where
  pub status_code : ℕ
  pub headers : List (String × String)
  pub body : Bytes

pub record SendOptions : Type 0 where
  pub headers : List (String × String)
  pub timeout : Option ℕ

pub data RpcError : Type 0 where
  network : RpcError
  http_status : ℕ → RpcError
  serialization deserialization : String → RpcError

-- `From<RpcError> for RequestError`
unfoldable pub request_error : RpcError → RequestError
request_error network = transient
request_error (http_status code) =
    if code == 401
    then invalid_auth
    else if code == 426
    then upgrade_required
    else if code == 429
    then rate_limit_exceeded
    else transient
request_error (serialization _) = assertion
request_error (deserialization _) = assertion

-- `Url::join`, `StatusCode::from_u16` with `is_success`, and the serialization of one service.
pub record Service : Type 1 where
  pub Request : Type 0
  pub Response : Type 0
  pub join : String → String → Option String
  pub is_success : ℕ → Option Bool
  pub to_vec : Request → Outcome String Bytes
  pub from_slice : Bytes → Outcome String Response

module _ (S : Service) where
  open S use {Request, Response}

  -- The match on what the HTTP client gives.
  unfoldable pub read_response : Option HttpResponse → Outcome RpcError Response
  read_response none = err network
  read_response (some response) = do
    success ← ok_or network (S.is_success response.status_code)
    if success
        then map_err deserialization (S.from_slice response.body)
        else map_err (λ _. http_status response.status_code) (S.from_slice response.body)

  unfoldable pub send_with_options :
      (HttpRequest → Option HttpResponse)
      → String
      → Request
      → SendOptions
      → Outcome RpcError Response
  unfolding read_response
  send_with_options http base_url request options = do
    url ← unwrap (S.join base_url "req")
    body ← map_err serialization (S.to_vec request)
    read_response (
        http (record {
          method = post;
          url = url;
          headers = options.headers;
          body = some body;
          timeout = options.timeout;
        }))

  unfoldable pub send :
      (HttpRequest → Option HttpResponse) → String → Request → Outcome RpcError Response
  unfolding send_with_options
  send http base_url request =
      send_with_options http base_url request (record { headers = []; timeout = none })

  -- A transient error goes on to the next round, any other result is returned, with the number of calls
  -- and the milliseconds that were slept.
  abbrev pub settle :
      Outcome RequestError Response
      → Outcome RequestError Response × ℕ × ℕ
      → ℕ
      → ℕ
      → Outcome RequestError Response × ℕ × ℕ
  settle (err transient) again calls slept = again
  settle result again calls slept = (result, calls, slept)

  -- The loop of `make_software_realm_request`, with as many rounds as are left. `http n` is the
  -- client when it has been called `n` times. The number of calls and the milliseconds that were slept
  -- are returned too: the loop sleeps after each transient error, the last one included.
  unfoldable pub attempts :
      (ℕ → HttpRequest → Option HttpResponse)
      → String
      → Request
      → SendOptions
      → ℕ
      → ℕ
      → ℕ
      → Outcome RequestError Response × ℕ × ℕ
  unfolding send_with_options request_error
  attempts http base_url request options zero calls slept = (err transient, calls, slept)
  attempts http base_url request options (suc rounds) calls slept =
      let again = attempts http base_url request options rounds (suc calls) (slept + 5) in
      settle (map_err request_error (send_with_options (http calls) base_url request options)) again
        (suc calls) slept

  -- `make_software_realm_request`; the token is what the token manager gives for the realm, and
  -- `bearer` puts it in the header.
  unfoldable pub make_software_realm_request :
      (ℕ → HttpRequest → Option HttpResponse)
      → String
      → Request
      → Option Bytes
      → (Bytes → String)
      → Outcome RequestError Response × ℕ × ℕ
  unfolding attempts
  make_software_realm_request http address request none bearer = (err invalid_auth, 0, 0)
  make_software_realm_request http address request (some auth_token) bearer =
      attempts http address request
        (record { headers = ("Authorization", bearer auth_token) ∷ []; timeout = none }) 2 0 0
