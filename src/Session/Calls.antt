-- ===== src/Session/Calls.antt =====
-- What the functions of rust/sdk/src/request.rs do besides computing: they draw random values, ask for
-- the time and for a token, send requests, and sleep.
use Prim.Native.String.{String}
use juicebox_sdk.Prelude.{
  ℕ, suc, ◌+◌, Bool, List, [], ◌∷◌, ◌++◌, Bytes, Option, Outcome, ok, err, panic, map_err,
}
use juicebox_sdk.Curve.{ScalarField}
use juicebox_sdk.Crypto.{Crypto}
use juicebox_sdk.Api.{SecretsRequest, SecretsResponse, RequestError}
use juicebox_sdk.Padded.{PaddedSecretsResponse}
use juicebox_sdk.Realm.{RealmId, Realm}
use juicebox_sdk.Noise.{Suite}
use juicebox_sdk.Rpc.{HttpRequest, HttpResponse, Service, send, request_error}
use juicebox_sdk.Session.{ClientRequest, ClientResponse}

-- What was sent to hardware realms, the oldest first, the milliseconds that were slept, and the number
-- of effects so far, which tells moments apart. The calls of software realms count as effects alone.
pub record History : Type 0 where
  pub sent : List ClientRequest
  pub slept : ℕ
  pub moment : ℕ

abbrev pub history : List ClientRequest → ℕ → ℕ → History
history sent slept moment = record { sent = sent; slept = slept; moment = moment }

-- The rest of the world: the random generator, the clock, the token manager, the HTTP client, whose
-- answer may depend on all requests before, and the serialization of the crate ciborium.
pub record Network (F : ScalarField) (K : Crypto F) (S : Suite) : Type 0 where
  pub draw_secret : ℕ → S.Secret
  pub draw_session_id : ℕ → ℕ
  pub now : ℕ → ℕ
  pub auth_token : ℕ → RealmId → Option Bytes
  pub http : List ClientRequest → HttpRequest → Option HttpResponse
  -- The client as a call of a software realm finds it, which is started at a moment, and the text of
  -- the header with a token.
  pub software_http : ℕ → ℕ → HttpRequest → Option HttpResponse
  pub bearer : Bytes → String
  pub join : String → String → Option String
  pub is_success : ℕ → Option Bool
  pub client_request_to_vec : ClientRequest → Outcome String Bytes
  pub client_response_from_slice : Bytes → Outcome String ClientResponse
  pub secrets_request_to_vec : SecretsRequest F K → Outcome String Bytes
  pub padded_response_from_slice : Bytes → Outcome String PaddedSecretsResponse
  pub secrets_response_from_slice : Bytes → Outcome String (SecretsResponse F K)

abbrev pub Call : Type 0 → Type 0 → Type 0
Call E A = History → Outcome E A × History

abbrev pub continue :
    {E A B : Type 0} → Outcome E A × History → (A → Call E B) → Outcome E B × History
continue (ok value, h) next = next value h
continue (err e, h) next = (err e, h)
continue (panic, h) next = (panic, h)

-- The `?` operator.
infixl 5 ◌>>◌ ◌>>=◌
unfoldable pub ◌>>=◌ : {E A B : Type 0} → Call E A → (A → Call E B) → Call E B
call >>= next = λ h. continue (call h) next

abbrev pub ◌>>◌ : {E B : Type 0} → Call E (Unit {0}) → Call E B → Call E B
call >> rest = call >>= λ _. rest

unfoldable pub lift : {E A : Type 0} → Outcome E A → Call E A
lift result h = (result, h)

unfoldable pub convert : {E G A : Type 0} → (E → G) → Call E A → Call G A
convert f call h = let done = call h in (map_err f done.0, done.1)

-- Something that depends on the moment.
unfoldable pub ask : {E A : Type 0} → (ℕ → A) → Call E A
ask answer h = (ok (answer h.moment), history h.sent h.slept (suc h.moment))

unfoldable pub sleep : {E : Type 0} → ℕ → Call E (Unit {0})
sleep milliseconds h = (ok tt, history h.sent (h.slept + milliseconds) (suc h.moment))

module _ (F : ScalarField) (K : Crypto F) (S : Suite) (N : Network F K S) where
  abbrev pub client_service : Service
  client_service = record {
    Request = ClientRequest;
    Response = ClientResponse;
    join = N.join;
    is_success = N.is_success;
    to_vec = N.client_request_to_vec;
    from_slice = N.client_response_from_slice;
  }

  -- `rpc::send` to a hardware realm, with the conversion of its errors.
  unfoldable pub deliver : Realm → ClientRequest → Call RequestError ClientResponse
  deliver realm request h = (
    map_err request_error (send client_service (N.http h.sent) realm.address request),
    history (h.sent ++ (request ∷ [])) h.slept (suc h.moment),
  )
