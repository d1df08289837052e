-- ===== src/Session/Client.antt =====
-- rust/sdk/src/lib.rs: the client builder, and the places for sessions that it makes.
use juicebox_sdk.Prelude.{
  ◌≡◌, inl, inr, refl, sym, ap, ◌∙◌, List, [], ◌∷◌, map, Memᴰ, Bytes, Option, none, some, Outcome,
  ok, panic, ◌>>=◌, >>=-eq-ok, unwrap, if◌then◌else◌, bytes_eq, bytes_eq_iff, Bool-cases,
  ok_injective,
}
use juicebox_sdk.Curve.{ScalarField}
use juicebox_sdk.Crypto.{Crypto}
use juicebox_sdk.Api.{SecretsRequest}
use juicebox_sdk.Realm.{RealmId, Realm}
use juicebox_sdk.Configuration.{Configuration, checked, ids}
use juicebox_sdk.Noise.{Suite}
use juicebox_sdk.Session.{Session}
use juicebox_sdk.Session.Calls.{History, Network}
use juicebox_sdk.Session.Attempts.{make_hardware_realm_request}

abbrev pub no_session : Realm → RealmId × Option Session
no_session realm = (realm.id, none)

-- `HashMap::get`
unfoldable pub session_of : List (RealmId × Option Session) → RealmId → Option (Option Session)
session_of [] id = none
session_of ((key, session) ∷ rest) id = if bytes_eq id key then some session else session_of rest id

module _ (Sleeper Http Atm : Type 0) where
  pub record ClientBuilder : Type 0 where
    pub configuration : Option Configuration
    pub previous_configurations : List Configuration
    pub auth_token_manager : Option Atm
    pub http : Option Http
    pub sleeper : Option Sleeper

  pub record Client : Type 0 where
    pub configuration : Configuration
    pub previous_configurations : List Configuration
    pub auth_token_manager : Atm
    pub http : Http
    pub sleeper : Sleeper
    pub sessions : List (RealmId × Option Session)

  -- `ClientBuilder::new`
  unfoldable pub new_builder : ClientBuilder
  new_builder = record {
    configuration = none;
    previous_configurations = [];
    auth_token_manager = none;
    http = none;
    sleeper = none;
  }

  unfoldable pub with_configuration :
      {E : Type 0} → ClientBuilder → Configuration → Outcome E ClientBuilder
  with_configuration builder configuration = do
    c ← checked configuration
    ok (record builder { configuration = some c })

  abbrev pub all_checked : {E : Type 0} → List Configuration → Outcome E (List Configuration)
  all_checked [] = ok []
  all_checked (c ∷ cs) = do first ← checked c; rest ← all_checked cs; ok (first ∷ rest)

  unfoldable pub with_previous_configurations :
      {E : Type 0} → ClientBuilder → List Configuration → Outcome E ClientBuilder
  with_previous_configurations builder previous = do
    cs ← all_checked previous
    ok (record builder { previous_configurations = cs })

  abbrev pub with_auth_token_manager : ClientBuilder → Atm → ClientBuilder
  with_auth_token_manager builder manager = record builder { auth_token_manager = some manager }

  abbrev pub with_http : ClientBuilder → Http → ClientBuilder
  with_http builder http = record builder { http = some http }

  abbrev pub with_sleeper : ClientBuilder → Sleeper → ClientBuilder
  with_sleeper builder sleeper = record builder { sleeper = some sleeper }

  unfoldable pub build : {E : Type 0} → ClientBuilder → Outcome E Client
  build builder = do
    configuration ← unwrap builder.configuration
    auth_token_manager ← unwrap builder.auth_token_manager
    http ← unwrap builder.http
    sleeper ← unwrap builder.sleeper
    ok (record {
      configuration = configuration;
      previous_configurations = builder.previous_configurations;
      auth_token_manager = auth_token_manager;
      http = http;
      sleeper = sleeper;
      sessions = map no_session configuration.realms;
    })

session_of-no_session :
    (realms : List Realm) (id : RealmId)
    → ¬ Memᴰ id (ids realms)
    → session_of (map no_session realms) id ≡ none
unfolding session_of
session_of-no_session [] id n = refl
session_of-no_session (r ∷ rs) id n = elim (Bool-cases (bytes_eq id r.id)) [
  | inl e ↦ absurd (n (Memᴰ.head ((bytes_eq_iff id r.id).0 e)))
  | inr e ↦ rw e (session_of-no_session rs id (λ m. n (Memᴰ.tail m)))
]

module _ {Sleeper Http Atm : Type 0} where
  build-sessions :
      {E : Type 0} (builder : ClientBuilder Sleeper Http Atm) (client : Client Sleeper Http Atm)
      → build Sleeper Http Atm {E = E} builder ≡ ok client
      → client.sessions ≡ map no_session client.configuration.realms
  unfolding build
  build-sessions builder client h =
      let c = >>=-eq-ok (unwrap builder.configuration) _ h in
      let a = >>=-eq-ok (unwrap builder.auth_token_manager) _ c.2 in
      let t = >>=-eq-ok (unwrap builder.http) _ a.2 in
      let s = >>=-eq-ok (unwrap builder.sleeper) _ t.2 in
      let same = ok_injective s.2 in
      ap (λ k. k.sessions) (sym same) ∙ ap (λ k. map no_session k.configuration.realms) same

  -- A client that was built has sessions for the realms of its current configuration alone: if a request
  -- can be serialized, sending it to a hardware realm whose identifier is not among these, which can be
  -- a realm of a previous configuration, panics before anything is sent.
  pub build-make_hardware_realm_request :
      (builder : ClientBuilder Sleeper Http Atm) (client : Client Sleeper Http Atm)
      (F : ScalarField) (K : Crypto F) (S : Suite) (N : Network F K S) (realm : Realm)
      (public_key bytes : Bytes) (request : SecretsRequest F K) (h : History)
      → build Sleeper Http Atm {E = ⊥} builder ≡ ok client
      → ¬ Memᴰ realm.id (ids client.configuration.realms)
      → N.secrets_request_to_vec request ≡ ok bytes
      → make_hardware_realm_request F K S N realm public_key request
          (session_of client.sessions realm.id)
          h
        ≡ (panic, none, h)
  unfolding make_hardware_realm_request
  build-make_hardware_realm_request builder client F K S N realm public_key bytes request h built n
        e =
      let missing : session_of client.sessions realm.id ≡ none =
        ap (λ m. session_of m realm.id) (build-sessions {E = ⊥} builder client built)
        ∙ session_of-no_session client.configuration.realms realm.id n in
      rw (missing, e) refl
