-- ===== src/Session/Exchange.antt =====
-- rust/sdk/src/request.rs: a request that needs forward secrecy, from the client to a hardware realm
-- and back, over a session that is opened for it.
use juicebox_sdk.Prelude.{
  ℕ, suc, ◌≡◌, refl, sym, subst, ok_injective, ap, ◌∙◌, true, [], Bytes, Option, none, some,
  Outcome, ok, arith,
}
use juicebox_sdk.Curve.{ScalarField}
use juicebox_sdk.Crypto.{Crypto}
use juicebox_sdk.Api.{SecretsRequest, needs_forward_secrecy}
use juicebox_sdk.Realm.{Realm}
use juicebox_sdk.Noise.{
  Suite, HandshakeRequest, HandshakeResponse, Transport, transport_encrypt, transport_decrypt,
}
use juicebox_sdk.Noise.Client.{ClientHandshake, client_start, client_finish}
use juicebox_sdk.Noise.Server.{ServerHandshake, server_start, server_finish}
use juicebox_sdk.Noise.Agreement.{Paired}
use juicebox_sdk.Session.{
  request_handshake, request_transport, response_handshake, response_transport, handshake_only,
  secrets_request, ClientRequest, response_ok, Session,
}
use juicebox_sdk.Session.Calls.{History, history, Network, lift, convert, ask, ◌>>=◌}
use juicebox_sdk.Session.Requests.{
  RequestErrorOrMissingSession, make_handshake_request, make_transport_request, try_make_request,
}
use juicebox_sdk.Session.Attempts.{
  current_session, round_result, read_padded, hardware_rounds, make_hardware_realm_request,
}
use juicebox_sdk.Session.Sync.{
  message, Answers, after, make_handshake_request-Paired, make_transport_request-Paired,
}

module _ (F : ScalarField) (K : Crypto F) (S : Suite) (N : Network F K S) (realm : Realm) where
  try_make_request-fresh :
      (public_key request reply : Bytes) (h h' h″ : History) (session later : Session)
      → make_handshake_request F K S N realm public_key [] h ≡ (ok (session, []), h')
      → make_transport_request F K S N realm session request h' ≡ (ok (later, reply), h″)
      → try_make_request F K S N realm public_key none request true h ≡ (ok (later, reply), h″)
  unfolding try_make_request ◌>>=◌ lift convert
  try_make_request-fresh public_key request reply h h' h″ session later o u = rw (o, u) refl

  hardware-first :
      (public_key bytes reply : Bytes) (request : SecretsRequest F K) (h h' : History)
      (session : Session)
      → needs_forward_secrecy F K request ≡ true
      → N.secrets_request_to_vec request ≡ ok bytes
      → try_make_request F K S N realm public_key none bytes true
          (history h.sent h.slept (suc h.moment))
        ≡ (ok (session, reply), h')
      → make_hardware_realm_request F K S N realm public_key request (some none) h
        ≡ (read_padded F K S N reply, some session, h')
  unfolding make_hardware_realm_request hardware_rounds current_session round_result ask
  hardware-first public_key bytes reply request h h' session n e tried = rw (n, e, tried) refl

  -- The two messages, and the history between them, from the history before.
  abbrev pub first_message : Bytes → HandshakeRequest → History → ClientRequest
  first_message token fields h =
      message F K S N realm token (N.draw_session_id (suc (suc h.moment))) handshake_only
        (request_handshake fields)

  abbrev pub second_message : Bytes → Bytes → History → ClientRequest
  second_message token ciphertext h =
      message F K S N realm token (N.draw_session_id (suc (suc h.moment))) secrets_request
        (request_transport ciphertext)

  abbrev pub asked_history : History → History
  asked_history h = history h.sent h.slept (suc h.moment)

  abbrev pub opened_history : Bytes → HandshakeRequest → History → History
  opened_history token fields h =
      after F K S N realm (first_message token fields h)
        (suc (suc (suc (suc (suc (suc h.moment)))))) h

  -- A request that needs forward secrecy, to a realm with the static secret `s` for which the client
  -- holds no session: there are tokens, the realm answers the handshake, which holds nothing, with a
  -- reply that holds nothing, and then the transport message with the encryption of its reply. Then
  -- the realm got the serialized request, the result is what the reply deserializes to, and the
  -- session that the client keeps is paired with the realm's transport.
  pub make_hardware_realm_request-Paired :
      (h : History) (s e : S.Secret) (request : SecretsRequest F K)
      (bytes reply token token' ciphertext answer : Bytes) (handshake : ClientHandshake S)
      (fields : HandshakeRequest) (received : ServerHandshake) (got₁ : Bytes) (got₂ : Option Bytes)
      (opening : HandshakeResponse) (lifetime : ℕ) (ours t theirs theirs₁ theirs₂ : Transport)
      → needs_forward_secrecy F K request ≡ true
      → N.secrets_request_to_vec request ≡ ok bytes
      → N.auth_token (suc (suc (suc h.moment))) realm.id ≡ some token
      → client_start S (N.draw_secret (suc h.moment)) (S.public_key s) [] ≡ ok (handshake, fields)
      → server_start S e (s, S.public_key s) fields ≡ ok (received, got₁)
      → server_finish S received [] ≡ ok (theirs, opening)
      → Answers F K S N realm
          (asked_history h)
          (first_message token fields h)
          (response_ok (response_handshake opening lifetime))
      → client_finish S handshake opening ≡ ok (ours, [])
      → N.auth_token (opened_history token fields h).moment realm.id ≡ some token'
      → ◌≡◌ {A = Outcome RequestErrorOrMissingSession (Transport × Option Bytes)}
          (transport_encrypt S ours bytes)
          (ok (t, some ciphertext))
      → ◌≡◌ {A = Outcome ⊥ (Transport × Option Bytes)}
          (transport_decrypt S theirs ciphertext)
          (ok (theirs₁, got₂))
      → ◌≡◌ {A = Outcome ⊥ (Transport × Option Bytes)}
          (transport_encrypt S theirs₁ reply)
          (ok (theirs₂, some answer))
      → Answers F K S N realm
          (asked_history (opened_history token fields h))
          (second_message token' ciphertext h)
          (response_ok (response_transport answer))
      → (session : Session) × (h' : History) × (make_hardware_realm_request F K S N realm
            (S.public_key s)
            request
            (some none)
            h
          ≡ (read_padded F K S N reply, some session, h'))
        × (got₁ ≡ [])
        × (got₂ ≡ some bytes)
        × Paired session.transport theirs₂
  make_hardware_realm_request-Paired h s e request bytes reply token token' ciphertext answer
        handshake fields received got₁ got₂ opening lifetime ours t theirs theirs₁ theirs₂ secret
        serialized token_ok started served ended opens finished token_ok' sent read replied
        answered =
      let o =
        make_handshake_request-Paired F K S N realm (asked_history h) s e [] [] token handshake
          fields received got₁ theirs opening lifetime (omega arith) (omega arith) token_ok started
          served ended opens in
      let same : ours ≡ o.0.transport = ap (λ p. p.0) (ok_injective (sym finished ∙ o.7)) in
      let u =
        make_transport_request-Paired F K S N realm (opened_history token fields h) o.0 bytes reply
          token' ciphertext answer got₂ t theirs theirs₁ theirs₂ o.4 token_ok'
          (ap (λ tr. transport_encrypt S tr bytes) (sym same) ∙ sent) read replied
          (subst
            (λ id.
              Answers F K S N realm (asked_history (opened_history token fields h))
                (message F K S N realm token' id secrets_request (request_transport ciphertext))
                (response_ok (response_transport answer)))
            (sym o.6) answered) in
      let tried =
        try_make_request-fresh (S.public_key s) bytes reply (asked_history h)
          (opened_history token fields h) u.1 o.0 u.0 (o.2 ∙ ap (λ k. (ok (o.0, []), k)) o.8) u.2 in
      (
        u.0,
        u.1,
        hardware-first (S.public_key s) bytes reply request h u.1 u.0 secret serialized tried,
        o.3,
        u.3,
        u.4,
      )
