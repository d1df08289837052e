-- ===== src/Session/Sync.antt =====
-- A session of rust/sdk/src/request.rs and the transport that the realm keeps for it, with a realm
-- that answers as rust/noise/src/server.rs does.
use juicebox_sdk.Prelude.{
  ℕ, suc, ◌≤◌, ◌≡◌, refl, sym, [], ◌∷◌, ◌++◌, Bytes, Option, some, Outcome, ok, ==_iff, length,
}
use juicebox_sdk.Curve.{ScalarField}
use juicebox_sdk.Crypto.{Crypto}
use juicebox_sdk.Realm.{Realm}
use juicebox_sdk.Rpc.{send}
use juicebox_sdk.Noise.{
  Suite, HandshakeRequest, HandshakeResponse, Transport, transport_encrypt, transport_decrypt,
}
use juicebox_sdk.Noise.Client.{ClientHandshake, client_start, client_finish}
use juicebox_sdk.Noise.Server.{ServerHandshake, server_start, server_finish}
use juicebox_sdk.Noise.Agreement.{Paired, payload_limit}
use juicebox_sdk.Noise.Delivery.{deliverable, delivered, handshake_delivered}
use juicebox_sdk.Session.{
  NoiseRequest, request_handshake, request_transport, response_handshake, response_transport,
  ClientRequest, ClientRequestKind, secrets_request, ClientResponse, response_ok, Session,
}
use juicebox_sdk.Session.Calls.{
  History, history, Network, lift, convert, ask, ◌>>=◌, deliver, client_service,
}
use juicebox_sdk.Session.Requests.{
  RequestErrorOrMissingSession, kind_of, opened_session, make_handshake_request, used_session,
  make_transport_request,
}

module _ (F : ScalarField) (K : Crypto F) (S : Suite) (N : Network F K S) (realm : Realm) where
  -- The message of a request.
  abbrev pub message : Bytes → ℕ → ClientRequestKind → NoiseRequest → ClientRequest
  message token session_id kind encrypted = record {
    realm = realm.id;
    auth_token = token;
    session_id = session_id;
    kind = kind;
    encrypted = encrypted;
  }

  -- What comes back for a message when so much has happened.
  abbrev pub Answers : History → ClientRequest → ClientResponse → Type 0
  Answers h sent response =
      send (client_service F K S N) (N.http h.sent) realm.address sent ≡ ok response

  -- The history after a message and so many moments.
  abbrev pub after : ClientRequest → ℕ → History → History
  after sent moment h = history (h.sent ++ (sent ∷ [])) h.slept moment

  opened :
      (h : History) (public_key payload reply token : Bytes) (handshake : ClientHandshake S)
      (fields : HandshakeRequest) (answer : HandshakeResponse) (lifetime : ℕ) (ours : Transport)
      → length public_key ≡ 32
      → N.auth_token (suc (suc h.moment)) realm.id ≡ some token
      → client_start S (N.draw_secret h.moment) public_key payload ≡ ok (handshake, fields)
      → let sent =
          message token
            (N.draw_session_id (suc h.moment))
            (kind_of payload)
            (request_handshake fields) in
        Answers h sent (response_ok (response_handshake answer lifetime))
        → client_finish S handshake answer ≡ ok (ours, reply)
        → make_handshake_request F K S N realm public_key payload h ≡ (
          ok (
            record {
              session_id = N.draw_session_id (suc h.moment);
              transport = ours;
              lifetime = lifetime;
              last_used = N.now (suc (suc (suc (suc h.moment))));
            },
            reply,
          ),
          after sent (suc (suc (suc (suc (suc h.moment))))) h,
        )
  unfolding make_handshake_request opened_session ◌>>=◌ lift ask deliver
  opened h public_key payload reply token handshake fields answer lifetime ours l t started answered
        finished =
      rw ((==_iff (length public_key) 32).1 l, started, t, answered, finished) refl

  -- A handshake request with a payload within the cipher's limit gets the realm's reply, and a session
  -- whose transport is paired with the realm's, if there is a token, and if the answer is what a realm
  -- with the static secret `s` makes of the message that is sent, with a reply within the limit. The
  -- realm got the payload.
  pub make_handshake_request-Paired :
      (h : History) (s e : S.Secret) (payload reply token : Bytes) (handshake : ClientHandshake S)
      (fields : HandshakeRequest) (received : ServerHandshake) (got : Bytes) (theirs : Transport)
      (answer : HandshakeResponse) (lifetime : ℕ)
      → length payload ≤ payload_limit
      → length reply ≤ payload_limit
      → N.auth_token (suc (suc h.moment)) realm.id ≡ some token
      → client_start S (N.draw_secret h.moment) (S.public_key s) payload ≡ ok (handshake, fields)
      → server_start S e (s, S.public_key s) fields ≡ ok (received, got)
      → server_finish S received reply ≡ ok (theirs, answer)
      → Answers h
          (message token
            (N.draw_session_id (suc h.moment))
            (kind_of payload)
            (request_handshake fields))
          (response_ok (response_handshake answer lifetime))
      → (session : Session) × (h' : History) × (make_handshake_request F K S N realm
            (S.public_key s)
            payload
            h
          ≡ (ok (session, reply), h'))
        × (got ≡ payload)
        × Paired session.transport theirs
        × (session.lifetime ≡ lifetime)
        × (session.session_id ≡ N.draw_session_id (suc h.moment))
        × (client_finish S handshake answer ≡ ok (session.transport, reply))
        × (h'
            ≡ after
                (message token
                  (N.draw_session_id (suc h.moment))
                  (kind_of payload)
                  (request_handshake fields))
                (suc (suc (suc (suc (suc h.moment)))))
                h)
  make_handshake_request-Paired h s e payload reply token handshake fields received got theirs
        answer lifetime small₁ small₂ t started served finished answered =
      let d =
        handshake_delivered S (N.draw_secret h.moment) s e payload reply handshake fields received
          got theirs answer small₁ small₂ started served finished in
      (
        record {
          session_id = N.draw_session_id (suc h.moment);
          transport = d.0;
          lifetime = lifetime;
          last_used = N.now (suc (suc (suc (suc h.moment))));
        },
        after
            (message token (N.draw_session_id (suc h.moment)) (kind_of payload)
              (request_handshake fields))
            (suc (suc (suc (suc (suc h.moment))))) h,
        opened h (S.public_key s) payload reply token handshake fields answer lifetime d.0
            (S.length-public_key s) t started answered d.1,
        d.2,
        d.3,
        refl,
        refl,
        d.1,
        refl,
      )

  used :
      (h : History) (session : Session) (request reply token ciphertext answer : Bytes)
      (t t' : Transport)
      → N.auth_token h.moment realm.id ≡ some token
      → ◌≡◌ {A = Outcome RequestErrorOrMissingSession (Transport × Option Bytes)}
          (transport_encrypt S session.transport request)
          (ok (t, some ciphertext))
      → Answers
          (history h.sent h.slept (suc h.moment))
          (message token session.session_id secrets_request (request_transport ciphertext))
          (response_ok (response_transport answer))
      → ◌≡◌ {A = Outcome RequestErrorOrMissingSession (Transport × Option Bytes)}
          (transport_decrypt S t answer)
          (ok (t', some reply))
      → make_transport_request F K S N realm session request h ≡ (
        ok (
          record {
            session_id = session.session_id;
            transport = t';
            lifetime = session.lifetime;
            last_used = N.now (suc (suc h.moment));
          },
          reply,
        ),
        after
            (message token session.session_id secrets_request (request_transport ciphertext))
            (suc (suc (suc h.moment)))
            h,
      )
  unfolding make_transport_request used_session ◌>>=◌ lift ask convert deliver
  used h session request reply token ciphertext answer t t' k e answered d =
      rw (k, e, answered, d) refl

  -- A session whose transport is paired with the realm's gets the realm's reply to a request, and is
  -- paired with it again, if there is a token, the request is encrypted, and the answer is the
  -- encryption of the reply by the realm's transport, which has decrypted the message before. The
  -- realm got the request.
  pub make_transport_request-Paired :
      (h : History) (session : Session) (request reply token ciphertext answer : Bytes)
      (got : Option Bytes) (t theirs theirs₁ theirs₂ : Transport)
      → Paired session.transport theirs
      → N.auth_token h.moment realm.id ≡ some token
      → ◌≡◌ {A = Outcome RequestErrorOrMissingSession (Transport × Option Bytes)}
          (transport_encrypt S session.transport request)
          (ok (t, some ciphertext))
      → ◌≡◌ {A = Outcome ⊥ (Transport × Option Bytes)}
          (transport_decrypt S theirs ciphertext)
          (ok (theirs₁, got))
      → ◌≡◌ {A = Outcome ⊥ (Transport × Option Bytes)}
          (transport_encrypt S theirs₁ reply)
          (ok (theirs₂, some answer))
      → Answers
          (history h.sent h.slept (suc h.moment))
          (message token session.session_id secrets_request (request_transport ciphertext))
          (response_ok (response_transport answer))
      → (later : Session) × (h' : History) × (make_transport_request F K S N realm session request h
          ≡ (ok (later, reply), h'))
        × (got ≡ some request)
        × Paired later.transport theirs₂
        × (later.session_id ≡ session.session_id)
  make_transport_request-Paired h session request reply token ciphertext answer got t theirs theirs₁
        theirs₂ paired k sent read replied answered =
      let there =
        delivered S {E = RequestErrorOrMissingSession} {G = ⊥} session.transport theirs t theirs₁
          request ciphertext got paired sent read in
      let back =
        deliverable S {E = ⊥} RequestErrorOrMissingSession theirs₁ t theirs₂ reply answer
          (sym there.1.1, sym there.1.0) replied in
      (
        record {
          session_id = session.session_id;
          transport = back.0;
          lifetime = session.lifetime;
          last_used = N.now (suc (suc h.moment));
        },
        after (message token session.session_id secrets_request (request_transport ciphertext))
            (suc (suc (suc h.moment))) h,
        used h session request reply token ciphertext answer t back.0 k sent answered back.1,
        there.0,
        (sym back.2.1, sym back.2.0),
        refl,
      )
