-- ===== src/Tests/Sessions.antt =====
-- A hardware realm that opens a session and answers over it.
use juicebox_sdk.Prelude.{
  ℕ, ◌*◌, ◌≡◌, refl, List, [], ◌∷◌, map, Memᴰ, Bytes, Outcome, ok, panic, Option, some, none, true,
  replicate, take, arith,
}
use juicebox_sdk.Api.{SecretsRequest, recover3, needs_forward_secrecy, delete_response, delete_ok}
use juicebox_sdk.Configuration.{ids}
use juicebox_sdk.Noise.{
  HandshakeRequest, handshake_request, HandshakeResponse, handshake_response, Transport, transport,
  cipher_state, protocol_name, transport_encrypt, transport_decrypt, encrypt_with_ad,
  decrypt_with_ad, next_nonce, new_handshake_hash, hkdf_pair, mix_key, split,
}
use juicebox_sdk.Noise.Client.{
  ClientHandshake, client_handshake, client_start, client_start_with_secret, client_finish,
}
use juicebox_sdk.Noise.Server.{
  ServerHandshake, server_handshake, server_start, server_start_with_secret, server_finish,
}
use juicebox_sdk.Noise.Agreement.{Paired}
use juicebox_sdk.Rpc.{HttpRequest, HttpResponse, send, send_with_options, read_response}
use juicebox_sdk.Session.{
  Session, ClientRequest, ClientResponse, response_ok, response_handshake, response_transport,
  handshake_only, secrets_request, request_handshake, request_transport,
}
use juicebox_sdk.Session.Calls.{History, history, Network}
use juicebox_sdk.Session.Requests.{
  RequestErrorOrMissingSession, make_handshake_request, make_transport_request,
}
use juicebox_sdk.Session.Attempts.{read_padded, make_hardware_realm_request}
use juicebox_sdk.Session.Client.{
  ClientBuilder, Client, build, session_of, no_session, build-make_hardware_realm_request,
}
use juicebox_sdk.Session.Log.{Logged}
use juicebox_sdk.Session.Secrecy.{Shields, early_payload, cost, make_hardware_realm_request-Logged}
use juicebox_sdk.Session.Sync.{
  message, Answers, after, make_handshake_request-Paired, make_transport_request-Paired,
}
use juicebox_sdk.Session.Exchange.{make_hardware_realm_request-Paired}
use juicebox_sdk.Tests.Five.{five}
use juicebox_sdk.Tests.Bench.{bench}
use juicebox_sdk.Tests.Noise.{small_suite}
use juicebox_sdk.Tests.Setups.{configuration, realm}

-- The realm's static and ephemeral secrets are 5 and 7, the client's secret is 3.
abbrev key : ℕ → Bytes
key n = replicate 32 n

abbrev public : ℕ → Bytes
public n = n ∷ replicate 31 0

abbrev bytes : Bytes
bytes = 4 ∷ 2 ∷ []

abbrev reply : Bytes
reply = 6 ∷ []

abbrev hash : Bytes
hash = take 32 protocol_name

abbrev handshake : ClientHandshake small_suite
handshake = client_handshake 3 hash (key 40)

abbrev fields : HandshakeRequest
fields = handshake_request (public 3) (40 ∷ [])

abbrev received : ServerHandshake
received = server_handshake (cipher_state (key 42) 0) hash (key 42) (public 7)

abbrev opening : HandshakeResponse
opening = handshake_response (public 7) (42 ∷ [])

-- A transport after so many messages in and out.
abbrev after_messages : ℕ → ℕ → Transport
after_messages received sent =
    transport (cipher_state (key 32) received) (cipher_state (key 32) sent)

started : client_start small_suite 3 (public 5) [] ≡ ok (handshake, fields)
unfolding client_start_with_secret new_handshake_hash mix_key hkdf_pair encrypt_with_ad next_nonce
started = refl

served : server_start small_suite 7 (5, public 5) fields ≡ ok (received, [])
unfolding server_start_with_secret new_handshake_hash mix_key hkdf_pair decrypt_with_ad next_nonce
served = refl

ended : server_finish small_suite received [] ≡ ok (after_messages 0 0, opening)
unfolding server_finish split hkdf_pair encrypt_with_ad next_nonce
ended = refl

finished : client_finish small_suite handshake opening ≡ ok (after_messages 0 0, [])
unfolding client_finish split mix_key hkdf_pair decrypt_with_ad next_nonce
finished = refl

abbrev ciphertext : Bytes
ciphertext = 32 ∷ bytes

abbrev answer : Bytes
answer = 32 ∷ reply

sent :
    ◌≡◌ {A = Outcome RequestErrorOrMissingSession (Transport × Option Bytes)}
      (transport_encrypt small_suite (after_messages 0 0) bytes)
      (ok (after_messages 0 1, some ciphertext))
unfolding transport_encrypt encrypt_with_ad next_nonce
sent = refl

read :
    ◌≡◌ {A = Outcome ⊥ (Transport × Option Bytes)}
      (transport_decrypt small_suite (after_messages 0 0) ciphertext)
      (ok (after_messages 1 0, some bytes))
unfolding transport_decrypt decrypt_with_ad next_nonce
read = refl

replied :
    ◌≡◌ {A = Outcome ⊥ (Transport × Option Bytes)}
      (transport_encrypt small_suite (after_messages 1 0) reply)
      (ok (after_messages 1 1, some answer))
unfolding transport_encrypt encrypt_with_ad next_nonce
replied = refl

-- The first answer is the handshake's, all others are the transport's.
abbrev http : List ClientRequest → HttpRequest → Option HttpResponse
http [] request = some (record { status_code = 200; headers = []; body = [] })
http (r ∷ rs) request = some (record { status_code = 200; headers = []; body = 1 ∷ [] })

abbrev decoded : Bytes → ClientResponse
decoded [] = response_ok (response_handshake opening 1000)
decoded (b ∷ bs) = response_ok (response_transport answer)

abbrev network : Network five bench small_suite
network = record {
  draw_secret = λ moment. 3;
  draw_session_id = λ moment. 9;
  now = λ moment. moment;
  auth_token = λ moment id. some (7 ∷ []);
  http = http;
  software_http = λ moment calls request. none;
  bearer = λ token. "Bearer";
  join = λ base path. some base;
  is_success = λ code. some true;
  client_request_to_vec = λ request. ok [];
  client_response_from_slice = λ body. ok (decoded body);
  secrets_request_to_vec = λ request. ok bytes;
  padded_response_from_slice = λ body. ok (record { unpadded_length = 1; padded_bytes = body });
  secrets_response_from_slice = λ body. ok (delete_response delete_ok);
}

abbrev request : SecretsRequest five bench
request = recover3 (record { version = []; unlock_key_tag = 1 ∷ [] })

secret : needs_forward_secrecy five bench request ≡ true
unfolding needs_forward_secrecy
secret = refl

abbrev opened : Session
opened = record { session_id = 9; transport = after_messages 0 0; lifetime = 1000; last_used = 4 }

first_answer :
    (h : History) (r : ClientRequest)
    → h.sent ≡ []
    → Answers five bench small_suite network
        (realm 1)
        h
        r
        (response_ok (response_handshake opening 1000))
unfolding send send_with_options read_response
first_answer h r e = rw e refl

later_answer :
    (h : History) (r : ClientRequest) (before : ClientRequest)
    → h.sent ≡ before ∷ []
    → Answers five bench small_suite network (realm 1) h r (response_ok (response_transport answer))
unfolding send send_with_options read_response
later_answer h r before e = rw e refl

abbrev start : History
start = history [] 0 0

abbrev hello : ClientRequest
hello =
    message five bench small_suite network (realm 1) (7 ∷ []) 9 handshake_only
      (request_handshake fields)

make_handshake_request-Paired_example :
    (session : Session) × (h' : History) × (make_handshake_request five bench small_suite network
        (realm 1)
        (public 5)
        []
        start
      ≡ (ok (session, []), h'))
    × (◌≡◌ {A = Bytes} [] [])
    × Paired session.transport (after_messages 0 0)
    × (session.lifetime ≡ 1000)
    × (session.session_id ≡ 9)
    × (client_finish small_suite handshake opening ≡ ok (session.transport, []))
    × (h' ≡ after five bench small_suite network (realm 1) hello 5 start)
make_handshake_request-Paired_example =
    make_handshake_request-Paired five bench small_suite network (realm 1) start 5 7 [] [] (7 ∷ [])
      handshake fields received [] (after_messages 0 0) opening 1000 (omega arith) (omega arith)
      refl started served ended (first_answer start hello refl)

make_transport_request-Paired_example :
    (later : Session) × (h' : History) × (make_transport_request five bench small_suite network
        (realm 1)
        opened
        bytes
        (history (hello ∷ []) 0 5)
      ≡ (ok (later, reply), h'))
    × (◌≡◌ {A = Option Bytes} (some bytes) (some bytes))
    × Paired later.transport (after_messages 1 1)
    × (later.session_id ≡ 9)
make_transport_request-Paired_example =
    make_transport_request-Paired five bench small_suite network (realm 1)
      (history (hello ∷ []) 0 5) opened bytes reply (7 ∷ []) ciphertext answer (some bytes)
      (after_messages 0 1) (after_messages 0 0) (after_messages 1 0) (after_messages 1 1)
      (refl, refl) refl sent read replied
      (later_answer (history (hello ∷ []) 0 6)
        (message five bench small_suite network (realm 1) (7 ∷ []) 9 secrets_request
          (request_transport ciphertext))
        hello refl)

make_hardware_realm_request-Paired_example :
    (session : Session) × (h' : History) × (make_hardware_realm_request five bench small_suite
        network
        (realm 1)
        (public 5)
        request
        (some none)
        start
      ≡ (read_padded five bench small_suite network reply, some session, h'))
    × (◌≡◌ {A = Bytes} [] [])
    × (◌≡◌ {A = Option Bytes} (some bytes) (some bytes))
    × Paired session.transport (after_messages 1 1)
make_hardware_realm_request-Paired_example =
    make_hardware_realm_request-Paired five bench small_suite network (realm 1) start 5 7 request
      bytes reply (7 ∷ []) (7 ∷ []) ciphertext answer handshake fields received [] (some bytes)
      opening 1000 (after_messages 0 0) (after_messages 0 1) (after_messages 0 0)
      (after_messages 1 0) (after_messages 1 1) secret refl refl started served ended
      (first_answer (history [] 0 1) hello refl) finished refl sent read replied
      (later_answer (history (hello ∷ []) 0 7)
        (message five bench small_suite network (realm 1) (7 ∷ []) 9 secrets_request
          (request_transport ciphertext))
        hello refl)

make_hardware_realm_request-Logged_example :
    Logged
      (Shields five bench small_suite network
        (realm 1)
        (public 5)
        (early_payload (needs_forward_secrecy five bench request) bytes)
        bytes)
      (5 * cost (needs_forward_secrecy five bench request))
      75
      start
      (make_hardware_realm_request five bench small_suite network
        (realm 1)
        (public 5)
        request
        (some none)
        start).2
make_hardware_realm_request-Logged_example =
    make_hardware_realm_request-Logged five bench small_suite network (realm 1) (public 5) request
      bytes (some none) start refl

abbrev builder : ClientBuilder ℕ ℕ ℕ
builder = record {
  configuration = some configuration;
  previous_configurations = [];
  auth_token_manager = some 1;
  http = some 2;
  sleeper = some 3;
}

abbrev client : Client ℕ ℕ ℕ
client = record {
  configuration = configuration;
  previous_configurations = [];
  auth_token_manager = 1;
  http = 2;
  sleeper = 3;
  sessions = map no_session configuration.realms;
}

built : ◌≡◌ {A = Outcome ⊥ (Client ℕ ℕ ℕ)} (build ℕ ℕ ℕ builder) (ok client)
unfolding build
built = refl

absent : ¬ Memᴰ (realm 4).id (ids configuration.realms)
absent (Memᴰ.head e) = cc
absent (Memᴰ.tail (Memᴰ.head e)) = cc
absent (Memᴰ.tail (Memᴰ.tail (Memᴰ.head e))) = cc
absent (Memᴰ.tail (Memᴰ.tail (Memᴰ.tail m))) = elim m [ ]

build-make_hardware_realm_request_example :
    make_hardware_realm_request five bench small_suite network
      (realm 4)
      (public 5)
      request
      (session_of client.sessions (realm 4).id)
      start
    ≡ (panic, none, start)
build-make_hardware_realm_request_example =
    build-make_hardware_realm_request builder client five bench small_suite network (realm 4)
      (public 5) bytes request start built absent refl
