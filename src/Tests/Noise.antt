-- ===== src/Tests/Noise.antt =====
-- The Noise handshake and the transports over a small suite, in which a secret is a number, two of
-- them share their sum, and a ciphertext is the message after the nonce.
use juicebox_sdk.Prelude.{
  ℕ, ◌+◌, ◌<◌, ◌≤◌, ◌≡◌, refl, ap, List, [], ◌∷◌, ◌++◌, Bytes, Option, some, none, ok, length, take,
  drop, replicate, length-replicate, arith, ◌⊎◌, Distinct, panic, ◌==◌, ==_iff, if◌then◌else◌,
}
use juicebox_sdk.Noise.{
  Suite, CipherState, cipher_state, Transport, transport, next_nonce, transport_encrypt,
  transport_decrypt, encrypt_with_ad, decrypt_with_ad,
}
use juicebox_sdk.Noise.Agreement.{Handshakes, Paired, handshake_agreement}
use juicebox_sdk.Noise.Nonces.{last_nonce, nonces, advance, nonces_cases}
use juicebox_sdk.Noise.Channel.{
  Channel, channel, Event, client_sends, server_reads, server_sends, Step, step_client_sends,
  step_server_reads,
}
use juicebox_sdk.Noise.Queues.{
  Queues, queues, Move, move_server_sends, Implements, forward_simulation, backward_simulation,
}
use juicebox_sdk.Noise.Queues.History.{run_none, run_step, in_order_delivery}

abbrev first_byte : Bytes → ℕ
first_byte [] = 0
first_byte (b ∷ bs) = b

-- The cipher marks a message with a byte for the key and the counter, and refuses other marks.
abbrev tag : Bytes → Bytes → ℕ
tag key nonce = first_byte key + first_byte (drop 4 nonce)

abbrev opened : ℕ → Bytes → Option Bytes
opened t [] = none
opened t (b ∷ bs) = if b == t then some bs else none

pub opened-sealed :
    (t : ℕ) (msg : Bytes) {ciphertext : Bytes}
    → ◌≡◌ {A = Option Bytes} (some (t ∷ msg)) (some ciphertext)
    → opened t ciphertext ≡ some msg
opened-sealed t msg {ciphertext = []} h = cc
opened-sealed t msg {ciphertext = b ∷ bs} h =
    let same : b ≡ t = cc in let rest : bs ≡ msg = cc in rw ((==_iff b t).1 same) (ap some rest)

pub sum_comm : (a b : ℕ) → (a + b) ∷ [] ≡ (b + a) ∷ []
sum_comm a b = ap (λ n. n ∷ []) (omega arith)

abbrev pub small_suite : Suite
small_suite = record {
  Secret = ℕ;
  public_key = λ secret. secret ∷ replicate 31 0;
  diffie_hellman = λ secret public. (secret + first_byte public) ∷ [];
  length-public_key = λ secret. refl;
  diffie_hellman_comm = λ a b. sum_comm a b;
  blake2s256 = λ bytes. take 32 (bytes ++ replicate 32 0);
  hkdf = λ salt ikm size. some (replicate size (length salt + first_byte ikm));
  hkdf-some = λ salt ikm size small. (
    replicate size (length salt + first_byte ikm),
    refl,
    length-replicate size (length salt + first_byte ikm),
  );
  encrypt = λ key nonce msg aad. some (tag key nonce ∷ msg);
  decrypt = λ key nonce ciphertext aad. opened (tag key nonce) ciphertext;
  encrypt-some = λ key nonce msg aad small. (tag key nonce ∷ msg, refl);
  decrypt-encrypt = λ key nonce msg aad h. opened-sealed (tag key nonce) msg h;
}

abbrev key_of : ℕ → Bytes
key_of n = replicate 32 n

abbrev cipher : ℕ → ℕ → CipherState
cipher key nonce = cipher_state (key_of key) nonce

abbrev ours : Transport
ours = transport (cipher 1 0) (cipher 2 4)

abbrev theirs : Transport
theirs = transport (cipher 2 4) (cipher 1 0)

abbrev message : Bytes
message = 8 ∷ 9 ∷ []

abbrev ciphertext : Bytes
ciphertext = 6 ∷ 8 ∷ 9 ∷ []

abbrev before : Channel
before = channel ours theirs [] []

abbrev sent : Channel
sent = channel (transport (cipher 1 0) (cipher 2 5)) theirs (ciphertext ∷ []) []

abbrev received : Channel
received = channel (transport (cipher 1 0) (cipher 2 5)) (transport (cipher 2 5) (cipher 1 0)) [] []

sends : Step small_suite before (client_sends message) sent
unfolding transport_encrypt encrypt_with_ad next_nonce
sends = step_client_sends message ciphertext refl

reads : Step small_suite sent (server_reads message) received
unfolding transport_decrypt decrypt_with_ad next_nonce
reads = step_server_reads message ciphertext refl

abbrev events : List Event
events = client_sends message ∷ server_reads message ∷ []

handshake_agreement_example :
    (mine other : Transport) × Handshakes small_suite 3 5 7 [] message [] mine other
    × Paired mine other
    × (mine.inbound.nonce ≡ 0)
    × (mine.outbound.nonce ≡ 0)
handshake_agreement_example =
    handshake_agreement small_suite 3 5 7 [] message [] (omega arith) (omega arith)

nonces_cases_example :
    ((last_nonce + 0 ≤ last_nonce)
      × (drawn : List Bytes) × (nonces {E = ⊥} 0 (cipher 1 last_nonce)
          ≡ ok (advance 0 (cipher 1 last_nonce), drawn))
      × (length drawn ≡ 0)
      × Distinct drawn)
    ⊎ ((last_nonce < last_nonce + 0) × (nonces {E = ⊥} 0 (cipher 1 last_nonce) ≡ panic))
nonces_cases_example = nonces_cases {E = ⊥} 0 (cipher 1 last_nonce) (omega arith)

forward_simulation_example :
    (q' : Queues) × Move (queues [] []) (client_sends message) q' × Implements small_suite sent q'
forward_simulation_example =
    forward_simulation small_suite before (queues [] []) (client_sends message) sent (refl, refl)
      sends

backward_simulation_example :
    (c' : Channel) × Step small_suite before (server_sends message) c'
    × Implements small_suite c' (queues [] (message ∷ []))
backward_simulation_example =
    backward_simulation small_suite before (queues [] []) (server_sends message)
      (queues [] (message ∷ [])) (refl, refl) (omega arith, omega arith) (move_server_sends message)

in_order_delivery_example :
    (up down : List Bytes) × (message ∷ [] ≡ message ∷ up)
    × ([] ≡ down)
    × Implements small_suite received (queues up down)
in_order_delivery_example =
    in_order_delivery small_suite ours theirs events received (refl, refl)
      (run_step sends (run_step reads run_none))
