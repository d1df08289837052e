-- ===== src/Noise/Channel.antt =====
-- The two transports of rust/noise/src/lib.rs at work: a side encrypts messages, which arrive in the
-- order in which they were sent, and the other decrypts them.
use juicebox_sdk.Prelude.{
  ◌<◌, ◌≤◌, ◌≡◌, refl, sym, subst, ◌∙◌, List, [], ◌∷◌, ◌++◌, Bytes, Option, some, inl, inr, panic,
  Outcome, ok,
}
use juicebox_sdk.Noise.{
  Suite, CipherState, Transport, transport, encrypt_with_ad, decrypt_with_ad, transport_encrypt,
  transport_decrypt,
}
use juicebox_sdk.Noise.Nonces.{
  last_nonce, nonce_of, advance, next_nonce-ok, next_nonce-panic, order,
}

pub record Channel : Type 0 where
  pub client_side : Transport
  pub server_side : Transport
  -- The ciphertexts under way, the oldest first.
  pub to_server : List Bytes
  pub to_client : List Bytes

abbrev pub channel : Transport → Transport → List Bytes → List Bytes → Channel
channel c s up down = record { client_side = c; server_side = s; to_server = up; to_client = down }

-- A plaintext is given to the transport, or comes out of it.
pub data Event : Type 0 where
  client_sends server_sends server_reads client_reads : Bytes → Event

module _ (S : Suite) where
  pub data Step : Channel → Event → Channel → Type 0 where
    step_client_sends :
        {c s t : Transport} {up down : List Bytes} (message ciphertext : Bytes)
        → ◌≡◌ {A = Outcome ⊥ (Transport × Option Bytes)}
            (transport_encrypt S c message)
            (ok (t, some ciphertext))
        → Step
            (channel c s up down)
            (client_sends message)
            (channel t s (up ++ (ciphertext ∷ [])) down)
    step_server_sends :
        {c s t : Transport} {up down : List Bytes} (message ciphertext : Bytes)
        → ◌≡◌ {A = Outcome ⊥ (Transport × Option Bytes)}
            (transport_encrypt S s message)
            (ok (t, some ciphertext))
        → Step
            (channel c s up down)
            (server_sends message)
            (channel c t up (down ++ (ciphertext ∷ [])))
    step_server_reads :
        {c s t : Transport} {up down : List Bytes} (message ciphertext : Bytes)
        → ◌≡◌ {A = Outcome ⊥ (Transport × Option Bytes)}
            (transport_decrypt S s ciphertext)
            (ok (t, some message))
        → Step (channel c s (ciphertext ∷ up) down) (server_reads message) (channel c t up down)
    step_client_reads :
        {c s t : Transport} {up down : List Bytes} (message ciphertext : Bytes)
        → ◌≡◌ {A = Outcome ⊥ (Transport × Option Bytes)}
            (transport_decrypt S c ciphertext)
            (ok (t, some message))
        → Step (channel c s up (ciphertext ∷ down)) (client_reads message) (channel t s up down)

  -- What is under way from one cipher to the other: the messages that the ciphertexts stand for, and
  -- counters that are apart by their number.
  abbrev pub InFlight : CipherState → CipherState → List Bytes → List Bytes → Type 0
  InFlight sender receiver [] [] = receiver ≡ sender
  InFlight sender receiver [] (m ∷ ms) = ⊥
  InFlight sender receiver (c ∷ cs) [] = ⊥
  InFlight sender receiver (c ∷ cs) (m ∷ ms) =
      (receiver.nonce < last_nonce)
      × (S.decrypt receiver.key (nonce_of receiver.nonce) c [] ≡ some m)
      × InFlight sender (advance 1 receiver) cs ms

  pub InFlight-send :
      (sender receiver : CipherState) (cs ms : List Bytes) (message ciphertext : Bytes)
      → InFlight sender receiver cs ms
      → sender.nonce < last_nonce
      → S.encrypt sender.key (nonce_of sender.nonce) message [] ≡ some ciphertext
      → InFlight (advance 1 sender) receiver (cs ++ (ciphertext ∷ [])) (ms ++ (message ∷ []))
  InFlight-send sender receiver [] [] message ciphertext h b e =
      subst (λ r. InFlight (advance 1 sender) r (ciphertext ∷ []) (message ∷ [])) (sym h)
        (b, S.decrypt-encrypt sender.key (nonce_of sender.nonce) message [] e, refl)
  InFlight-send sender receiver [] (m ∷ ms) message ciphertext h b e = absurd h
  InFlight-send sender receiver (c ∷ cs) [] message ciphertext h b e = absurd h
  InFlight-send sender receiver (c ∷ cs) (m ∷ ms) message ciphertext h b e =
      (h.0, h.1, InFlight-send sender (advance 1 receiver) cs ms message ciphertext h.2 b e)

  -- What a cipher does below its last counter, and at it.
  pub transport_encrypt-ok :
      {E : Type 0} (t : Transport) (message : Bytes)
      → t.outbound.nonce < last_nonce
      → transport_encrypt S {E = E} t message
        ≡ ok (
          transport t.inbound (advance 1 t.outbound),
          S.encrypt t.outbound.key (nonce_of t.outbound.nonce) message [],
        )
  unfolding transport_encrypt encrypt_with_ad
  transport_encrypt-ok {E = E} t message h = rw (next_nonce-ok {E = E} t.outbound h) refl

  pub transport_decrypt-ok :
      {E : Type 0} (t : Transport) (ciphertext : Bytes)
      → t.inbound.nonce < last_nonce
      → transport_decrypt S {E = E} t ciphertext
        ≡ ok (
          transport (advance 1 t.inbound) t.outbound,
          S.decrypt t.inbound.key (nonce_of t.inbound.nonce) ciphertext [],
        )
  unfolding transport_decrypt decrypt_with_ad
  transport_decrypt-ok {E = E} t ciphertext h = rw (next_nonce-ok {E = E} t.inbound h) refl

  transport_encrypt-panic :
      {E : Type 0} (t : Transport) (message : Bytes)
      → last_nonce ≤ t.outbound.nonce
      → transport_encrypt S {E = E} t message ≡ panic
  unfolding transport_encrypt encrypt_with_ad
  transport_encrypt-panic {E = E} t message h = rw (next_nonce-panic {E = E} t.outbound h) refl

  -- A message that was sent was encrypted with the counter of the sender.
  pub transport_encrypt-sent :
      {E : Type 0} (t t' : Transport) (message ciphertext : Bytes)
      → transport_encrypt S {E = E} t message ≡ ok (t', some ciphertext)
      → (t.outbound.nonce < last_nonce)
        × (t' ≡ transport t.inbound (advance 1 t.outbound))
        × (S.encrypt t.outbound.key (nonce_of t.outbound.nonce) message [] ≡ some ciphertext)
  transport_encrypt-sent {E = E} t t' message ciphertext h =
      elim (order t.outbound.nonce last_nonce) [
        | inl small ↦
            let e = sym h ∙ transport_encrypt-ok {E = E} t message small in (small, cc, cc)
        | inr large ↦ let e = sym h ∙ transport_encrypt-panic {E = E} t message large in cc
      ]
