-- ===== src/Noise/Queues.antt =====
-- The channel of two transports is a pair of queues, one for each direction.
pub mod History
use juicebox_sdk.Prelude.{
  ℕ, ◌<◌, ◌≤◌, ◌≡◌, refl, sym, ap, subst, ◌∙◌, List, [], ◌∷◌, ◌++◌, Bytes, some, Outcome, ok,
  length, Option,
}
use juicebox_sdk.Noise.{
  Suite, CipherState, Transport, transport, transport_encrypt, transport_decrypt,
}
use juicebox_sdk.Noise.Nonces.{last_nonce, nonce_of, advance}
use juicebox_sdk.Noise.Agreement.{payload_limit, Paired}
use juicebox_sdk.Noise.Channel.{
  Channel, channel, Event, client_sends, server_sends, server_reads, client_reads, Step,
  step_client_sends, step_server_sends, step_server_reads, step_client_reads, InFlight,
  InFlight-send, transport_encrypt-ok, transport_decrypt-ok, transport_encrypt-sent,
}

-- The messages under way, the oldest first.
pub record Queues : Type 0 where
  pub to_server : List Bytes
  pub to_client : List Bytes

abbrev pub queues : List Bytes → List Bytes → Queues
queues up down = record { to_server = up; to_client = down }

pub data Move : Queues → Event → Queues → Type 0 where
  move_client_sends :
      {up down : List Bytes} (message : Bytes)
      → Move (queues up down) (client_sends message) (queues (up ++ (message ∷ [])) down)
  move_server_sends :
      {up down : List Bytes} (message : Bytes)
      → Move (queues up down) (server_sends message) (queues up (down ++ (message ∷ [])))
  move_server_reads :
      {up down : List Bytes} (message : Bytes)
      → Move (queues (message ∷ up) down) (server_reads message) (queues up down)
  move_client_reads :
      {up down : List Bytes} (message : Bytes)
      → Move (queues up (message ∷ down)) (client_reads message) (queues up down)

-- A side can send a message within the cipher's limit while its counter is below the last.
abbrev pub CanSend : Transport → Bytes → Type 0
CanSend t message = (t.outbound.nonce < last_nonce) × (length message ≤ payload_limit)

abbrev pub Enabled : Channel → Event → Type 0
Enabled c (client_sends message) = CanSend c.client_side message
Enabled c (server_sends message) = CanSend c.server_side message
Enabled c (server_reads message) = Unit
Enabled c (client_reads message) = Unit

module _ (S : Suite) where
  -- Each direction holds the ciphertexts of the messages of its queue.
  abbrev pub Implements : Channel → Queues → Type 0
  Implements c q =
      InFlight S c.client_side.outbound c.server_side.inbound c.to_server q.to_server
      × InFlight S c.server_side.outbound c.client_side.inbound c.to_client q.to_client

  -- A side that sends puts the ciphertext at the end of its direction.
  pub send_last :
      {E : Type 0} (receiver : CipherState) (t t' : Transport) (ciphertext message : Bytes)
      (cs ms : List Bytes)
      → InFlight S t.outbound receiver cs ms
      → ◌≡◌ {A = Outcome E (Transport × Option Bytes)}
          (transport_encrypt S t message)
          (ok (t', some ciphertext))
      → InFlight S t'.outbound receiver (cs ++ (ciphertext ∷ [])) (ms ++ (message ∷ []))
        × (t.inbound ≡ t'.inbound)
  send_last receiver t t' ciphertext message cs ms h e =
      let sent = transport_encrypt-sent S t t' message ciphertext e in
      let more = InFlight-send S t.outbound receiver cs ms message ciphertext h sent.0 sent.2 in
      (
        subst (λ u. InFlight S u.outbound receiver (cs ++ (ciphertext ∷ [])) (ms ++ (message ∷ [])))
            (sym sent.1) more,
        ap (λ u. u.inbound) (sym sent.1),
      )

  -- What a receiver takes out of its direction is the message at the front of the queue.
  read_front :
      (sender : CipherState) (t t' : Transport) (ciphertext message : Bytes) (cs ms : List Bytes)
      → InFlight S sender t.inbound (ciphertext ∷ cs) ms
      → ◌≡◌ {A = Outcome ⊥ (Transport × Option Bytes)}
          (transport_decrypt S t ciphertext)
          (ok (t', some message))
      → (later : List Bytes) × (message ∷ later ≡ ms)
        × InFlight S sender t'.inbound cs later
        × (t.outbound ≡ t'.outbound)
  read_front sender t t' ciphertext message cs [] h e = absurd h
  read_front sender t t' ciphertext message cs (m ∷ ms) h e =
      let e' = sym e ∙ transport_decrypt-ok S t ciphertext h.0 in
      let d = h.1 in
      let after : t' ≡ transport (advance 1 t.inbound) t.outbound = cc in
      (
        ms,
        cc,
        subst (λ u. InFlight S sender u.inbound cs ms) (sym after) h.2,
        ap (λ u. u.outbound) (sym after),
      )

  -- A read is possible whenever the queue holds a message, and gives it.
  pub read_possible :
      (E : Type 0) (sender : CipherState) (t : Transport) (message : Bytes) (cs ms : List Bytes)
      → InFlight S sender t.inbound cs (message ∷ ms)
      → (ciphertext : Bytes) × (later : List Bytes) × (cs ≡ ciphertext ∷ later)
        × ◌≡◌ {A = Outcome E (Transport × Option Bytes)}
            (transport_decrypt S t ciphertext)
            (ok (transport (advance 1 t.inbound) t.outbound, some message))
        × InFlight S sender (advance 1 t.inbound) later ms
  read_possible E sender t message [] ms h = absurd h
  read_possible E sender t message (c ∷ cs) ms h = (
    c,
    cs,
    refl,
    transport_decrypt-ok S t c h.0
        ∙ ap (λ r. ok (transport (advance 1 t.inbound) t.outbound, r)) h.1,
    h.2,
  )

  -- From a state of the channel that implements the queues, each step of the two transports is the
  -- move of the queues with the same event: a side that sends appends its message to its queue, and
  -- a side that reads gets the message at the front of the other's. The states after them are again
  -- related.
  pub forward_simulation :
      (c : Channel) (q : Queues) (event : Event) (c' : Channel)
      → Implements c q
      → Step S c event c'
      → (q' : Queues) × Move q event q' × Implements c' q'
  forward_simulation c q event c' h
        (step_client_sends {c = c₁} {s = s} {t = t} {up = up} {down = down} m ciphertext e) =
      let sent = send_last s.inbound c₁ t ciphertext m up q.to_server h.0 e in
      (
        queues (q.to_server ++ (m ∷ [])) q.to_client,
        move_client_sends m,
        (sent.0, subst (λ r. InFlight S s.outbound r down q.to_client) sent.1 h.1),
      )
  forward_simulation c q event c' h
        (step_server_sends {c = c₁} {s = s} {t = t} {up = up} {down = down} m ciphertext e) =
      let sent = send_last c₁.inbound s t ciphertext m down q.to_client h.1 e in
      (
        queues q.to_server (q.to_client ++ (m ∷ [])),
        move_server_sends m,
        (subst (λ r. InFlight S c₁.outbound r up q.to_server) sent.1 h.0, sent.0),
      )
  forward_simulation c q event c' h
        (step_server_reads {c = c₁} {s = s} {t = t} {up = up} {down = down} m ciphertext e) =
      let front = read_front c₁.outbound s t ciphertext m up q.to_server h.0 e in
      (
        queues front.0 q.to_client,
        subst (λ ms. Move (queues ms q.to_client) (server_reads m) (queues front.0 q.to_client))
            front.1 (move_server_reads m),
        (front.2, subst (λ u. InFlight S u c₁.inbound down q.to_client) front.3 h.1),
      )
  forward_simulation c q event c' h
        (step_client_reads {c = c₁} {s = s} {t = t} {up = up} {down = down} m ciphertext e) =
      let front = read_front s.outbound c₁ t ciphertext m down q.to_client h.1 e in
      (
        queues q.to_server front.0,
        subst (λ ms. Move (queues q.to_server ms) (client_reads m) (queues q.to_server front.0))
            front.1 (move_client_reads m),
        (subst (λ u. InFlight S u s.inbound up q.to_server) front.3 h.0, front.2),
      )

  -- From a state of the channel that implements the queues, each move of the queues is a step of the
  -- two transports with the same event, to states that are again related, if the side that sends, in
  -- the two events of that kind, has a counter below its last and a message within the limit of the
  -- cipher. So a message at the front of a queue can always be read.
  pub backward_simulation :
      (c : Channel) (q : Queues) (event : Event) (q' : Queues)
      → Implements c q
      → Enabled c event
      → Move q event q'
      → (c' : Channel) × Step S c event c' × Implements c' q'
  backward_simulation c q event q' h k (move_client_sends {up = up} {down = down} m) =
      let t = c.client_side in
      let s = S.encrypt-some t.outbound.key (nonce_of t.outbound.nonce) m [] k.1 in
      let e =
        transport_encrypt-ok S {E = ⊥} t m k.0
        ∙ ap (λ r. ok (transport t.inbound (advance 1 t.outbound), r)) s.1 in
      let t' = transport t.inbound (advance 1 t.outbound) in
      (
        channel t' c.server_side (c.to_server ++ (s.0 ∷ [])) c.to_client,
        step_client_sends m s.0 e,
        (InFlight-send S t.outbound c.server_side.inbound c.to_server up m s.0 h.0 k.0 s.1, h.1),
      )
  backward_simulation c q event q' h k (move_server_sends {up = up} {down = down} m) =
      let t = c.server_side in
      let s = S.encrypt-some t.outbound.key (nonce_of t.outbound.nonce) m [] k.1 in
      let e =
        transport_encrypt-ok S {E = ⊥} t m k.0
        ∙ ap (λ r. ok (transport t.inbound (advance 1 t.outbound), r)) s.1 in
      let t' = transport t.inbound (advance 1 t.outbound) in
      (
        channel c.client_side t' c.to_server (c.to_client ++ (s.0 ∷ [])),
        step_server_sends m s.0 e,
        (h.0, InFlight-send S t.outbound c.client_side.inbound c.to_client down m s.0 h.1 k.0 s.1),
      )
  backward_simulation c q event q' h k (move_server_reads {up = up} {down = down} m) =
      let t = c.server_side in
      let r = read_possible ⊥ c.client_side.outbound t m c.to_server up h.0 in
      let t' = transport (advance 1 t.inbound) t.outbound in
      (
        channel c.client_side t' r.1 c.to_client,
        subst
            (λ cs.
              Step S (channel c.client_side t cs c.to_client) (server_reads m)
                (channel c.client_side t' r.1 c.to_client))
            (sym r.2) (step_server_reads m r.0 r.3),
        (r.4, h.1),
      )
  backward_simulation c q event q' h k (move_client_reads {up = up} {down = down} m) =
      let t = c.client_side in
      let r = read_possible ⊥ c.server_side.outbound t m c.to_client down h.1 in
      let t' = transport (advance 1 t.inbound) t.outbound in
      (
        channel t' c.server_side c.to_server r.1,
        subst
            (λ cs.
              Step S (channel t c.server_side c.to_server cs) (client_reads m)
                (channel t' c.server_side c.to_server r.1))
            (sym r.2) (step_client_reads m r.0 r.3),
        (h.0, r.4),
      )
