-- ===== src/Noise/Delivery.antt =====
-- One message, from a transport to the transport that it is paired with, and one handshake.
use juicebox_sdk.Prelude.{
  ◌≤◌, ◌≡◌, sym, ap, subst, ◌∙◌, [], ◌∷◌, Bytes, Option, some, ok, ok_injective, length,
}
use juicebox_sdk.Noise.{
  Suite, HandshakeRequest, HandshakeResponse, Transport, transport, transport_encrypt,
  transport_decrypt,
}
use juicebox_sdk.Noise.Nonces.{advance}
use juicebox_sdk.Noise.Client.{ClientHandshake, client_start, client_finish}
use juicebox_sdk.Noise.Server.{ServerHandshake, server_start, server_finish}
use juicebox_sdk.Noise.Agreement.{Paired, payload_limit, handshake_agreement}
use juicebox_sdk.Noise.Channel.{InFlight}
use juicebox_sdk.Noise.Queues.{send_last, read_possible}

module _ (S : Suite) where
  -- What a side encrypts, the other can read, and then they are paired again.
  pub deliverable :
      {E : Type 0} (G : Type 0) (a b a' : Transport) (message ciphertext : Bytes)
      → Paired a b
      → transport_encrypt S {E = E} a message ≡ ok (a', some ciphertext)
      → (b' : Transport) × (transport_decrypt S {E = G} b ciphertext ≡ ok (b', some message))
        × Paired a' b'
  deliverable {E = E} G a b a' message ciphertext paired e =
      let sent = send_last S {E = E} b.inbound a a' ciphertext message [] [] (sym paired.1) e in
      let read = read_possible S G a'.outbound b message (ciphertext ∷ []) [] sent.0 in
      let same : ciphertext ≡ read.0 = let o = read.2 in cc in
      let empty : read.1 ≡ [] = let o = read.2 in cc in
      let b' = transport (advance 1 b.inbound) b.outbound in
      let last : advance 1 b.inbound ≡ a'.outbound =
        subst (λ cs. InFlight S a'.outbound (advance 1 b.inbound) cs []) empty read.4 in
      (b', ap (transport_decrypt S {E = G} b) same ∙ read.3, (sym sent.1 ∙ paired.0, sym last))

  pub delivered :
      {E G : Type 0} (a b a' b' : Transport) (message ciphertext : Bytes) (got : Option Bytes)
      → Paired a b
      → transport_encrypt S {E = E} a message ≡ ok (a', some ciphertext)
      → transport_decrypt S {E = G} b ciphertext ≡ ok (b', got)
      → (got ≡ some message) × Paired a' b'
  delivered {E = E} {G = G} a b a' b' message ciphertext got paired e d =
      let can = deliverable {E = E} G a b a' message ciphertext paired e in
      let both = ok_injective (sym can.1 ∙ d) in
      (sym (ap (λ p. p.1) both), subst (Paired a') (ap (λ p. p.0) both) can.2)

  -- The steps of a handshake, taken with a server that got what the client sent, end in paired
  -- transports, and the client reads the reply.
  pub handshake_delivered :
      (c s e : S.Secret) (payload reply : Bytes) (handshake : ClientHandshake S)
      (fields : HandshakeRequest) (received : ServerHandshake) (got : Bytes) (theirs : Transport)
      (answer : HandshakeResponse)
      → length payload ≤ payload_limit
      → length reply ≤ payload_limit
      → client_start S c (S.public_key s) payload ≡ ok (handshake, fields)
      → server_start S e (s, S.public_key s) fields ≡ ok (received, got)
      → server_finish S received reply ≡ ok (theirs, answer)
      → (ours : Transport) × (client_finish S handshake answer ≡ ok (ours, reply))
        × (got ≡ payload)
        × Paired ours theirs
  handshake_delivered c s e payload reply handshake fields received got theirs answer small₁ small₂
        started served finished =
      let agreed = handshake_agreement S c s e [] payload reply small₁ small₂ in
      let steps = agreed.2 in
      let one = ok_injective (sym steps.3 ∙ started) in
      let shown : server_start S e (s, S.public_key s) fields ≡ ok (steps.1, payload) =
        subst (λ f. server_start S e (s, S.public_key s) f ≡ ok (steps.1, payload))
          (ap (λ p. p.1) one) steps.4 in
      let two = ok_injective (sym shown ∙ served) in
      let ended : server_finish S received reply ≡ ok (agreed.1, steps.2) =
        subst (λ r. server_finish S r reply ≡ ok (agreed.1, steps.2)) (ap (λ p. p.0) two) steps.5 in
      let three = ok_injective (sym ended ∙ finished) in
      (
        agreed.0,
        ap (λ h. client_finish S h answer) (sym (ap (λ p. p.0) one))
            ∙ ap (client_finish S steps.0.0) (sym (ap (λ p. p.1) three))
            ∙ steps.6,
        sym (ap (λ p. p.1) two),
        subst (Paired agreed.0) (ap (λ p. p.0) three) agreed.3,
      )
