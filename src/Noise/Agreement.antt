-- ===== src/Noise/Agreement.antt =====
-- Both sides of rust/noise/src/client.rs and rust/noise/src/server.rs come to the same keys.
use juicebox_sdk.Prelude.{
  ℕ, ◌≤◌, ◌≡◌, refl, ap, [], Bytes, some, ok, length, take, drop, replicate, arith, ==_iff,
}
use juicebox_sdk.Noise.{
  Suite, HandshakeRequest, handshake_request, HandshakeResponse, handshake_response, cipher_state,
  Transport, new_cipher, next_nonce, encrypt_with_ad, decrypt_with_ad, new_handshake_hash, mix_hash,
  hkdf_pair, mix_key, split, split_keys, Role, client, server, hash_len, protocol_name,
}
use juicebox_sdk.Noise.Client.{
  ClientHandshake, client_handshake, invalid_server_key, client_start_with_secret, client_finish,
  public_key_from,
}
use juicebox_sdk.Noise.Server.{
  ServerHandshake, server_handshake, invalid_client_key, server_start_with_secret, server_finish,
}

abbrev first_nonce : Bytes
first_nonce = replicate 12 0

public_key_from-ok :
    {E : Type 0} (e : E) (bytes : Bytes) → length bytes ≡ 32 → public_key_from e bytes ≡ ok bytes
public_key_from-ok e bytes h = rw ((==_iff (length bytes) 32).1 h) refl

module _ (S : Suite) where
  abbrev pub keys_of : Bytes → Bytes → Bytes × Bytes
  keys_of salt ikm =
      let okm = (S.hkdf-some salt ikm 64 (omega arith)).0 in (take hash_len okm, drop hash_len okm)

  hkdf_pair-keys_of :
      {E : Type 0} (salt ikm : Bytes) → hkdf_pair S {E = E} salt ikm ≡ ok (keys_of salt ikm)
  unfolding hkdf_pair
  hkdf_pair-keys_of salt ikm = rw ((S.hkdf-some salt ikm 64 (omega arith)).1) refl

  mix_key-keys_of :
      {E : Type 0} (ck dh : Bytes)
      → mix_key S {E = E} ck dh ≡ ok ((keys_of ck dh).0, new_cipher (keys_of ck dh).1)
  unfolding mix_key
  mix_key-keys_of ck dh = rw (hkdf_pair-keys_of ck dh) refl

  pub split-keys_of :
      {E : Type 0} (ck : Bytes) (role : Role)
      → split S {E = E} ck role ≡ ok (split_keys (keys_of ck []) role)
  unfolding split
  split-keys_of ck role = rw (hkdf_pair-keys_of ck []) refl

  abbrev start_hash : Bytes
  start_hash = S.blake2s256 protocol_name

  new_handshake_hash-start_hash :
      {E : Type 0} → new_handshake_hash S {E = E} ≡ ok (start_hash, start_hash)
  unfolding new_handshake_hash
  new_handshake_hash-start_hash = refl

  encrypt_with_ad-new_cipher :
      {E : Type 0} (key msg aad : Bytes) {ciphertext : Bytes}
      → S.encrypt key first_nonce msg aad ≡ some ciphertext
      → encrypt_with_ad S {E = E} (new_cipher key) msg aad
        ≡ ok (cipher_state key 1, some ciphertext)
  unfolding encrypt_with_ad next_nonce
  encrypt_with_ad-new_cipher key msg aad h = ap (λ r. ok (cipher_state key 1, r)) h

  decrypt_with_ad-new_cipher :
      {E : Type 0} (key msg aad : Bytes) {plaintext : Bytes}
      → S.decrypt key first_nonce msg aad ≡ some plaintext
      → decrypt_with_ad S {E = E} (new_cipher key) msg aad ≡ ok (cipher_state key 1, some plaintext)
  unfolding decrypt_with_ad next_nonce
  decrypt_with_ad-new_cipher key msg aad h = ap (λ r. ok (cipher_state key 1, r)) h

  -- The hash of what both sides know when the client encrypts its payload.
  abbrev pub transcript : Bytes → Bytes → Bytes → Bytes
  transcript prologue static ephemeral =
      mix_hash S (mix_hash S (mix_hash S start_hash prologue) static) ephemeral

  pub client_start_with_secret-ok :
      (c : S.Secret) (static prologue payload : Bytes) {ciphertext : Bytes}
      → S.encrypt
          (keys_of start_hash (S.diffie_hellman c static)).1
          first_nonce
          payload
          (transcript prologue static (S.public_key c))
        ≡ some ciphertext
      → client_start_with_secret S c static prologue payload
        ≡ ok (
          client_handshake c
              (mix_hash S (transcript prologue static (S.public_key c)) ciphertext)
              (keys_of start_hash (S.diffie_hellman c static)).0,
          handshake_request (S.public_key c) ciphertext,
        )
  unfolding client_start_with_secret
  client_start_with_secret-ok c static prologue payload h =
      let dh = S.diffie_hellman c static in
      rw
        (
          new_handshake_hash-start_hash,
          mix_key-keys_of start_hash dh,
          encrypt_with_ad-new_cipher (keys_of start_hash dh).1 payload
              (transcript prologue static (S.public_key c)) h,
        )
        refl

  -- The two secrets that the parties share are given with how the server computes them.
  server_start_with_secret-ok :
      (e s : S.Secret) (static client_public prologue ciphertext dh₁ dh₂ : Bytes) {payload : Bytes}
      → length client_public ≡ 32
      → S.diffie_hellman s client_public ≡ dh₁
      → S.diffie_hellman e client_public ≡ dh₂
      → S.decrypt
          (keys_of start_hash dh₁).1
          first_nonce
          ciphertext
          (transcript prologue static client_public)
        ≡ some payload
      → server_start_with_secret S e
          (s, static)
          prologue
          (handshake_request client_public ciphertext)
        ≡ ok (
          server_handshake
              (new_cipher (keys_of (keys_of start_hash dh₁).0 dh₂).1)
              (mix_hash S
                (mix_hash S (transcript prologue static client_public) ciphertext)
                (S.public_key e))
              (keys_of (keys_of start_hash dh₁).0 dh₂).0
              (S.public_key e),
          payload,
        )
  unfolding server_start_with_secret
  server_start_with_secret-ok e s static client_public prologue ciphertext dh₁ dh₂ l d₁ d₂ h =
      rw
        (
          public_key_from-ok invalid_client_key client_public l,
          d₁,
          d₂,
          new_handshake_hash-start_hash,
          mix_key-keys_of start_hash dh₁,
          decrypt_with_ad-new_cipher (keys_of start_hash dh₁).1 ciphertext
              (transcript prologue static client_public) h,
          mix_key-keys_of (keys_of start_hash dh₁).0 dh₂,
        )
        refl

  server_finish-ok :
      (key h ck public payload : Bytes) {ciphertext : Bytes}
      → S.encrypt key first_nonce payload h ≡ some ciphertext
      → server_finish S (server_handshake (new_cipher key) h ck public) payload
        ≡ ok (split_keys (keys_of ck []) server, handshake_response public ciphertext)
  unfolding server_finish
  server_finish-ok key h ck public payload e =
      rw (encrypt_with_ad-new_cipher key payload h e, split-keys_of ck server) refl

  client_finish-ok :
      (c : S.Secret) (h ck public ciphertext : Bytes) {payload : Bytes}
      → length public ≡ 32
      → S.decrypt
          (keys_of ck (S.diffie_hellman c public)).1
          first_nonce
          ciphertext
          (mix_hash S h public)
        ≡ some payload
      → client_finish S (client_handshake c h ck) (handshake_response public ciphertext)
        ≡ ok (split_keys (keys_of (keys_of ck (S.diffie_hellman c public)).0 []) client, payload)
  unfolding client_finish
  client_finish-ok c h ck public ciphertext l e =
      let dh = S.diffie_hellman c public in
      rw
        (
          public_key_from-ok invalid_server_key public l,
          mix_key-keys_of ck dh,
          decrypt_with_ad-new_cipher (keys_of ck dh).1 ciphertext (mix_hash S h public) e,
          split-keys_of (keys_of ck dh).0 client,
        )
        refl

-- The transports of two sides that are in step: what one encrypts with, the other decrypts with.
abbrev pub Paired : Transport → Transport → Type 0
Paired a b = (a.inbound ≡ b.outbound) × (a.outbound ≡ b.inbound)

abbrev pub payload_limit : ℕ
payload_limit = 274877906880

module _ (S : Suite) where
  -- The four steps of a handshake, with the two payloads and the two transports they end in.
  abbrev pub Handshakes :
      S.Secret → S.Secret → S.Secret → Bytes → Bytes → Bytes → Transport → Transport → Type 0
  Handshakes c s e prologue request response ours theirs =
      (sent : ClientHandshake S × HandshakeRequest) × (received : ServerHandshake)
      × (answer : HandshakeResponse) × (client_start_with_secret S c (S.public_key s) prologue
            request
          ≡ ok sent)
      × (server_start_with_secret S e (s, S.public_key s) prologue sent.1 ≡ ok (received, request))
      × (server_finish S received response ≡ ok (theirs, answer))
      × (client_finish S sent.0 answer ≡ ok (ours, response))

  -- For every secret of the client and of the server, every prologue and any two payloads within
  -- the cipher's limit, the four steps of the handshake succeed, the server gets the client's
  -- payload, the client gets the server's, and the two transports are paired, with all nonces at 0.
  pub handshake_agreement :
      (c s e : S.Secret) (prologue request response : Bytes)
      → length request ≤ payload_limit
      → length response ≤ payload_limit
      → (ours theirs : Transport) × Handshakes c s e prologue request response ours theirs
        × Paired ours theirs
        × (ours.inbound.nonce ≡ 0)
        × (ours.outbound.nonce ≡ 0)
  handshake_agreement c s e prologue request response small₁ small₂ =
      let dh₁ = S.diffie_hellman c (S.public_key s) in
      let dh₂ = S.diffie_hellman c (S.public_key e) in
      let k₁ = keys_of S (start_hash S) dh₁ in
      let k₂ = keys_of S k₁.0 dh₂ in
      let k₃ = keys_of S k₂.0 [] in
      let h₁ = transcript S prologue (S.public_key s) (S.public_key c) in
      let first = S.encrypt-some k₁.1 first_nonce request h₁ small₁ in
      let h₂ = mix_hash S h₁ first.0 in
      let h₃ = mix_hash S h₂ (S.public_key e) in
      let second = S.encrypt-some k₂.1 first_nonce response h₃ small₂ in
      (
        split_keys k₃ client,
        split_keys k₃ server,
        (
          (client_handshake c h₂ k₁.0, handshake_request (S.public_key c) first.0),
          server_handshake (new_cipher k₂.1) h₃ k₂.0 (S.public_key e),
          handshake_response (S.public_key e) second.0,
          client_start_with_secret-ok S c (S.public_key s) prologue request first.1,
          server_start_with_secret-ok S e s (S.public_key s) (S.public_key c) prologue first.0 dh₁
              dh₂ (S.length-public_key c) (S.diffie_hellman_comm s c) (S.diffie_hellman_comm e c)
              (S.decrypt-encrypt k₁.1 first_nonce request h₁ first.1),
          server_finish-ok S k₂.1 h₃ k₂.0 (S.public_key e) response second.1,
          client_finish-ok S c h₂ k₁.0 (S.public_key e) second.0 (S.length-public_key e)
              (S.decrypt-encrypt k₂.1 first_nonce response h₃ second.1),
        ),
        (refl, refl),
        refl,
        refl,
      )
