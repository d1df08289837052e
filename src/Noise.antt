-- ===== src/Noise.antt =====
-- rust/noise/src/lib.rs: what the two sides of the Noise NK handshake share, and the transport.
pub mod Client
pub mod Server
pub mod Agreement
pub mod Nonces
pub mod Channel
pub mod Queues
pub mod Delivery
use juicebox_sdk.Prelude.{
  ℕ, suc, ◌+◌, ◌*◌, ◌≤◌, ◌≡◌, not, [], ◌∷◌, ◌++◌, Bytes, bytes_of, Option, some, Outcome, ok, panic,
  ◌>>=◌, ◌>>◌, assert, unwrap, ltb, leb, ◌==◌, if◌then◌else◌, length, take, drop, replicate,
  u64_mod,
}
use juicebox_sdk.Marshalling.{byte_at}

-- What the protocol takes from the crates x25519-dalek, blake2, hkdf and chacha20poly1305, which are
-- not part of the repository. A public key is its 32 bytes.
pub record Suite : Type 1 where
  -- The secrets of the two sides, ephemeral or static; `PublicKey::from`, and `diffie_hellman`,
  -- on which both sides agree.
  pub Secret : Type 0
  pub public_key : Secret → Bytes
  pub diffie_hellman : Secret → Bytes → Bytes
  pub length-public_key : (secret : Secret) → length (public_key secret) ≡ 32
  pub diffie_hellman_comm :
      (a b : Secret) → diffie_hellman a (public_key b) ≡ diffie_hellman b (public_key a)
  -- `Blake2s256`, of the concatenation of the updates.
  pub blake2s256 : Bytes → Bytes
  -- `Hkdf::new` with a salt and a key, then `expand` with no info to a number of bytes, which
  -- succeeds for up to 255 hashes.
  pub hkdf : Bytes → Bytes → ℕ → Option Bytes
  pub hkdf-some :
      (salt ikm : Bytes) (size : ℕ)
      → size ≤ 255 * 32
      → (okm : Bytes) × (hkdf salt ikm size ≡ some okm) × (length okm ≡ size)
  -- `ChaCha20Poly1305`, of a key, a nonce, a message and the associated data.
  pub encrypt : Bytes → Bytes → Bytes → Bytes → Option Bytes
  pub decrypt : Bytes → Bytes → Bytes → Bytes → Option Bytes
  pub encrypt-some :
      (key nonce msg aad : Bytes)
      → length msg ≤ 274877906880
      → (ciphertext : Bytes) × (encrypt key nonce msg aad ≡ some ciphertext)
  pub decrypt-encrypt :
      (key nonce msg aad : Bytes) {ciphertext : Bytes}
      → encrypt key nonce msg aad ≡ some ciphertext
      → decrypt key nonce ciphertext aad ≡ some msg

abbrev pub hash_len : ℕ
hash_len = 32

abbrev pub protocol_name : Bytes
protocol_name = bytes_of "Noise_NK_25519_ChaChaPoly_BLAKE2s"

pub record HandshakeRequest : Type 0 where
  pub client_ephemeral_public : Bytes
  pub payload_ciphertext : Bytes

pub record HandshakeResponse : Type 0 where
  pub server_ephemeral_public : Bytes
  pub payload_ciphertext : Bytes

-- The cipher is its key.
pub record CipherState : Type 0 where
  pub key : Bytes
  pub nonce : ℕ

pub record Transport : Type 0 where
  pub inbound : CipherState
  pub outbound : CipherState

-- The values of these types, from their fields in order.
abbrev pub handshake_request : Bytes → Bytes → HandshakeRequest
handshake_request public ciphertext = record {
  client_ephemeral_public = public;
  payload_ciphertext = ciphertext;
}

abbrev pub handshake_response : Bytes → Bytes → HandshakeResponse
handshake_response public ciphertext = record {
  server_ephemeral_public = public;
  payload_ciphertext = ciphertext;
}

abbrev pub cipher_state : Bytes → ℕ → CipherState
cipher_state key nonce = record { key = key; nonce = nonce }

abbrev pub transport : CipherState → CipherState → Transport
transport inbound outbound = record { inbound = inbound; outbound = outbound }

pub data Role : Type 0 where
  client server : Role

-- `CipherState::new`
abbrev pub new_cipher : Bytes → CipherState
new_cipher key = cipher_state key 0

-- `u64::to_le_bytes`
abbrev pub to_le_bytes : ℕ → Bytes
to_le_bytes n =
    byte_at n 1
    ∷ byte_at n 256
    ∷ byte_at n 65536
    ∷ byte_at n 16777216
    ∷ byte_at n 4294967296
    ∷ byte_at n 1099511627776
    ∷ byte_at n 281474976710656
    ∷ byte_at n 72057594037927936
    ∷ []

-- The state after the call, and the nonce. `checked_add` is none from 2 ^ 64 on.
unfoldable pub next_nonce : {E : Type 0} → CipherState → Outcome E (CipherState × Bytes)
next_nonce state = do
  let padded = replicate 4 0 ++ to_le_bytes state.nonce
  assert (ltb (suc state.nonce) u64_mod)
  assert (not (suc state.nonce == 18446744073709551615))
  ok (cipher_state state.key (suc state.nonce), padded)

-- The transport of a side, from the two keys of `ChainingKey::split`.
abbrev pub split_keys : Bytes × Bytes → Role → Transport
split_keys keys server = transport (new_cipher keys.0) (new_cipher keys.1)
split_keys keys client = transport (new_cipher keys.1) (new_cipher keys.0)

module _ (S : Suite) where
  -- The state after the call, and the result of the cipher, whose error holds nothing.
  unfoldable pub encrypt_with_ad :
      {E : Type 0} → CipherState → Bytes → Bytes → Outcome E (CipherState × Option Bytes)
  encrypt_with_ad state msg aad = do
    next ← next_nonce state
    ok (next.0, S.encrypt state.key next.1 msg aad)

  unfoldable pub decrypt_with_ad :
      {E : Type 0} → CipherState → Bytes → Bytes → Outcome E (CipherState × Option Bytes)
  decrypt_with_ad state msg aad = do
    next ← next_nonce state
    ok (next.0, S.decrypt state.key next.1 msg aad)

  -- `Transport::decrypt` and `Transport::encrypt`
  unfoldable pub transport_decrypt :
      {E : Type 0} → Transport → Bytes → Outcome E (Transport × Option Bytes)
  transport_decrypt t ciphertext = do
    done ← decrypt_with_ad t.inbound ciphertext []
    ok (transport done.0 t.outbound, done.1)

  unfoldable pub transport_encrypt :
      {E : Type 0} → Transport → Bytes → Outcome E (Transport × Option Bytes)
  transport_encrypt t plaintext = do
    done ← encrypt_with_ad t.outbound plaintext []
    ok (transport t.inbound done.0, done.1)

  -- `HandshakeHash::new`: the hash, and the chaining key.
  unfoldable pub new_handshake_hash : {E : Type 0} → Outcome E (Bytes × Bytes)
  new_handshake_hash =
      if leb hash_len (length protocol_name)
      then (let h = S.blake2s256 protocol_name in ok (h, h))
      else panic

  abbrev pub mix_hash : Bytes → Bytes → Bytes
  mix_hash h data' = S.blake2s256 (h ++ data')

  unfoldable pub hkdf_pair : {E : Type 0} → Bytes → Bytes → Outcome E (Bytes × Bytes)
  hkdf_pair salt ikm = do
    okm ← unwrap (S.hkdf salt ikm (hash_len * 2))
    ok (take hash_len okm, drop hash_len okm)

  -- `ChainingKey::mix_key`: the new chaining key, and the cipher.
  unfoldable pub mix_key : {E : Type 0} → Bytes → Bytes → Outcome E (Bytes × CipherState)
  mix_key ck dh = do pair ← hkdf_pair ck dh; ok (pair.0, new_cipher pair.1)

  -- `ChainingKey::split`
  unfoldable pub split : {E : Type 0} → Bytes → Role → Outcome E Transport
  split ck role = do pair ← hkdf_pair ck []; ok (split_keys pair role)
