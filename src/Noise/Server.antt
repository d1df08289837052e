-- ===== src/Noise/Server.antt =====
-- rust/noise/src/server.rs: the server's side of the handshake.
use juicebox_sdk.Prelude.{[], Bytes, Outcome, ok, ◌>>=◌, ok_or}
use juicebox_sdk.Noise.{
  Suite, HandshakeRequest, HandshakeResponse, handshake_response, CipherState, Transport, server,
  encrypt_with_ad, decrypt_with_ad, new_handshake_hash, mix_hash, mix_key, split,
}
use juicebox_sdk.Noise.Client.{public_key_from}

pub record ServerHandshake : Type 0 where
  pub cipher : CipherState
  pub h : Bytes
  pub ck : Bytes
  pub server_ephemeral_public : Bytes

abbrev pub server_handshake : CipherState → Bytes → Bytes → Bytes → ServerHandshake
server_handshake cipher h ck public = record {
  cipher = cipher;
  h = h;
  ck = ck;
  server_ephemeral_public = public;
}

pub data ServerHandshakeError : Type 0 where
  invalid_client_key decryption encryption : ServerHandshakeError

-- The error of the cipher, which holds nothing.
pub data EncryptionError : Type 0 where
  encryption_error : EncryptionError

module _ (S : Suite) where
  -- From the ephemeral secret, the static secret with its public key, the prologue and the request.
  unfoldable pub server_start_with_secret :
      S.Secret
      → S.Secret × Bytes
      → Bytes
      → HandshakeRequest
      → Outcome ServerHandshakeError (ServerHandshake × Bytes)
  server_start_with_secret server_ephemeral_secret static prologue request = do
    client_ephemeral_public ← public_key_from invalid_client_key request.client_ephemeral_public
    new ← new_handshake_hash S
    let h₁ = mix_hash S new.0 prologue
    let h₂ = mix_hash S h₁ static.1
    let h₃ = mix_hash S h₂ client_ephemeral_public
    mixed ← mix_key S new.1 (S.diffie_hellman static.0 client_ephemeral_public)
    decrypted ← decrypt_with_ad S mixed.1 request.payload_ciphertext h₃
    payload_plaintext ← ok_or decryption decrypted.1
    let h₄ = mix_hash S h₃ request.payload_ciphertext
    let server_ephemeral_public = S.public_key server_ephemeral_secret
    let h₅ = mix_hash S h₄ server_ephemeral_public
    again ← mix_key S mixed.0 (S.diffie_hellman server_ephemeral_secret client_ephemeral_public)
    ok (server_handshake again.1 h₅ again.0 server_ephemeral_public, payload_plaintext)

  -- `Handshake::start`, from the ephemeral secret that it draws.
  abbrev pub server_start :
      S.Secret
      → S.Secret × Bytes
      → HandshakeRequest
      → Outcome ServerHandshakeError (ServerHandshake × Bytes)
  server_start random static request = server_start_with_secret random static [] request

  -- `Handshake::finish`: the transport and the response.
  unfoldable pub server_finish :
      ServerHandshake → Bytes → Outcome EncryptionError (Transport × HandshakeResponse)
  server_finish handshake payload_plaintext = do
    encrypted ← encrypt_with_ad S handshake.cipher payload_plaintext handshake.h
    payload_ciphertext ← ok_or encryption_error encrypted.1
    t ← split S handshake.ck server
    ok (t, handshake_response handshake.server_ephemeral_public payload_ciphertext)
