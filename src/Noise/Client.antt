-- ===== src/Noise/Client.antt =====
-- rust/noise/src/client.rs: the client's side of the handshake.
use juicebox_sdk.Prelude.{[], Bytes, Outcome, ok, err, ◌>>=◌, ok_or, ◌==◌, if◌then◌else◌, length}
use juicebox_sdk.Noise.{
  Suite, HandshakeRequest, handshake_request, HandshakeResponse, Transport, client, encrypt_with_ad,
  decrypt_with_ad, new_handshake_hash, mix_hash, mix_key, split,
}

pub record ClientHandshake (S : Suite) : Type 0 where
  pub client_ephemeral_secret : S.Secret
  pub h : Bytes
  pub ck : Bytes

abbrev pub client_handshake : {S : Suite} → S.Secret → Bytes → Bytes → ClientHandshake S
client_handshake secret h ck = record { client_ephemeral_secret = secret; h = h; ck = ck }

pub data ClientHandshakeError : Type 0 where
  invalid_server_key decryption encryption : ClientHandshakeError

-- A public key of a message, if it has the right length.
abbrev pub public_key_from {ℓ} : {E : Type ℓ} → E → Bytes → Outcome E Bytes
public_key_from invalid bytes = if length bytes == 32 then ok bytes else err invalid

module _ (S : Suite) where
  -- From the ephemeral secret, the server's public key, the prologue and the payload.
  unfoldable pub client_start_with_secret :
      S.Secret
      → Bytes
      → Bytes
      → Bytes
      → Outcome ClientHandshakeError (ClientHandshake S × HandshakeRequest)
  client_start_with_secret client_ephemeral_secret server_static_public prologue payload_plaintext =
      do
        let client_ephemeral_public = S.public_key client_ephemeral_secret
        new ← new_handshake_hash S
        let h₁ = mix_hash S new.0 prologue
        let h₂ = mix_hash S h₁ server_static_public
        let h₃ = mix_hash S h₂ client_ephemeral_public
        mixed ← mix_key S new.1 (S.diffie_hellman client_ephemeral_secret server_static_public)
        encrypted ← encrypt_with_ad S mixed.1 payload_plaintext h₃
        payload_ciphertext ← ok_or encryption encrypted.1
        let h₄ = mix_hash S h₃ payload_ciphertext
        ok (
          client_handshake client_ephemeral_secret h₄ mixed.0,
          handshake_request client_ephemeral_public payload_ciphertext,
        )

  -- `Handshake::start`, from the ephemeral secret that it draws.
  abbrev pub client_start :
      S.Secret → Bytes → Bytes → Outcome ClientHandshakeError (ClientHandshake S × HandshakeRequest)
  client_start random server_static_public payload_plaintext =
      client_start_with_secret random server_static_public [] payload_plaintext

  -- `Handshake::finish`: the transport and the server's payload.
  unfoldable pub client_finish :
      ClientHandshake S → HandshakeResponse → Outcome ClientHandshakeError (Transport × Bytes)
  client_finish handshake response = do
    server_ephemeral_public ← public_key_from invalid_server_key response.server_ephemeral_public
    let h = mix_hash S handshake.h server_ephemeral_public
    mixed ←
        mix_key S handshake.ck
          (S.diffie_hellman handshake.client_ephemeral_secret server_ephemeral_public)
    decrypted ← decrypt_with_ad S mixed.1 response.payload_ciphertext h
    payload_plaintext ← ok_or decryption decrypted.1
    t ← split S mixed.0 client
    ok (t, payload_plaintext)
