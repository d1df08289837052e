-- ===== src/Padded.antt =====
-- rust/realm/api/src/requests.rs: the padding of a response to 436 bytes. The serialization of the
-- crate ciborium is not part of the repository: the two functions of rust/marshalling/src/lib.rs
-- that call it are parameters.
pub mod Roundtrip
use juicebox_sdk.Prelude.{
  ℕ, Bytes, Outcome, ok, err, ◌>>=◌, ◌>>◌, assert, unwrap, leb, ltb, length, u16_mod,
}
use juicebox_sdk.Secret.{resize, slice, secret_bytes_array}

abbrev pub max_secrets_response_length : ℕ
max_secrets_response_length = 436

pub record PaddedSecretsResponse : Type 0 where
  pub unpadded_length : ℕ
  pub padded_bytes : Bytes

module _ {Response Error : Type 0} (to_vec : Response → Outcome Error Bytes) where
  -- `TryFrom<&SecretsResponse>`. The length is converted to a `u16`.
  unfoldable pub padded_response : Response → Outcome Error PaddedSecretsResponse
  padded_response value = do
    bytes ← to_vec value
    assert (leb (length bytes) max_secrets_response_length)
    assert (ltb (length bytes) u16_mod)
    padded_bytes ← unwrap (
        secret_bytes_array max_secrets_response_length (resize bytes max_secrets_response_length 0))
    ok (record { unpadded_length = length bytes; padded_bytes = padded_bytes })

module _ {Response Error : Type 0} (from_slice : Bytes → Outcome Error Response) where
  -- `TryFrom<&PaddedSecretsResponse>`
  unfoldable pub unpadded_response : PaddedSecretsResponse → Outcome Error Response
  unpadded_response value = do
    bytes ← slice value.padded_bytes 0 value.unpadded_length
    from_slice bytes
