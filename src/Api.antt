-- ===== src/Api.antt =====
-- rust/realm/api/src/requests.rs: what a client asks of a realm and what the realm answers.
use juicebox_sdk.Prelude.{ℕ, Bool, true, false, Bytes}
use juicebox_sdk.Curve.{ScalarField}
use juicebox_sdk.Crypto.{Crypto}
use juicebox_sdk.Signing.{OprfSignedPublicKey}
use juicebox_sdk.Oprf.{PrecompressedPoint, Proof}

module _ (F : ScalarField) (K : Crypto F) where
  pub record Policy : Type 0 where
    pub num_guesses : ℕ

  pub record Register2Request : Type 0 where
    pub version : Bytes
    pub oprf_private_key : F.Scalar
    pub oprf_signed_public_key : OprfSignedPublicKey
    pub unlock_key_commitment : Bytes
    pub unlock_key_tag : Bytes
    pub encryption_key_scalar_share : F.Scalar
    pub encrypted_secret : Bytes
    pub encrypted_secret_commitment : Bytes
    pub policy : Policy

  pub record Recover2Request : Type 0 where
    pub version : Bytes
    pub oprf_blinded_input : PrecompressedPoint F K.group

  pub record Recover3Request : Type 0 where
    pub version : Bytes
    pub unlock_key_tag : Bytes

  pub data SecretsRequest : Type 0 where
    register1 : SecretsRequest
    register2 : Register2Request → SecretsRequest
    recover1 : SecretsRequest
    recover2 : Recover2Request → SecretsRequest
    recover3 : Recover3Request → SecretsRequest
    delete : SecretsRequest

  unfoldable pub needs_forward_secrecy : SecretsRequest → Bool
  needs_forward_secrecy register1 = false
  needs_forward_secrecy (register2 _) = true
  needs_forward_secrecy recover1 = false
  needs_forward_secrecy (recover2 _) = true
  needs_forward_secrecy (recover3 _) = true
  needs_forward_secrecy delete = false

  pub data Register1Response : Type 0 where
    register1_ok : Register1Response

  pub data Register2Response : Type 0 where
    register2_ok : Register2Response

  pub data DeleteResponse : Type 0 where
    delete_ok : DeleteResponse

  pub data Recover1Response : Type 0 where
    recover1_ok : Bytes → Recover1Response
    recover1_not_registered recover1_no_guesses : Recover1Response

  pub record Recover2Ok : Type 0 where
    pub oprf_signed_public_key : OprfSignedPublicKey
    pub oprf_blinded_result : PrecompressedPoint F K.group
    pub oprf_proof : Proof F K.group
    pub unlock_key_commitment : Bytes
    pub num_guesses : ℕ
    pub guess_count : ℕ

  pub data Recover2Response : Type 0 where
    recover2_ok : Recover2Ok → Recover2Response
    recover2_version_mismatch recover2_not_registered recover2_no_guesses : Recover2Response

  pub record Recover3Ok : Type 0 where
    pub encryption_key_scalar_share : F.Scalar
    pub encrypted_secret : Bytes
    pub encrypted_secret_commitment : Bytes

  pub data Recover3Response : Type 0 where
    recover3_ok : Recover3Ok → Recover3Response
    recover3_version_mismatch recover3_not_registered : Recover3Response
    recover3_bad_unlock_key_tag : ℕ → Recover3Response
    recover3_no_guesses : Recover3Response

  pub data SecretsResponse : Type 0 where
    register1_response : Register1Response → SecretsResponse
    register2_response : Register2Response → SecretsResponse
    recover1_response : Recover1Response → SecretsResponse
    recover2_response : Recover2Response → SecretsResponse
    recover3_response : Recover3Response → SecretsResponse
    delete_response : DeleteResponse → SecretsResponse

-- rust/sdk/src/request.rs
pub data RequestError : Type 0 where
  invalid_auth upgrade_required rate_limit_exceeded transient assertion : RequestError
