-- ===== src/Signing.antt =====
-- rust/realm/api/src/signing.rs: the signature that binds a realm's public key to the realm.
pub mod Correctness
use juicebox_sdk.Prelude.{
  [], ◌++◌, Bool, true, false, Bytes, Option, none, some, Outcome, ok, err, ◌>>=◌, ok_or, length,
  if◌then◌else◌,
}
use juicebox_sdk.Marshalling.{to_be2}
use juicebox_sdk.Curve.{ScalarField}
use juicebox_sdk.Realm.{RealmId}
use juicebox_sdk.Crypto.{Crypto}

pub record OprfSignedPublicKey : Type 0 where
  pub public_key : Bytes
  pub verifying_key : Bytes
  pub signature : Bytes

pub data SignatureError : Type 0 where
  signature_error : SignatureError

unfoldable pub signature_msg : {E : Type 0} → RealmId → Bytes → Outcome E Bytes
signature_msg realm_id public_key = do
  id_length ← to_be2 (length realm_id)
  key_length ← to_be2 (length public_key)
  ok (id_length ++ (realm_id ++ (key_length ++ public_key)))

module _ (F : ScalarField) (K : Crypto F) where
  unfoldable pub sign_public_key :
      {E : Type 0} → Bytes → RealmId → K.SigningKey → Outcome E OprfSignedPublicKey
  sign_public_key public_key realm_id signing_key = do
    message ← signature_msg realm_id public_key
    ok (record {
      public_key = public_key;
      verifying_key = K.verifying_key_bytes signing_key;
      signature = K.sign signing_key message;
    })

  unfoldable pub verify : OprfSignedPublicKey → RealmId → Outcome SignatureError (Unit {0})
  verify key realm_id = do
    verifying_key ← ok_or signature_error (K.decompress_verifying_key key.verifying_key)
    message ← signature_msg realm_id key.public_key
    if K.verify_strict verifying_key message key.signature then ok tt else err signature_error
