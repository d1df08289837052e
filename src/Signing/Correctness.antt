-- ===== src/Signing/Correctness.antt =====
-- What is signed for a realm is verified for it.
use juicebox_sdk.Marshalling.{to_be2}
use juicebox_sdk.Prelude.{
  ℕ, refl, ◌++◌, ◌>>◌, assert, Bool, false, ltb, u16_mod, length, ◌≡◌, ap, subst, ok_injective, ◌∙◌,
  true, Bytes, Outcome, ok, err, ◌>>=◌, >>=-eq-ok, ok_or, if◌then◌else◌,
}
use juicebox_sdk.Curve.{ScalarField}
use juicebox_sdk.Realm.{RealmId}
use juicebox_sdk.Crypto.{Crypto}
use juicebox_sdk.Signing.{
  OprfSignedPublicKey, SignatureError, signature_error, signature_msg, sign_public_key, verify,
}

module _ {E E' : Type 0} where
  recast_assert :
      {A : Type 0} (b : Bool) (x : A) {y : A}
      → ◌≡◌ {A = Outcome E A} (assert b >> ok x) (ok y)
      → ◌≡◌ {A = Outcome E' A} (assert b >> ok x) (ok y)
  recast_assert true x h = ap ok (ok_injective h)
  recast_assert false x h = cc

  recast-to_be2 :
      (n : ℕ) {bytes : Bytes}
      → ◌≡◌ {A = Outcome E Bytes} (to_be2 n) (ok bytes)
      → ◌≡◌ {A = Outcome E' Bytes} (to_be2 n) (ok bytes)
  unfolding to_be2
  recast-to_be2 n h = recast_assert (ltb n u16_mod) _ h

  -- The type of errors does not matter to a message that is built.
  recast-signature_msg :
      (realm_id : RealmId) (public_key : Bytes) {message : Bytes}
      → ◌≡◌ {A = Outcome E Bytes} (signature_msg realm_id public_key) (ok message)
      → ◌≡◌ {A = Outcome E' Bytes} (signature_msg realm_id public_key) (ok message)
  unfolding signature_msg
  recast-signature_msg realm_id public_key h =
      let a = >>=-eq-ok (to_be2 (length realm_id)) _ h in
      let b = >>=-eq-ok (to_be2 (length public_key)) _ a.2 in
      ap
        (λ r.
          r >>= λ x. to_be2 (length public_key) >>= λ y. ok (x ++ (realm_id ++ (y ++ public_key))))
        (recast-to_be2 (length realm_id) a.1)
      ∙ ap (λ r. r >>= λ y. ok (a.0 ++ (realm_id ++ (y ++ public_key))))
          (recast-to_be2 (length public_key) b.1)
      ∙ ap ok (ok_injective b.2)

module _ (F : ScalarField) (K : Crypto F) where
  abbrev signed_with : K.SigningKey → Bytes → Bytes → OprfSignedPublicKey
  signed_with key public_key message = record {
    public_key = public_key;
    verifying_key = K.verifying_key_bytes key;
    signature = K.sign key message;
  }

  verify-signed_with :
      (public_key : Bytes) (realm_id : RealmId) (key : K.SigningKey) (message : Bytes)
      → ◌≡◌ {A = Outcome SignatureError Bytes} (signature_msg realm_id public_key) (ok message)
      → verify F K (signed_with key public_key message) realm_id ≡ ok tt
  unfolding verify
  verify-signed_with public_key realm_id key message h =
      let signer = K.decompress_verifying_key-signer key in
      ap
        (λ r. ok_or signature_error r >>= λ v. signature_msg realm_id public_key >>= λ m.
          if K.verify_strict v m (K.sign key message) then ok tt else err signature_error)
        signer.1
      ∙ ap
          (λ r. r >>= λ m.
            if K.verify_strict signer.0 m (K.sign key message) then ok tt else err signature_error)
          h
      ∙ ap (λ b. if b then ok tt else err signature_error) (signer.2 message)

  -- A public key that was signed for a realm is verified for that realm, and is the one that was to
  -- be signed.
  pub verify-sign_public_key :
      {E : Type 0} (public_key : Bytes) (realm_id : RealmId) (key : K.SigningKey)
      {signed : OprfSignedPublicKey}
      → ◌≡◌ {A = Outcome E OprfSignedPublicKey}
          (sign_public_key F K public_key realm_id key)
          (ok signed)
      → (verify F K signed realm_id ≡ ok tt) × (signed.public_key ≡ public_key)
  unfolding sign_public_key
  verify-sign_public_key public_key realm_id key {signed} h =
      let m = >>=-eq-ok (signature_msg realm_id public_key) _ h in
      subst (λ s. (verify F K s realm_id ≡ ok tt) × (s.public_key ≡ public_key)) (ok_injective m.2)
        (
          verify-signed_with public_key realm_id key m.0
              (recast-signature_msg realm_id public_key m.1),
          refl,
        )
