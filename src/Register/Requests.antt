-- ===== src/Register/Requests.antt =====
-- The requests that registration sends pass the checks that recovery makes.
use juicebox_sdk.Prelude.{
  cons_injective, ◌≡◌, refl, List, [], ◌∷◌, Bytes, Outcome, ok, >>=-eq-ok, ok_injective, All, subst,
}
use juicebox_sdk.Curve.{ScalarField}
use juicebox_sdk.Crypto.{Crypto}
use juicebox_sdk.Realm.{Realm}
use juicebox_sdk.Api.{Register2Request}
use juicebox_sdk.Oprf.{to_public_key}
use juicebox_sdk.Keys.{unlock_key_tag, encrypted_user_secret_commitment}
use juicebox_sdk.Signing.Correctness.{verify-sign_public_key}
use juicebox_sdk.Signing.{OprfSignedPublicKey, sign_public_key, verify}
use juicebox_sdk.Register.{Registration, signed_public_keys, register2_requests}

module _ (F : ScalarField) (K : Crypto F) where
  -- The request holds a key that is signed for the realm and is the public key of its share, and
  -- the tag and the commitment that are derived for the realm.
  pub record IsSound (E : Type 0) (c : Registration F K) (r : Realm × Register2Request F K)
      : Type 0 where
    pub signed : verify F K r.1.oprf_signed_public_key r.0.id ≡ ok tt
    pub public_key :
        r.1.oprf_signed_public_key.public_key ≡ to_public_key F K.group r.1.oprf_private_key
    pub tag :
        ◌≡◌ {A = Outcome E Bytes} (unlock_key_tag F K c.unlock_key r.0.id) (ok r.1.unlock_key_tag)
    pub commitment :
        ◌≡◌ {A = Outcome E Bytes}
          (encrypted_user_secret_commitment F K c.unlock_key r.0.id r.1.encryption_key_scalar_share
            r.1.encrypted_secret)
          (ok r.1.encrypted_secret_commitment)
    pub version : r.1.version ≡ c.version
    pub unlock_key_commitment : r.1.unlock_key_commitment ≡ c.unlock_key_commitment
    pub encrypted_secret : r.1.encrypted_secret ≡ c.encrypted_secret

  -- Every request that registration sends in its second phase, with keys that were signed for its
  -- realms, is sound: recovery's checks of the signature, the tag and the commitment pass.
  pub register2_requests-IsSound :
      {E : Type 0} (c : Registration F K) (signing_key : K.SigningKey) (realms : List Realm)
      (key_shares : List F.Scalar) (signed : List OprfSignedPublicKey)
      (scalar_shares : List F.Scalar) (requests : List (Realm × Register2Request F K))
      → ◌≡◌ {A = Outcome E (List OprfSignedPublicKey)}
          (signed_public_keys F K signing_key key_shares realms)
          (ok signed)
      → ◌≡◌ {A = Outcome E (List (Realm × Register2Request F K))}
          (register2_requests F K c realms key_shares signed scalar_shares)
          (ok requests)
      → All (IsSound E c) requests
  unfolding signed_public_keys register2_requests
  register2_requests-IsSound c key [] ks ss es requests h r =
      subst (All (IsSound _ c)) (ok_injective r) tt
  register2_requests-IsSound c key (realm ∷ realms) [] ss es requests h r =
      subst (All (IsSound _ c)) (ok_injective r) tt
  register2_requests-IsSound c key (realm ∷ realms) (k ∷ ks) [] es requests h r =
      subst (All (IsSound _ c)) (ok_injective r) tt
  register2_requests-IsSound c key (realm ∷ realms) (k ∷ ks) (s ∷ ss) [] requests h r =
      subst (All (IsSound _ c)) (ok_injective r) tt
  register2_requests-IsSound {E} c key (realm ∷ realms) (k ∷ ks) (s ∷ ss) (e ∷ es) requests h r =
      let a = >>=-eq-ok (sign_public_key F K (to_public_key F K.group k) realm.id key) _ h in
      let b = >>=-eq-ok (signed_public_keys F K key ks realms) _ a.2 in
      let t = >>=-eq-ok (unlock_key_tag F K c.unlock_key realm.id) _ r in
      let m =
        >>=-eq-ok (encrypted_user_secret_commitment F K c.unlock_key realm.id e c.encrypted_secret)
          _ t.2 in
      let q = >>=-eq-ok (register2_requests F K c realms ks ss es) _ m.2 in
      let heads = cons_injective (ok_injective b.2) in
      let v = verify-sign_public_key F K (to_public_key F K.group k) realm.id key (
        subst
          (λ x.
            ◌≡◌ {A = Outcome E OprfSignedPublicKey}
              (sign_public_key F K (to_public_key F K.group k) realm.id key) (ok x))
          heads.0 a.1) in
      subst (All (IsSound E c)) (ok_injective q.2) (
        record {
          signed = v.0;
          public_key = v.1;
          tag = t.1;
          commitment = m.1;
          version = refl;
          unlock_key_commitment = refl;
          encrypted_secret = refl;
        },
        register2_requests-IsSound c key realms ks ss es q.0
            (subst
              (λ x.
                ◌≡◌ {A = Outcome E (List OprfSignedPublicKey)}
                  (signed_public_keys F K key ks realms) (ok x))
              heads.1 b.1)
            q.1,
      )
