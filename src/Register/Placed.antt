-- ===== src/Register/Placed.antt =====
-- The requests of rust/sdk/src/register.rs, one for each realm, with the shares of its place.
use juicebox_sdk.Prelude.{
  map-map, All-unmap, ℕ, ◌≡◌, sym, ap, subst, ◌∙◌, List, map, some, Outcome, ok, length, length-map,
  All, arith,
}
use juicebox_sdk.Curve.{ScalarField}
use juicebox_sdk.Curve.Scalars.{scalar_secret}
use juicebox_sdk.Crypto.{Crypto}
use juicebox_sdk.Realm.{Realm}
use juicebox_sdk.Configuration.{Configuration, share_index}
use juicebox_sdk.Configuration.Accepted.{IsAccepted}
use juicebox_sdk.Api.{Register2Request}
use juicebox_sdk.Sharing.{Share, range, create_shares}
use juicebox_sdk.Sharing.Roundtrip.{indices-create_shares, length-range}
use juicebox_sdk.Signing.{OprfSignedPublicKey}
use juicebox_sdk.Recover.Errors.{RecoverError}
use juicebox_sdk.Register.{Registration, signed_public_keys, register2_requests}
use juicebox_sdk.Register.Requests.{register2_requests-IsSound}
use juicebox_sdk.Register.Stored.{
  index_of, AreStored, realms-places, shares_by_parts, signed_public_keys-parts,
  register2_requests-columns,
}

module _ (F : ScalarField) (K : Crypto F) where
  -- The last steps of the preparation, from the shares on.
  pub stored-requests :
      (c : Configuration) (reg : Registration F K) (signing_key : K.SigningKey)
      (key scalar : F.Scalar) (key_polynomial scalar_polynomial : ℕ → F.Scalar)
      (key_shares scalar_shares : List (Share F (scalar_secret F)))
      (signed : List OprfSignedPublicKey) (requests : List (Realm × Register2Request F K))
      → IsAccepted c
      → ◌≡◌ {A = Outcome RecoverError (List (Share F (scalar_secret F)))}
          (create_shares F
            (scalar_secret F)
            key
            c.recover_threshold
            (length c.realms)
            key_polynomial)
          (ok key_shares)
      → ◌≡◌ {A = Outcome RecoverError (List (Share F (scalar_secret F)))}
          (create_shares F
            (scalar_secret F)
            scalar
            c.recover_threshold
            (length c.realms)
            scalar_polynomial)
          (ok scalar_shares)
      → ◌≡◌ {A = Outcome RecoverError (List OprfSignedPublicKey)}
          (signed_public_keys F K signing_key (map (λ s. s.secret) key_shares) c.realms)
          (ok signed)
      → ◌≡◌ {A = Outcome RecoverError (List (Realm × Register2Request F K))}
          (register2_requests F K reg c.realms
            (map (λ s. s.secret) key_shares)
            signed
            (map (λ s. s.secret) scalar_shares))
          (ok requests)
      → AreStored F K c reg
          (K.verifying_key_bytes signing_key)
          key
          scalar
          key_polynomial
          scalar_polynomial
          requests
  stored-requests c reg signing_key key scalar key_polynomial scalar_polynomial key_shares
        scalar_shares signed requests accepted keys scalars signing made =
      let n = length c.realms in
      let secret_of : Share F (scalar_secret F) → F.Scalar = λ s. s.secret in
      let numbered =
        indices-create_shares F (scalar_secret F) {E = RecoverError} key c.recover_threshold n
          key_polynomial key_shares keys in
      let numbered' =
        indices-create_shares F (scalar_secret F) {E = RecoverError} scalar c.recover_threshold n
          scalar_polynomial scalar_shares scalars in
      let many : length (map secret_of key_shares) ≡ n = omega (
        arith,
        length-map key_shares secret_of,
        length-map key_shares (λ s. s.index),
        ap length numbered,
        length-range 1 n,
      ) in
      let many' : length (map secret_of scalar_shares) ≡ n = omega (
        arith,
        length-map scalar_shares secret_of,
        length-map scalar_shares (λ s. s.index),
        ap length numbered',
        length-range 1 n,
      ) in
      let signs =
        signed_public_keys-parts F K {E = RecoverError} signing_key (map secret_of key_shares)
          c.realms signed signing many in
      let columns =
        register2_requests-columns F K {E = RecoverError} reg c.realms (map secret_of key_shares)
          signed (map secret_of scalar_shares) requests made many signs.0 many' in
      let placed = realms-places c accepted in
      let places : map (λ r. index_of c r.0) requests ≡ range 1 n =
        sym (map-map (index_of c) (λ r. r.0) requests)
        ∙ ap (map (index_of c)) columns.0
        ∙ placed.0 in
      record {
        realms = columns.0;
        keys =
            keys
            ∙ ap ok (
                shares_by_parts F K key_shares requests (λ r. index_of c r.0)
                  (λ r. r.1.oprf_private_key) (numbered ∙ sym places) (sym columns.1));
        scalars =
            scalars
            ∙ ap ok (
                shares_by_parts F K scalar_shares requests (λ r. index_of c r.0)
                  (λ r. r.1.encryption_key_scalar_share) (numbered' ∙ sym places) (sym columns.3));
        sound =
            register2_requests-IsSound F K {E = RecoverError} reg signing_key c.realms
              (map secret_of key_shares) signed (map secret_of scalar_shares) requests signing made;
        signer =
            All-unmap (λ s. s.verifying_key ≡ K.verifying_key_bytes signing_key)
              (λ r. r.1.oprf_signed_public_key) requests
              (subst (All (λ s. s.verifying_key ≡ K.verifying_key_bytes signing_key))
                (sym columns.2) signs.1);
        indexed =
            All-unmap (λ r. share_index c r.id ≡ some (index_of c r)) (λ r. r.0) requests
              (subst (All (λ r. share_index c r.id ≡ some (index_of c r))) (sym columns.0)
                placed.1);
      }
