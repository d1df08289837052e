-- ===== src/Register/Stored.antt =====
-- What the realms of a configuration hold after the second phase of rust/sdk/src/register.rs.
use mathlib.Core.Path.{ap₂}
use juicebox_sdk.Prelude.{
  cons_injective, ℕ, suc, ◌+◌, ◌≡◌, refl, sym, ap, subst, ◌∙◌, List, [], ◌∷◌, map, Bytes, Option,
  none, some, Outcome, ok, >>=-eq-ok, ok_injective, length, get_elem?, All, arith,
}
use juicebox_sdk.Curve.{ScalarField}
use juicebox_sdk.Curve.Scalars.{scalar_secret}
use juicebox_sdk.Crypto.{Crypto}
use juicebox_sdk.Realm.{Realm}
use juicebox_sdk.Configuration.{Configuration, share_index}
use juicebox_sdk.Configuration.Accepted.{IsAccepted}
use juicebox_sdk.Configuration.Index.{share_index_place}
use juicebox_sdk.Api.{Register2Request}
use juicebox_sdk.Sharing.{Share, range, create_shares}
use juicebox_sdk.Oprf.{to_public_key}
use juicebox_sdk.Signing.{OprfSignedPublicKey, signature_msg, sign_public_key}
use juicebox_sdk.Keys.{unlock_key_tag, encrypted_user_secret_commitment}
use juicebox_sdk.Recover.Errors.{RecoverError}
use juicebox_sdk.Register.{Registration, signed_public_keys, register2_requests}
use juicebox_sdk.Register.Requests.{IsSound}

abbrev pub index_or_zero : Option ℕ → ℕ
index_or_zero none = 0
index_or_zero (some i) = i

-- The index of a realm's share.
abbrev pub index_of : Configuration → Realm → ℕ
index_of c realm = index_or_zero (share_index c realm.id)

module _ (F : ScalarField) (K : Crypto F) (c : Configuration) where
  -- The shares of a request to a realm.
  abbrev pub key_share : Realm × Register2Request F K → Share F (scalar_secret F)
  key_share r = record { index = index_of c r.0; secret = r.1.oprf_private_key }

  abbrev pub scalar_share : Realm × Register2Request F K → Share F (scalar_secret F)
  scalar_share r = record { index = index_of c r.0; secret = r.1.encryption_key_scalar_share }

  -- The requests are one for each realm, they pass the checks of recovery, and their shares are those
  -- of the key and of the scalar.
  pub record AreStored (reg : Registration F K) (verifying_key : Bytes) (key scalar : F.Scalar)
      (key_polynomial scalar_polynomial : ℕ → F.Scalar)
      (requests : List (Realm × Register2Request F K)) : Type 0 where
    pub realms : map (λ r. r.0) requests ≡ c.realms
    pub keys :
        ◌≡◌ {A = Outcome RecoverError (List (Share F (scalar_secret F)))}
          (create_shares F
            (scalar_secret F)
            key
            c.recover_threshold
            (length c.realms)
            key_polynomial)
          (ok (map key_share requests))
    pub scalars :
        ◌≡◌ {A = Outcome RecoverError (List (Share F (scalar_secret F)))}
          (create_shares F
            (scalar_secret F)
            scalar
            c.recover_threshold
            (length c.realms)
            scalar_polynomial)
          (ok (map scalar_share requests))
    pub sound : All (IsSound F K RecoverError reg) requests
    pub signer : All (λ r. r.1.oprf_signed_public_key.verifying_key ≡ verifying_key) requests
    pub indexed : All (λ r. share_index c r.0.id ≡ some (index_of c r.0)) requests

-- The realm at each place has the index of the place.
places :
    (c : Configuration) (rest : List Realm) (k : ℕ)
    → ((i : ℕ) (r : Realm) → get_elem? rest i ≡ some r → share_index c r.id ≡ some (k + i))
    → (map (index_of c) rest ≡ range k (length rest))
      × All (λ r. share_index c r.id ≡ some (index_of c r)) rest
places c [] k h = (refl, tt)
places c (r ∷ rest) k h =
    let here : share_index c r.id ≡ some k = h 0 r refl ∙ ap some (omega arith) in
    let others = places c rest (suc k) (λ i r' e. h (suc i) r' e ∙ ap some (omega arith)) in
    let index : index_of c r ≡ k = ap index_or_zero here in
    (
      ap (λ i. i ∷ map (index_of c) rest) index ∙ ap (λ l. k ∷ l) others.0,
      (here ∙ ap some (sym index), others.1),
    )

pub realms-places :
    (c : Configuration)
    → IsAccepted c
    → (map (index_of c) c.realms ≡ range 1 (length c.realms))
      × All (λ r. share_index c r.id ≡ some (index_of c r)) c.realms
realms-places c a =
    places c c.realms 1
      (λ i r e. (share_index_place c i r a.distinct a.fits e).0 ∙ ap some (omega arith))

module _ (F : ScalarField) (K : Crypto F) where
  -- Shares are given by their indices and their secrets.
  pub shares_by_parts :
      {A : Type 0} (shares : List (Share F (scalar_secret F))) (xs : List A) (index : A → ℕ)
      (secret : A → F.Scalar)
      → map (λ s. s.index) shares ≡ map index xs
      → map (λ s. s.secret) shares ≡ map secret xs
      → shares ≡ map (λ x. record { index = index x; secret = secret x }) xs
  shares_by_parts [] [] index secret h k = refl
  shares_by_parts [] (x ∷ xs) index secret h k = cc
  shares_by_parts (s ∷ shares) [] index secret h k = cc
  shares_by_parts (s ∷ shares) (x ∷ xs) index secret h k =
      let i = cons_injective h in
      let p = cons_injective k in
      let rest = shares_by_parts shares xs index secret i.1 p.1 in
      ap₂ (λ a b. record { index = a; secret = b } ∷ shares) i.0 p.0
      ∙ ap (λ l. record { index = index x; secret = secret x } ∷ l) rest

  -- One signed key for each realm, all of them with the signer's verifying key.
  pub signed_public_keys-parts :
      {E : Type 0} (signing_key : K.SigningKey) (shares : List F.Scalar) (realms : List Realm)
      (signed : List OprfSignedPublicKey)
      → ◌≡◌ {A = Outcome E (List OprfSignedPublicKey)}
          (signed_public_keys F K signing_key shares realms)
          (ok signed)
      → length shares ≡ length realms
      → (length signed ≡ length realms)
        × All (λ s. s.verifying_key ≡ K.verifying_key_bytes signing_key) signed
  unfolding signed_public_keys sign_public_key
  signed_public_keys-parts signing_key [] [] signed h l =
      subst (λ s. (length s ≡ 0) × All (λ k. k.verifying_key ≡ K.verifying_key_bytes signing_key) s)
        (ok_injective h) (refl, tt)
  signed_public_keys-parts signing_key [] (r ∷ rs) signed h l = absurd (omega (arith, l))
  signed_public_keys-parts signing_key (s ∷ ss) [] signed h l = absurd (omega (arith, l))
  signed_public_keys-parts {E = E} signing_key (s ∷ ss) (r ∷ rs) signed h l =
      let a =
        >>=-eq-ok {E = E} (sign_public_key F K (to_public_key F K.group s) r.id signing_key) _ h in
      let b = >>=-eq-ok (signed_public_keys F K signing_key ss rs) _ a.2 in
      let m = >>=-eq-ok (signature_msg r.id (to_public_key F K.group s)) _ a.1 in
      let rest = signed_public_keys-parts {E = E} signing_key ss rs b.0 b.1 (omega (arith, l)) in
      subst
        (λ k.
          (length k ≡ length (r ∷ rs))
          × All (λ x. x.verifying_key ≡ K.verifying_key_bytes signing_key) k)
        (ok_injective b.2)
        (ap suc rest.0, (sym (ap (λ k. k.verifying_key) (ok_injective m.2)), rest.1))

  -- The requests, column by column.
  pub register2_requests-columns :
      {E : Type 0} (reg : Registration F K) (realms : List Realm) (key_shares : List F.Scalar)
      (signed : List OprfSignedPublicKey) (scalar_shares : List F.Scalar)
      (requests : List (Realm × Register2Request F K))
      → ◌≡◌ {A = Outcome E (List (Realm × Register2Request F K))}
          (register2_requests F K reg realms key_shares signed scalar_shares)
          (ok requests)
      → length key_shares ≡ length realms
      → length signed ≡ length realms
      → length scalar_shares ≡ length realms
      → (map (λ r. r.0) requests ≡ realms)
        × (map (λ r. r.1.oprf_private_key) requests ≡ key_shares)
        × (map (λ r. r.1.oprf_signed_public_key) requests ≡ signed)
        × (map (λ r. r.1.encryption_key_scalar_share) requests ≡ scalar_shares)
  unfolding register2_requests
  register2_requests-columns reg [] [] [] [] requests h k l m =
      subst
        (λ all.
          (map (λ r. r.0) all ≡ [])
          × (map (λ r. r.1.oprf_private_key) all ≡ [])
          × (map (λ r. r.1.oprf_signed_public_key) all ≡ [])
          × (map (λ r. r.1.encryption_key_scalar_share) all ≡ []))
        (ok_injective h) (refl, refl, refl, refl)
  register2_requests-columns reg [] (x ∷ ks) ss es requests h k l m = absurd (omega (arith, k))
  register2_requests-columns reg [] [] (x ∷ ss) es requests h k l m = absurd (omega (arith, l))
  register2_requests-columns reg [] [] [] (x ∷ es) requests h k l m = absurd (omega (arith, m))
  register2_requests-columns reg (r ∷ rs) [] ss es requests h k l m = absurd (omega (arith, k))
  register2_requests-columns reg (r ∷ rs) (k' ∷ ks) [] es requests h k l m =
      absurd (omega (arith, l))
  register2_requests-columns reg (r ∷ rs) (k' ∷ ks) (s ∷ ss) [] requests h k l m =
      absurd (omega (arith, m))
  register2_requests-columns {E = E} reg (r ∷ rs) (k' ∷ ks) (s ∷ ss) (e ∷ es) requests h k l m =
      let t = >>=-eq-ok {E = E} (unlock_key_tag F K reg.unlock_key r.id) _ h in
      let d =
        >>=-eq-ok (encrypted_user_secret_commitment F K reg.unlock_key r.id e reg.encrypted_secret)
          _ t.2 in
      let q = >>=-eq-ok (register2_requests F K reg rs ks ss es) _ d.2 in
      let rest =
        register2_requests-columns {E = E} reg rs ks ss es q.0 q.1 (omega (arith, k))
          (omega (arith, l)) (omega (arith, m)) in
      subst
        (λ all.
          (map (λ r. r.0) all ≡ r ∷ rs)
          × (map (λ r. r.1.oprf_private_key) all ≡ k' ∷ ks)
          × (map (λ r. r.1.oprf_signed_public_key) all ≡ s ∷ ss)
          × (map (λ r. r.1.encryption_key_scalar_share) all ≡ e ∷ es))
        (ok_injective q.2)
        (
          ap (λ x. r ∷ x) rest.0,
          ap (λ x. k' ∷ x) rest.1,
          ap (λ x. s ∷ x) rest.2,
          ap (λ x. e ∷ x) rest.3,
        )
