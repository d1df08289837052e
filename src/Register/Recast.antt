-- ===== src/Register/Recast.antt =====
-- What rust/sdk/src/register.rs makes between its two phases, with different types for the errors.
use juicebox_sdk.Prelude.{
  if◌then◌else◌, leb, ◌+◌, ◌-◌, ℕ, ◌≡◌, ap, ◌∙◌, List, [], ◌∷◌, map, Bool, true, false, Bytes,
  Option, none, some, Outcome, ok, panic, ◌>>=◌, assert, unwrap, >>=-eq-ok, ok_injective, length,
  ltb, u32_mod,
}
use juicebox_sdk.Curve.{ScalarField}
use juicebox_sdk.Curve.Scalars.{scalar_secret}
use juicebox_sdk.Crypto.{Crypto}
use juicebox_sdk.Realm.{Realm, PinHashingMode}
use juicebox_sdk.Configuration.{Configuration, share_count}
use juicebox_sdk.Marshalling.{to_be2, to_be4}
use juicebox_sdk.Api.{Policy}
use juicebox_sdk.Sharing.{Share, range, as_scalar, share_secret, create_shares}
use juicebox_sdk.Signing.{OprfSignedPublicKey, signature_msg, sign_public_key}
use juicebox_sdk.Keys.{
  fields, pin_hash, argon2, mode_params, unlock_key_tag, encrypted_user_secret_commitment,
  user_secret_encryption_key,
}
use juicebox_sdk.Secret.{
  secret_bytes_array, resize, max_user_secret_length, user_secret_encryption_nonce,
  padded_user_secret, encrypt,
}
use juicebox_sdk.Register.{
  Environment, Registration, signed_public_keys, register2_requests, prepared_requests,
}

-- Every value of the first outcome is one of the second.
abbrev pub Casts : {E E' A : Type 0} → Outcome E A → Outcome E' A → Type 0
Casts {A = A} m m' = (a : A) → m ≡ ok a → m' ≡ ok a

module _ (E E' : Type 0) where
  module _ {A : Type 0} where
    Casts-ok : (a : A) → Casts {E = E} {E' = E'} (ok a) (ok a)
    Casts-ok a b h = ap ok (ok_injective h)

    Casts-unwrap : (o : Option A) → Casts {E = E} {E' = E'} (unwrap o) (unwrap o)
    Casts-unwrap none b h = cc
    Casts-unwrap (some a) b h = ap ok (ok_injective h)

    Casts->>= :
        {B : Type 0} {m : Outcome E A} {m' : Outcome E' A} {k : A → Outcome E B}
        {k' : A → Outcome E' B}
        → Casts m m'
        → ((a : A) → Casts (k a) (k' a))
        → Casts (m >>= k) (m' >>= k')
    Casts->>= {m = m} {k = k} {k' = k'} f g b h =
        let v = >>=-eq-ok m k h in ap (λ x. x >>= k') (f v.0 v.1) ∙ g v.0 b v.2

  Casts-assert : (b : Bool) → Casts {E = E} {E' = E'} (assert b) (assert b)
  Casts-assert true a h = ap ok (ok_injective h)
  Casts-assert false a h = cc

  Casts-to_be4 : (n : ℕ) → Casts {E = E} {E' = E'} (to_be4 n) (to_be4 n)
  unfolding to_be4
  Casts-to_be4 n = Casts->>= (Casts-assert (ltb n u32_mod)) (λ u. Casts-ok _)

  Casts-to_be2 : (n : ℕ) → Casts {E = E} {E' = E'} (to_be2 n) (to_be2 n)
  unfolding to_be2
  Casts-to_be2 n = Casts->>= (Casts-assert _) (λ u. Casts-ok _)

  Casts-fields : (fs : List Bytes) → Casts {E = E} {E' = E'} (fields fs) (fields fs)
  unfolding fields
  Casts-fields [] = Casts-ok []
  Casts-fields (f ∷ fs) =
      Casts->>= (Casts-to_be4 (length f)) (λ s. Casts->>= (Casts-fields fs) (λ o. Casts-ok _))

  counted :
      (b : Bool) (n : ℕ)
      → Casts {E = E} {E' = E'} (if b then ok n else panic) (if b then ok n else panic)
  counted true n = Casts-ok n
  counted false n = λ a h. cc

  Casts-share_count : (c : Configuration) → Casts {E = E} {E' = E'} (share_count c) (share_count c)
  unfolding share_count
  Casts-share_count c = counted (ltb (length c.realms) u32_mod) (length c.realms)

  Casts-encrypt :
      (F : ScalarField) (K : Crypto F) (secret key : Bytes)
      → Casts {E = E} {E' = E'} (encrypt K.cipher secret key) (encrypt K.cipher secret key)
  unfolding encrypt padded_user_secret
  Casts-encrypt F K secret key =
      Casts->>= {A = Bytes}
        (Casts->>= (Casts-assert (ltb (length secret) 256)) (λ u. Casts-unwrap (
          secret_bytes_array 129 (resize (length secret ∷ secret) (max_user_secret_length + 1) 0))))
        (λ p.
          Casts->>= {A = Bytes} (Casts-unwrap (K.cipher.encrypt key user_secret_encryption_nonce p))
            (λ c. Casts-unwrap (secret_bytes_array 145 c)))

  module _ (F : ScalarField) (K : Crypto F) where
    Casts-pin_hash :
        (pin : Bytes) (mode : PinHashingMode) (version info : Bytes)
        → Casts {E = E} {E' = E'}
            (pin_hash F K pin mode version info)
            (pin_hash F K pin mode version info)
    unfolding pin_hash argon2
    Casts-pin_hash pin mode version info = hashed (mode_params F K mode)
      where
        hashed :
            (o : Option K.Params)
            → Casts {E = E} {E' = E'}
                (elim o [ none ↦ ok none | some params ↦ argon2 F K pin params version info ])
                (elim o [ none ↦ ok none | some params ↦ argon2 F K pin params version info ])
        hashed none = Casts-ok none
        hashed (some params) = Casts->>= (Casts-fields (version ∷ info ∷ [])) (λ s. Casts-ok _)

    Casts-create_shares :
        (secret : F.Scalar) (threshold count : ℕ) (random : ℕ → F.Scalar)
        → Casts {E = E} {E' = E'}
            (create_shares F (scalar_secret F) secret threshold count random)
            (create_shares F (scalar_secret F) secret threshold count random)
    unfolding create_shares
    Casts-create_shares secret threshold count random =
        Casts->>= (Casts-assert (ltb 0 threshold)) (λ u.
          Casts->>= (Casts-assert (ltb 0 count)) (λ u.
            Casts->>= (Casts-assert (leb threshold count)) (λ u.
              let shares =
                map
                  (λ index. record {
                    index = index;
                    secret =
                        share_secret F (scalar_secret F) (map random (range 0 (threshold - 1)))
                          secret (as_scalar F index);
                  })
                  (range 1 count) in
              Casts-ok {A = List (Share F (scalar_secret F))} shares)))

    Casts-signed_public_keys :
        (signing_key : K.SigningKey) (shares : List F.Scalar) (realms : List Realm)
        → Casts {E = E} {E' = E'}
            (signed_public_keys F K signing_key shares realms)
            (signed_public_keys F K signing_key shares realms)
    unfolding signed_public_keys sign_public_key signature_msg
    Casts-signed_public_keys signing_key [] realms = Casts-ok []
    Casts-signed_public_keys signing_key (s ∷ shares) [] = Casts-ok []
    Casts-signed_public_keys signing_key (s ∷ shares) (r ∷ realms) =
        Casts->>=
          (Casts->>=
            (Casts->>= (Casts-to_be2 _) (λ i. Casts->>= (Casts-to_be2 _) (λ k. Casts-ok _)))
            (λ m. Casts-ok _))
          (λ k. Casts->>= (Casts-signed_public_keys signing_key shares realms) (λ ks. Casts-ok _))

    Casts-register2_requests :
        (reg : Registration F K) (realms : List Realm) (keys : List F.Scalar)
        (signed : List OprfSignedPublicKey) (scalars : List F.Scalar)
        → Casts {E = E} {E' = E'}
            (register2_requests F K reg realms keys signed scalars)
            (register2_requests F K reg realms keys signed scalars)
    unfolding register2_requests unlock_key_tag encrypted_user_secret_commitment
    Casts-register2_requests reg [] keys signed scalars = Casts-ok []
    Casts-register2_requests reg (r ∷ realms) [] signed scalars = Casts-ok []
    Casts-register2_requests reg (r ∷ realms) (k ∷ keys) [] scalars = Casts-ok []
    Casts-register2_requests reg (r ∷ realms) (k ∷ keys) (s ∷ signed) [] = Casts-ok []
    Casts-register2_requests reg (r ∷ realms) (k ∷ keys) (s ∷ signed) (e ∷ scalars) =
        Casts->>= (Casts->>= (Casts-fields _) (λ m. Casts-ok _)) (λ t.
          Casts->>= (Casts->>= (Casts-fields _) (λ m. Casts-ok _)) (λ c.
            Casts->>= (Casts-register2_requests reg realms keys signed scalars)
              (λ rest. Casts-ok _)))

    pub Casts-prepared_requests :
        (env : Environment F K) (c : Configuration) (pin secret info : Bytes) (policy : Policy F K)
        → Casts {E = E} {E' = E'}
            (prepared_requests F K env c pin secret info policy)
            (prepared_requests F K env c pin secret info policy)
    unfolding prepared_requests user_secret_encryption_key
    Casts-prepared_requests env c pin secret info policy =
        Casts->>= (Casts-pin_hash pin c.pin_hashing_mode env.version info) (λ hashed.
          Casts->>= (Casts-unwrap hashed) (λ keys. Casts->>= (Casts-share_count c) (λ count.
            Casts->>= (Casts-create_shares _ _ count _) (λ shares.
              Casts->>= (Casts-signed_public_keys _ _ _) (λ signed.
                Casts->>= (Casts-create_shares _ _ count _) (λ scalars.
                  Casts->>= (Casts->>= (Casts-fields _) (λ m. Casts-ok _)) (λ key.
                    Casts->>= (Casts-encrypt F K secret key)
                      (λ encrypted. Casts-register2_requests _ _ _ _ _))))))))
