-- ===== src/Auth/Panics.antt =====
-- When rust/realm/auth/src/validation.rs panics.
use juicebox_sdk.Prelude.{
  ℕ, ◌<◌, ◌≡◌, ◌≢◌, ◌⊎◌, ◌↔◌, inl, inr, refl, Bool, true, false, Bytes, Option, none, some, Outcome,
  ok, err, panic, ◌>>=◌, ok_or, unwrap, ok_or-eq-ok, unwrap-eq-ok, if◌then◌else◌, bytes_eq, arith,
}
use juicebox_sdk.Secret.{secret_bytes_array}
use juicebox_sdk.Auth.{AuthKey, Scope, JwtClaims, Jwt}
use juicebox_sdk.Auth.Tokens.{
  TokenError, jwt, bad_key_id, bad_audience, bad_issuer, bad_subject, bad_scope, ScopeParseError,
  Require, require_scope, scope_or_missing, any_scope_or_missing, Validator, subtract_u64,
  check_lifetime, scope_eq, scope_from_str, parsed_scope, optional_scope, check_scope,
  audience_text, token_key_id, key_id_of, validated, validate_claims, validate,
}

module _ {E A : Type 0} where
  >>=-panic :
      {B : Type 0} (first : Outcome E A) (next : A → Outcome E B)
      → (first >>= next) ≡ panic
      → (first ≡ panic) ⊎ ((value : A) × (first ≡ ok value) × (next value ≡ panic))
  >>=-panic (ok value) next h = inr (value, refl, h)
  >>=-panic (err e) next h = cc
  >>=-panic panic next h = inl refl

  Calm->>= :
      {B : Type 0} (first : Outcome E A) (next : A → Outcome E B)
      → first ≢ panic
      → ((value : A) → next value ≢ panic)
      → (first >>= next) ≢ panic
  Calm->>= (ok value) next f n h = n value h
  Calm->>= (err e) next f n h = cc
  Calm->>= panic next f n h = f refl

  Calm-ok_or : (e : E) (o : Option A) → ok_or e o ≢ panic
  Calm-ok_or e none h = cc
  Calm-ok_or e (some a) h = cc

  Calm-if : (b : Bool) (a : A) (e : E) → ◌≢◌ {A = Outcome E A} (if b then ok a else err e) panic
  Calm-if true a e h = cc
  Calm-if false a e h = cc

unwrap-panic : {E A : Type 0} (o : Option A) → ◌≡◌ {A = Outcome E A} (unwrap o) panic → o ≡ none
unwrap-panic none h = refl
unwrap-panic (some a) h = cc

scope_from_str-calm : (text : Bytes) → scope_from_str text ≢ panic
unfolding scope_from_str
scope_from_str-calm text h = ground arith

optional_scope-calm : (scope : Option Bytes) → optional_scope scope ≢ panic
optional_scope-calm none h = cc
optional_scope-calm (some text) h = parsed (scope_from_str text) (scope_from_str-calm text) h
  where
    parsed : (r : Outcome ScopeParseError Scope) → r ≢ panic → parsed_scope r ≢ panic
    parsed (ok scope) n h = cc
    parsed (err e) n h = cc
    parsed panic n h = n refl

check_scope-calm : (scope : Option Scope) (required : Require) → check_scope scope required ≢ panic
unfolding check_scope
check_scope-calm none (require_scope s) h = cc
check_scope-calm none (scope_or_missing s) h = cc
check_scope-calm none any_scope_or_missing h = cc
check_scope-calm (some a) any_scope_or_missing h = cc
check_scope-calm (some a) (require_scope s) h = Calm-if (scope_eq a s) tt bad_scope h
check_scope-calm (some a) (scope_or_missing s) h = Calm-if (scope_eq a s) tt bad_scope h

-- There is a maximal lifetime, and the token ends before it starts.
abbrev pub EndsEarly : Option ℕ → Option ℕ → Option ℕ → Type 0
EndsEarly none nbf exp = ⊥
EndsEarly (some most) none exp = ⊥
EndsEarly (some most) (some nbf) none = ⊥
EndsEarly (some most) (some nbf) (some exp) = exp < nbf

check_lifetime-EndsEarly :
    (checks : Bool) (most nbf exp : Option ℕ)
    → (check_lifetime checks most nbf exp ≡ panic) ↔ ((checks ≡ true) × EndsEarly most nbf exp)
unfolding check_lifetime subtract_u64
check_lifetime-EndsEarly checks none nbf exp = ((λ h. cc), (λ h. absurd h.1))
check_lifetime-EndsEarly checks (some most) none exp = ((λ h. cc), (λ h. absurd h.1))
check_lifetime-EndsEarly checks (some most) (some nbf) none = ((λ h. cc), (λ h. absurd h.1))
check_lifetime-EndsEarly true (some most) (some nbf) (some exp) =
    ((λ h. (refl, ground arith)), (λ h. let late = h.1 in ground arith))
check_lifetime-EndsEarly false (some most) (some nbf) (some exp) =
    ((λ h. ground arith), (λ h. let e = h.0 in cc))

module _ (J : Jwt) where
  token_key_id-calm : (token : Bytes) → token_key_id J token ≢ panic
  unfolding token_key_id
  token_key_id-calm token =
      Calm->>= (ok_or jwt (J.decode_metadata token)) _ (Calm-ok_or jwt (J.decode_metadata token))
        (λ header. Calm-ok_or bad_key_id (key_id_of J header))

  validated-calm :
      (validator : Validator) (claims : JwtClaims) (issuer subject : Bytes)
      → validated J validator claims issuer subject ≢ panic
  unfolding validated
  validated-calm validator claims issuer subject =
      Calm->>= (ok_or bad_audience (audience_text claims.audiences)) _
        (Calm-ok_or bad_audience (audience_text claims.audiences))
        (λ text.
          Calm->>= (ok_or bad_audience (J.hex_decode text)) _
            (Calm-ok_or bad_audience (J.hex_decode text))
            (λ bytes.
              Calm->>= (ok_or bad_audience (secret_bytes_array 16 bytes)) _
                (Calm-ok_or bad_audience (secret_bytes_array 16 bytes))
                (λ audience.
                  Calm->>= (optional_scope claims.scope) _ (optional_scope-calm claims.scope)
                    (λ scope.
                      Calm->>= (check_scope scope validator.required) _
                        (check_scope-calm scope validator.required) (λ u h. cc)))))

  -- With verified claims, only the check of the lifetime panics.
  validate_claims-panic :
      (checks : Bool) (validator : Validator) (token : Bytes) (claims : JwtClaims)
      → (validate_claims J checks validator token claims ≡ panic) ↔ (
          (checks ≡ true)
          × EndsEarly validator.max_lifetime_seconds claims.invalid_before claims.expires_at)
  unfolding validate_claims
  validate_claims-panic checks validator token claims =
      let lifetime =
        check_lifetime-EndsEarly checks validator.max_lifetime_seconds claims.invalid_before
          claims.expires_at in
      (
        (λ h.
            elim (>>=-panic
              (check_lifetime checks validator.max_lifetime_seconds claims.invalid_before
                claims.expires_at)
              _ h) [
                | inl p ↦ lifetime.0 p
                | inr v ↦ absurd (
                    Calm->>= (ok_or bad_issuer claims.issuer) _
                      (Calm-ok_or bad_issuer claims.issuer)
                      (λ issuer.
                        Calm->>= (ok_or bad_subject claims.subject) _
                          (Calm-ok_or bad_subject claims.subject)
                          (λ subject.
                            Calm->>= (token_key_id J token) _ (token_key_id-calm token) (λ tenant.
                              Calm->>= (if bytes_eq tenant.0 issuer then ok tt else err bad_key_id)
                                _ (Calm-if (bytes_eq tenant.0 issuer) tt bad_key_id)
                                (λ u. validated-calm validator claims issuer subject))))
                      v.2)
              ]),
        (λ h. rw (lifetime.1 h) refl),
      )

  -- The build checks for overflow, and a token that is verified ends before it starts.
  abbrev pub Underflows : Bool → Validator → Bytes → AuthKey → Type 0
  Underflows checks validator token key =
      (public : J.PublicKey) × (claims : JwtClaims) × (J.public_key key.algorithm key.data'
        ≡ some public)
      × (J.verify_token public validator.audience 1000 5 token ≡ some claims)
      × (checks ≡ true)
      × EndsEarly validator.max_lifetime_seconds claims.invalid_before claims.expires_at

  -- A validator panics exactly if it cannot read the public key, or if the build checks for overflow, the
  -- validator has a maximal lifetime, and the token is verified and ends before it starts.
  pub validate-panic_iff :
      (checks : Bool) (validator : Validator) (token : Bytes) (key : AuthKey)
      → (validate J checks validator token key ≡ panic)
        ↔ ((J.public_key key.algorithm key.data' ≡ none) ⊎ Underflows checks validator token key)
  unfolding validate
  validate-panic_iff checks validator token key = (panics, caused)
    where
      panics :
          validate J checks validator token key ≡ panic
          → (J.public_key key.algorithm key.data' ≡ none) ⊎ Underflows checks validator token key
      panics h = elim (>>=-panic (unwrap (J.public_key key.algorithm key.data')) _ h) [
        | inl p ↦ inl (unwrap-panic (J.public_key key.algorithm key.data') p)
        | inr k ↦
            elim (>>=-panic (ok_or jwt (J.verify_token k.0 validator.audience 1000 5 token)) _
              k.2) [
                | inl p ↦
                    absurd (Calm-ok_or jwt (J.verify_token k.0 validator.audience 1000 5 token) p)
                | inr v ↦
                    let late = (validate_claims-panic checks validator token v.0).0 v.2 in
                    inr (
                      k.0,
                      v.0,
                      unwrap-eq-ok TokenError (J.public_key key.algorithm key.data') k.1,
                      ok_or-eq-ok jwt (J.verify_token k.0 validator.audience 1000 5 token) v.1,
                      late.0,
                      late.1,
                    )
              ]
      ]

      caused :
          (J.public_key key.algorithm key.data' ≡ none) ⊎ Underflows checks validator token key
          → validate J checks validator token key ≡ panic
      caused (inl n) = rw n refl
      caused (inr v) =
          rw v.2 (rw v.3 ((validate_claims-panic checks validator token v.1).1 (v.4, v.5)))
