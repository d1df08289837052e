-- ===== src/Auth/Sound.antt =====
-- What an accepted token states: rust/realm/auth/src/validation.rs.
use juicebox_sdk.Prelude.{
  some_injective, ℕ, ◌+◌, ◌≤◌, ◌<◌, ◌≡◌, ◌⊎◌, inl, inr, refl, ap, subst, ◌∙◌, Bool, true, false,
  Bytes, Option, none, some, Outcome, ok, err, >>=-eq-ok, ok_injective, ok_or, unwrap, ok_or-eq-ok,
  unwrap-eq-ok, if◌then◌else◌, length, ◌==◌, ==_iff, bytes_eq, bytes_eq_iff, Bool-cases, u64_mod,
  arith,
}
use juicebox_sdk.Secret.{secret_bytes_array}
use juicebox_sdk.Auth.{
  AuthKey, Scope, user, audit, Claims, Audiences, as_set, as_string, JwtClaims, Jwt,
}
use juicebox_sdk.Auth.Tokens.{
  TokenError, jwt, bad_key_id, bad_audience, bad_issuer, bad_subject, bad_scope, Require,
  require_scope, scope_or_missing, any_scope_or_missing, Validator, subtract_u64, check_lifetime,
  scope_eq, optional_scope, check_scope, audience_text, token_key_id, validated, validate_claims,
  validate,
}

-- The token is valid for at most so many seconds. Without a check for overflow it can also end so long
-- before it starts that the difference wraps around to a small number.
abbrev pub Lives : Bool → Option ℕ → Option ℕ → Option ℕ → Type 0
Lives checks none nbf exp = Unit
Lives checks (some most) (some nbf) (some exp) =
    ((nbf ≤ exp) × (exp ≤ nbf + most))
    ⊎ ((exp < nbf) × (checks ≡ false) × (exp + u64_mod ≤ nbf + most))
Lives checks (some most) none exp = ⊥
Lives checks (some most) (some nbf) none = ⊥

abbrev pub Permits : Require → Option Scope → Type 0
Permits (require_scope required) scope = scope ≡ some required
Permits (scope_or_missing required) scope = (scope ≡ none) ⊎ (scope ≡ some required)
Permits any_scope_or_missing scope = Unit

check_lifetime-Lives :
    (checks : Bool) (most nbf exp : Option ℕ)
    → check_lifetime checks most nbf exp ≡ ok tt
    → Lives checks most nbf exp
unfolding check_lifetime subtract_u64
check_lifetime-Lives checks none nbf exp h = tt
check_lifetime-Lives checks (some most) none exp h = cc
check_lifetime-Lives checks (some most) (some nbf) none h = cc
check_lifetime-Lives true (some most) (some nbf) (some exp) h = ground arith
check_lifetime-Lives false (some most) (some nbf) (some exp) h = ground arith

scope_eq_sound : (a b : Scope) → scope_eq a b ≡ true → a ≡ b
scope_eq_sound user user h = refl
scope_eq_sound user audit h = cc
scope_eq_sound audit user h = cc
scope_eq_sound audit audit h = refl

guard-eq-ok :
    (b : Bool) (e : TokenError)
    → ◌≡◌ {A = Outcome TokenError (Unit {0})} (if b then ok tt else err e) (ok tt)
    → b ≡ true
guard-eq-ok true e h = refl
guard-eq-ok false e h = cc

check_scope-Permits :
    (scope : Option Scope) (required : Require)
    → check_scope scope required ≡ ok tt
    → Permits required scope
unfolding check_scope
check_scope-Permits none (require_scope s) h = cc
check_scope-Permits none (scope_or_missing s) h = inl refl
check_scope-Permits scope any_scope_or_missing h = tt
check_scope-Permits (some a) (require_scope s) h =
    ap some (scope_eq_sound a s (guard-eq-ok (scope_eq a s) bad_scope h))
check_scope-Permits (some a) (scope_or_missing s) h =
    inr (ap some (scope_eq_sound a s (guard-eq-ok (scope_eq a s) bad_scope h)))

audience_text-eq-some :
    (audiences : Option Audiences) {text : Bytes}
    → audience_text audiences ≡ some text
    → audiences ≡ some (as_string text)
audience_text-eq-some none h = cc
audience_text-eq-some (some as_set) h = cc
audience_text-eq-some (some (as_string t)) h =
    let same = some_injective h in ap (λ x. some (as_string x)) same

secret_bytes_array-eq-some :
    (n : ℕ) (bytes : Bytes) {array : Bytes}
    → secret_bytes_array n bytes ≡ some array
    → (bytes ≡ array) × (length array ≡ n)
secret_bytes_array-eq-some n bytes h = elim (Bool-cases (length bytes == n)) [
  | inl e ↦
      let h' = rw e at h in
      let same = some_injective h' in
      (same, subst (λ b. length b ≡ n) same ((==_iff (length bytes) n).0 e))
  | inr e ↦ let h' = rw e at h in cc
]

module _ (J : Jwt) (validator : Validator) (said : JwtClaims) (claims : Claims) where
  -- What is said of the realm and of the scope, which the validator permits.
  abbrev pub StatesRealm : Type 0
  StatesRealm =
      ((text : Bytes) × (said.audiences ≡ some (as_string text))
        × (J.hex_decode text ≡ some claims.audience))
      × (length claims.audience ≡ 16)
      × (optional_scope said.scope ≡ ok claims.scope)
      × Permits validator.required claims.scope

  validated-StatesRealm :
      (issuer subject : Bytes)
      → validated J validator said issuer subject ≡ ok claims
      → StatesRealm × (issuer ≡ claims.issuer) × (subject ≡ claims.subject)
  unfolding validated
  validated-StatesRealm issuer subject h =
      let x = >>=-eq-ok (ok_or bad_audience (audience_text said.audiences)) _ h in
      let b = >>=-eq-ok (ok_or bad_audience (J.hex_decode x.0)) _ x.2 in
      let a = >>=-eq-ok (ok_or bad_audience (secret_bytes_array 16 b.0)) _ b.2 in
      let o = >>=-eq-ok (optional_scope said.scope) _ a.2 in
      let c = >>=-eq-ok (check_scope o.0 validator.required) _ o.2 in
      let same = ok_injective c.2 in
      let array = secret_bytes_array-eq-some 16 b.0 (ok_or-eq-ok bad_audience _ a.1) in
      let decoded = ok_or-eq-ok bad_audience _ b.1 in
      (
        (
          (
            x.0,
            audience_text-eq-some said.audiences (ok_or-eq-ok bad_audience _ x.1),
            decoded ∙ ap some (array.0 ∙ ap (λ k. k.audience) same),
          ),
          subst (λ k. length k ≡ 16) (ap (λ k. k.audience) same) array.1,
          o.1 ∙ ap (λ k. ok k.scope) same,
          subst (λ k. Permits validator.required k.scope) same
              (check_scope-Permits o.0 validator.required c.1),
        ),
        ap (λ k. k.issuer) same,
        ap (λ k. k.subject) same,
      )

module _ (J : Jwt) (checks : Bool) (validator : Validator) (token : Bytes) where
  -- A lifetime that the validator allows, the issuer, which is also the tenant of the key's identifier,
  -- the subject, the realm, and a scope that the validator permits.
  abbrev pub States : JwtClaims → Claims → Type 0
  States said claims =
      Lives checks validator.max_lifetime_seconds said.invalid_before said.expires_at
      × (said.issuer ≡ some claims.issuer)
      × (said.subject ≡ some claims.subject)
      × ((version : ℕ) × (token_key_id J token ≡ ok (claims.issuer, version)))
      × StatesRealm J validator said claims

  validate_claims-States :
      (said : JwtClaims) (claims : Claims)
      → validate_claims J checks validator token said ≡ ok claims
      → States said claims
  unfolding validate_claims
  validate_claims-States said claims h =
      let l =
        >>=-eq-ok
          (check_lifetime checks validator.max_lifetime_seconds said.invalid_before said.expires_at)
          _ h in
      let i = >>=-eq-ok (ok_or bad_issuer said.issuer) _ l.2 in
      let s = >>=-eq-ok (ok_or bad_subject said.subject) _ i.2 in
      let t = >>=-eq-ok (token_key_id J token) _ s.2 in
      let g = >>=-eq-ok (if bytes_eq t.0.0 i.0 then ok tt else err bad_key_id) _ t.2 in
      let r = validated-StatesRealm J validator said claims i.0 s.0 g.2 in
      let tenant = (bytes_eq_iff t.0.0 i.0).0 (guard-eq-ok (bytes_eq t.0.0 i.0) bad_key_id g.1) in
      (
        check_lifetime-Lives checks validator.max_lifetime_seconds said.invalid_before
            said.expires_at l.1,
        ok_or-eq-ok bad_issuer said.issuer i.1 ∙ ap some r.1,
        ok_or-eq-ok bad_subject said.subject s.1 ∙ ap some r.2,
        (t.0.1, t.1 ∙ ap (λ n. ok (n, t.0.1)) (tenant ∙ r.1)),
        r.0,
      )

  -- A token that is accepted was verified with the key, for the validator's audience, and the result is
  -- what it states: the lifetime is one that the validator allows, the issuer is also the tenant in
  -- the key's identifier, and the scope is one that the validator permits.
  pub validate-States :
      (key : AuthKey) (claims : Claims)
      → validate J checks validator token key ≡ ok claims
      → (public : J.PublicKey) × (said : JwtClaims) × (J.public_key key.algorithm key.data'
          ≡ some public)
        × (J.verify_token public validator.audience 1000 5 token ≡ some said)
        × States said claims
  unfolding validate
  validate-States key claims h =
      let p = >>=-eq-ok (unwrap (J.public_key key.algorithm key.data')) _ h in
      let v = >>=-eq-ok (ok_or jwt (J.verify_token p.0 validator.audience 1000 5 token)) _ p.2 in
      (
        p.0,
        v.0,
        unwrap-eq-ok TokenError (J.public_key key.algorithm key.data') p.1,
        ok_or-eq-ok jwt (J.verify_token p.0 validator.audience 1000 5 token) v.1,
        validate_claims-States v.0 claims v.2,
      )
