-- ===== src/Auth/Roundtrip.antt =====
-- A token of rust/realm/auth/src/creation.rs is accepted by rust/realm/auth/src/validation.rs, and the
-- text of a realm's identifier is read back.
use mathlib.Core.Option.{map as map_option}
use juicebox_sdk.Prelude.{
  some_injective, ℕ, ◌+◌, ◌<◌, ◌≡◌, ◌≢◌, inl, inr, refl, sym, subst, ap, ◌≤◌, ◌∙◌, Bool, true, [],
  ◌∷◌, ◌++◌, Bytes, AreBytes, Option, none, some, ok, >>=-eq-ok, assert, assert-eq-ok, unwrap,
  unwrap-eq-ok, ◌==◌, ==_iff, length, bytes_eq, bytes_eq_iff, Bool-cases, u64_mod, All, arith,
}
use juicebox_sdk.Secret.Padding.{secret_bytes_array-some}
use juicebox_sdk.Realm.{RealmId}
use juicebox_sdk.Auth.{AuthKey, Scope, user, audit, as_str, Claims, as_string, JwtClaims, Jwt}
use juicebox_sdk.Auth.Text.{without, display_u64}
use juicebox_sdk.Auth.Tokens.{
  Require, require_scope, scope_or_missing, any_scope_or_missing, scope_from_str, subtract_u64,
  check_lifetime, scope_eq, optional_scope, parsed_scope, sized_id, check_scope, token_key_id,
  max_lifetime, realm_id_text, realm_id_from_str, create_token, new_validator, validated,
  validate_claims, validate,
}
use juicebox_sdk.Auth.Decimal.{parse_key_id-display_u64}
use juicebox_sdk.Auth.Sound.{Permits}

-- A scope is read back from its text.
pub scope_from_str-as_str : (scope : Scope) → scope_from_str (as_str scope) ≡ ok scope
unfolding scope_from_str bytes_eq
scope_from_str-as_str user = refl
scope_from_str-as_str audit = refl

optional_scope-as_str : (scope : Option Scope) → optional_scope (map_option as_str scope) ≡ ok scope
optional_scope-as_str none = refl
optional_scope-as_str (some s) = ap parsed_scope (scope_from_str-as_str s)

scope_eq_refl : (s : Scope) → scope_eq s s ≡ true
scope_eq_refl user = refl
scope_eq_refl audit = refl

check_scope-ok :
    (scope : Option Scope) (required : Require)
    → Permits required scope
    → check_scope scope required ≡ ok tt
unfolding check_scope
check_scope-ok none (require_scope s) h = cc
check_scope-ok none (scope_or_missing s) h = refl
check_scope-ok none any_scope_or_missing h = refl
check_scope-ok (some a) any_scope_or_missing h = refl
check_scope-ok (some a) (require_scope s) h =
    let same : a ≡ s = cc in rw same (rw (scope_eq_refl s) refl)
check_scope-ok (some a) (scope_or_missing s) (inl h) = cc
check_scope-ok (some a) (scope_or_missing s) (inr h) =
    let same : a ≡ s = cc in rw same (rw (scope_eq_refl s) refl)

check_lifetime-ok :
    (checks : Bool) (nbf : ℕ)
    → check_lifetime checks (some max_lifetime) (some nbf) (some (nbf + 600)) ≡ ok tt
unfolding check_lifetime subtract_u64
check_lifetime-ok checks nbf = ground arith

-- What a token for these claims says: it is valid for ten minutes from now on.
abbrev pub said : Jwt → Claims → JwtClaims
said J claims = record {
  issued_at = some J.now;
  invalid_before = some J.now;
  expires_at = some (J.now + 600);
  issuer = some claims.issuer;
  subject = some claims.subject;
  audiences = some (as_string (J.hex_encode claims.audience));
  scope = map_option as_str claims.scope;
}

module _ (J : Jwt) (claims : Claims) (required : Require) where
  validated-ok :
      AreBytes claims.audience
      → length claims.audience ≡ 16
      → Permits required claims.scope
      → validated J
          (new_validator J claims.audience required)
          (said J claims)
          claims.issuer
          claims.subject
        ≡ ok claims
  unfolding validated new_validator
  validated-ok bytes l p =
      rw
        (
          J.hex_decode-hex_encode claims.audience bytes,
          secret_bytes_array-some 16 claims.audience l,
          optional_scope-as_str claims.scope,
          check_scope-ok claims.scope required p,
        )
        refl

  validate_claims-ok :
      (checks : Bool) (token : Bytes) (version : ℕ)
      → AreBytes claims.audience
      → length claims.audience ≡ 16
      → Permits required claims.scope
      → token_key_id J token ≡ ok (claims.issuer, version)
      → validate_claims J checks (new_validator J claims.audience required) token (said J claims)
        ≡ ok claims
  unfolding validate_claims new_validator
  validate_claims-ok checks token version bytes l p k =
      rw
        (
          check_lifetime-ok checks J.now,
          k,
          (bytes_eq_iff claims.issuer claims.issuer).1 refl,
          validated-ok bytes l p,
        )
        refl

-- A token is made with the private key, signs what it is to say, and names the issuer and the version.
create_token-said :
    (J : Jwt) (claims : Claims) (key : AuthKey) (version : ℕ) (token : Bytes)
    → create_token J {E = ⊥} claims key version ≡ ok token
    → (J.is_issuer claims.issuer ≡ true)
      × ((private : J.PrivateKey) × (J.private_key key.algorithm key.data' ≡ some private)
          × (J.sign private (claims.issuer ++ (58 ∷ display_u64 version)) (said J claims)
              ≡ some token))
unfolding create_token
create_token-said J claims key version token h =
    let a = >>=-eq-ok (assert (J.is_issuer claims.issuer)) _ h in
    let p = >>=-eq-ok (unwrap (J.private_key key.algorithm key.data')) _ a.2 in
    let key_id = claims.issuer ++ (58 ∷ display_u64 version) in
    let made =
      J.new_claims-eq (map_option as_str claims.scope) 600 (J.hex_encode claims.audience)
        claims.issuer claims.subject in
    (
      assert-eq-ok (J.is_issuer claims.issuer) a.1,
      (
        p.0,
        unwrap-eq-ok ⊥ (J.private_key key.algorithm key.data') p.1,
        ap (J.sign p.0 key_id) (sym made) ∙ unwrap-eq-ok ⊥ _ p.2,
      ),
    )

-- A token that was made for a realm, with a version below 2 ^ 64 and a scope that the validator
-- permits, is accepted by a validator for that realm with the public key that belongs to the private
-- one, if it has at most 1000 bytes and is verified at most five seconds before it was made and less
-- than 605 seconds after. It says what it was made for and is valid for ten minutes, the key's
-- identifier is the issuer and the version, and the claims come out as they went in.
pub validate-create_token :
    (J : Jwt) (checks : Bool) (claims : Claims) (key public_part : AuthKey) (version : ℕ)
    (token : Bytes) (required : Require) (private : J.PrivateKey) (public : J.PublicKey)
    → AreBytes claims.audience
    → length claims.audience ≡ 16
    → version < u64_mod
    → Permits required claims.scope
    → create_token J {E = ⊥} claims key version ≡ ok token
    → J.private_key key.algorithm key.data' ≡ some private
    → J.public_key public_part.algorithm public_part.data' ≡ some public
    → J.IsPair private public
    → length token ≤ 1000
    → J.now ≤ J.verified_at + 5
    → J.verified_at < J.now + 605
    → (J.verify_token public (J.hex_encode claims.audience) 1000 5 token ≡ some (said J claims))
      × (token_key_id J token ≡ ok (claims.issuer, version))
      × (validate J checks (new_validator J claims.audience required) token public_part ≡ ok claims)
unfolding validate token_key_id new_validator
validate-create_token J checks claims key public_part version token required private public bytes l
      small p made readable public_readable pair short begun running =
    let parts = create_token-said J claims key version token made in
    let signed = parts.1.2 in
    let same : parts.1.0 ≡ private = some_injective (sym parts.1.1 ∙ readable) in
    let header = J.decode_metadata-sign parts.1.0 _ _ signed in
    let id =
      parse_key_id-display_u64 claims.issuer version (J.is_issuer-All claims.issuer parts.0)
        small in
    let known : token_key_id J token ≡ ok (claims.issuer, version) = rw header (rw id refl) in
    let verified =
      J.verify_token-sign parts.1.0 public _ (said J claims) (J.hex_encode claims.audience) 1000 5
        (subst (λ k. J.IsPair k public) (sym same) pair) signed short refl
        (begun, begun, omega (arith, running)) in
    let done = validate_claims-ok J claims required checks token version bytes l p known in
    (verified, known, (rw public_readable (rw verified done)))

without_absent : (d : ℕ) (text : Bytes) → All (λ c. c ≢ d) text → without d text ≡ text
without_absent d [] h = refl
without_absent d (c ∷ cs) h = elim (Bool-cases (c == d)) [
  | inl e ↦ absurd (h.0 ((==_iff c d).0 e))
  | inr e ↦ rw e (ap (λ t. c ∷ t) (without_absent d cs h.1))
]

-- The text of a realm's identifier is 32 characters long, and it is read back as the identifier, with or
-- without hyphens in it.
pub realm_id_from_str-realm_id_text :
    (J : Jwt) (id : RealmId) (hyphenated : Bytes)
    → AreBytes id
    → length id ≡ 16
    → without 45 hyphenated ≡ J.hex_encode id
    → (text : Bytes) × (realm_id_text J {E = ⊥} id ≡ ok text)
      × (length text ≡ 32)
      × (realm_id_from_str J text ≡ some id)
      × (realm_id_from_str J hyphenated ≡ some id)
unfolding realm_id_text realm_id_from_str
realm_id_from_str-realm_id_text J id hyphenated bytes l h =
    let size : length (J.hex_encode id) ≡ 32 = omega (arith, J.length-hex_encode id, l) in
    let read : sized_id (J.hex_decode (J.hex_encode id)) ≡ some id =
      ap sized_id (J.hex_decode-hex_encode id bytes) ∙ secret_bytes_array-some 16 id l in
    (
      J.hex_encode id,
      (rw ((==_iff (length (J.hex_encode id)) 32).1 size) refl),
      size,
      ap (λ t. sized_id (J.hex_decode t))
            (without_absent 45 (J.hex_encode id) (J.hex_encode-All id))
          ∙ read,
      ap (λ t. sized_id (J.hex_decode t)) h ∙ read,
    )
