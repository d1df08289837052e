-- ===== src/Auth/Tokens.antt =====
-- rust/realm/auth/src/creation.rs and rust/realm/auth/src/validation.rs, and the text of a realm's
-- identifier in rust/realm/api/src/types.rs.
use mathlib.Core.Option.{map as map_option}
use juicebox_sdk.Prelude.{
  ℕ, ◌+◌, ◌-◌, ◌*◌, Bool, true, false, ◌∷◌, ◌++◌, Bytes, bytes_of, Option, none, some, Outcome, ok,
  err, panic, ◌>>=◌, ◌>>◌, assert, ok_or, unwrap, ltb, leb, ◌==◌, if◌then◌else◌, length, bytes_eq,
  u64_mod,
}
use juicebox_sdk.Secret.{secret_bytes_array}
use juicebox_sdk.Realm.{RealmId}
use juicebox_sdk.Auth.{
  AuthKey, Scope, user, audit, as_str, Claims, Audiences, as_set, as_string, JwtClaims, Jwt,
}
use juicebox_sdk.Auth.Text.{trim, split_once, without, parse_u64, display_u64}

-- `ScopeParseError`
pub data ScopeParseError : Type 0 where
  scope_parse_error : ScopeParseError

-- `FromStr for Scope`
unfoldable pub scope_from_str : Bytes → Outcome ScopeParseError Scope
scope_from_str s =
    let text = trim s in
    if bytes_eq text (bytes_of "audit")
    then ok audit
    else if bytes_eq text (bytes_of "user")
    then ok user
    else err scope_parse_error

pub data TokenError : Type 0 where
  jwt bad_key_id bad_audience bad_issuer bad_subject bad_scope lifetime_too_long : TokenError

pub data Require : Type 0 where
  require_scope scope_or_missing : Scope → Require
  any_scope_or_missing : Require

pub record Validator : Type 0 where
  pub audience : Bytes
  pub max_lifetime_seconds : Option ℕ
  pub required : Require

abbrev pub max_lifetime : ℕ
max_lifetime = 60 * 60 * 24

abbrev pub tenant_and_version : Option (Bytes × Bytes) → Option (Bytes × ℕ)
tenant_and_version none = none
tenant_and_version (some (tenant, version)) = map_option (λ v. (tenant, v)) (parse_u64 version)

-- Returns tenant and version.
unfoldable pub parse_key_id : Bytes → Option (Bytes × ℕ)
parse_key_id key_id = tenant_and_version (split_once 58 key_id)

-- `-` on `u64`, which panics or wraps around below zero, as the build checks for overflow or not.
unfoldable pub subtract_u64 : {E : Type 0} → Bool → ℕ → ℕ → Outcome E ℕ
subtract_u64 checks a b =
    if leb b a then ok (a - b) else if checks then panic else ok (a + u64_mod - b)

-- The check of the lifetime.
unfoldable pub check_lifetime :
    Bool → Option ℕ → Option ℕ → Option ℕ → Outcome TokenError (Unit {0})
unfolding subtract_u64
check_lifetime checks none nbf exp = ok tt
check_lifetime checks (some most) (some nbf) (some exp) = do
  lifetime ← subtract_u64 checks exp nbf
  if ltb most lifetime then err lifetime_too_long else ok tt
check_lifetime checks (some most) _ _ = err lifetime_too_long

abbrev pub scope_eq : Scope → Scope → Bool
scope_eq user user = true
scope_eq audit audit = true
scope_eq _ _ = false

abbrev pub parsed_scope : Outcome ScopeParseError Scope → Outcome TokenError (Option Scope)
parsed_scope (ok scope) = ok (some scope)
parsed_scope (err e) = err bad_scope
parsed_scope panic = panic

abbrev pub optional_scope : Option Bytes → Outcome TokenError (Option Scope)
optional_scope none = ok none
optional_scope (some text) = parsed_scope (scope_from_str text)

unfoldable pub check_scope : Option Scope → Require → Outcome TokenError (Unit {0})
check_scope none (require_scope _) = err bad_scope
check_scope none (scope_or_missing _) = ok tt
check_scope _ any_scope_or_missing = ok tt
check_scope (some actual) (require_scope required) =
    if scope_eq actual required then ok tt else err bad_scope
check_scope (some actual) (scope_or_missing required) =
    if scope_eq actual required then ok tt else err bad_scope

abbrev pub audience_text : Option Audiences → Option Bytes
audience_text none = none
audience_text (some as_set) = none
audience_text (some (as_string text)) = some text

abbrev pub sized_id : Option Bytes → Option RealmId
sized_id none = none
sized_id (some bytes) = secret_bytes_array 16 bytes

module _ (J : Jwt) where
  -- `Debug for RealmId`, and `FromStr for RealmId` without the texts of its errors.
  unfoldable pub realm_id_text : {E : Type 0} → RealmId → Outcome E Bytes
  realm_id_text id = do assert (length (J.hex_encode id) == 32); ok (J.hex_encode id)

  unfoldable pub realm_id_from_str : Bytes → Option RealmId
  realm_id_from_str s = sized_id (J.hex_decode (without 45 s))

  unfoldable pub create_token : {E : Type 0} → Claims → AuthKey → ℕ → Outcome E Bytes
  create_token claims key key_version = do
    assert (J.is_issuer claims.issuer)
    let jwt_claims =
        J.new_claims (map_option as_str claims.scope) (10 * 60) (J.hex_encode claims.audience)
          claims.issuer claims.subject
    let key_id = claims.issuer ++ (58 ∷ display_u64 key_version)
    private ← unwrap (J.private_key key.algorithm key.data')
    unwrap (J.sign private key_id jwt_claims)

  -- `Validator::new`
  unfoldable pub new_validator : RealmId → Require → Validator
  new_validator realm_id required = record {
    audience = J.hex_encode realm_id;
    max_lifetime_seconds = some max_lifetime;
    required = required;
  }

  abbrev pub key_id_of : Option Bytes → Option (Bytes × ℕ)
  key_id_of none = none
  key_id_of (some key_id) = parse_key_id key_id

  -- `Validator::parse_key_id`
  unfoldable pub token_key_id : Bytes → Outcome TokenError (Bytes × ℕ)
  token_key_id token = do
    header ← ok_or jwt (J.decode_metadata token)
    ok_or bad_key_id (key_id_of header)

  -- The last part of `Validator::validate`: the audience and the scope.
  unfoldable pub validated : Validator → JwtClaims → Bytes → Bytes → Outcome TokenError Claims
  validated validator claims issuer subject = do
    audience_hex ← ok_or bad_audience (audience_text claims.audiences)
    bytes ← ok_or bad_audience (J.hex_decode audience_hex)
    audience ← ok_or bad_audience (secret_bytes_array 16 bytes)
    scope ← optional_scope claims.scope
    check_scope scope validator.required
    ok (record { issuer = issuer; subject = subject; audience = audience; scope = scope })

  -- What `Validator::validate` does with the claims that the library has verified.
  unfoldable pub validate_claims : Bool → Validator → Bytes → JwtClaims → Outcome TokenError Claims
  unfolding validated
  validate_claims checks validator token claims = do
    check_lifetime checks validator.max_lifetime_seconds claims.invalid_before claims.expires_at
    issuer ← ok_or bad_issuer claims.issuer
    subject ← ok_or bad_subject claims.subject
    tenant ← token_key_id token
    if bytes_eq tenant.0 issuer then ok tt else err bad_key_id
    validated validator claims issuer subject

  -- `Validator::validate`, in a build that checks for overflow or one that does not.
  unfoldable pub validate : Bool → Validator → Bytes → AuthKey → Outcome TokenError Claims
  unfolding validate_claims
  validate checks validator token key = do
    public ← unwrap (J.public_key key.algorithm key.data')
    claims ← ok_or jwt (J.verify_token public validator.audience 1000 5 token)
    validate_claims checks validator token claims
