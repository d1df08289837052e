-- ===== src/Tests/Tokens.antt =====
-- Tokens of a small library.
use juicebox_sdk.Prelude.{
  ◌⊎◌, ◌↔◌, ℕ, zero, suc, ◌<◌, ◌≡◌, refl, true, ◌∷◌, Bytes, AreBytes, bytes_of, Option, none, some,
  Outcome, ok, panic, length, replicate, arith, bytes_eq,
}
use juicebox_sdk.Auth.{AuthKey, auth_key_from, user, Claims, JwtClaims}
use juicebox_sdk.Auth.Tokens.{
  require_scope, validate, validate_claims, validated, new_validator, token_key_id, parse_key_id,
  create_token, realm_id_text, realm_id_from_str, check_lifetime, subtract_u64, check_scope,
  scope_from_str,
}
use juicebox_sdk.Auth.Sound.{States, validate-States}
use juicebox_sdk.Auth.Panics.{Underflows, validate-panic_iff}
use juicebox_sdk.Auth.Roundtrip.{validate-create_token, realm_id_from_str-realm_id_text}
use juicebox_sdk.Tests.Jwt.{encode, claims_of, sealed, claims_in, library}

abbrev id : Bytes
id = replicate 16 5

abbrev claims : Claims
claims = record {
  issuer = bytes_of "tenant";
  subject = bytes_of "mario";
  audience = id;
  scope = some user;
}

abbrev stated : JwtClaims
stated = claims_of (some (bytes_of "user")) 600 (encode id) (bytes_of "tenant") (bytes_of "mario")

abbrev key : AuthKey
key = auth_key_from (bytes_of "secret")

abbrev token : Bytes
token = sealed (bytes_of "tenant:32") stated

replicate-AreBytes : (n b : ℕ) → b < 256 → AreBytes (replicate n b)
replicate-AreBytes zero b h = tt
replicate-AreBytes (suc n) b h = (h, replicate-AreBytes n b h)

bytes : AreBytes id
bytes = replicate-AreBytes 16 5 (omega arith)

made : ◌≡◌ {A = Outcome ⊥ Bytes} (create_token library claims key 32) (ok token)
unfolding create_token
made = refl

identified : token_key_id library token ≡ ok (bytes_of "tenant", 32)
unfolding token_key_id parse_key_id
identified = refl

accepted :
    validate library true (new_validator library id (require_scope user)) token key ≡ ok claims
unfolding validate validate_claims validated new_validator token_key_id parse_key_id check_lifetime
    subtract_u64 check_scope scope_from_str bytes_eq
accepted = refl

validate-create_token_example :
    (claims_in token ≡ some stated)
    × (token_key_id library token ≡ ok (bytes_of "tenant", 32))
    × (validate library true (new_validator library id (require_scope user)) token key ≡ ok claims)
validate-create_token_example =
    validate-create_token library true claims key key 32 token (require_scope user)
      (bytes_of "secret") (bytes_of "secret") bytes refl (omega arith) refl made refl refl refl
      (omega arith) (omega arith) (omega arith)

validate-States_example :
    (public : Bytes) × (verified : JwtClaims) × (◌≡◌ {A = Option Bytes}
      (some (bytes_of "secret"))
      (some public))
    × (claims_in token ≡ some verified)
    × States library true (new_validator library id (require_scope user)) token verified claims
validate-States_example =
    validate-States library true (new_validator library id (require_scope user)) token key claims
      accepted

-- A token whose claims end before they start.
abbrev reversed : Bytes
reversed = sealed (bytes_of "tenant:32") (record stated { expires_at = some 997 })

reversed_panics :
    validate library true (new_validator library id (require_scope user)) reversed key ≡ panic
unfolding validate validate_claims check_lifetime subtract_u64 new_validator
reversed_panics = refl

validate-panic_iff_example :
    (validate library true (new_validator library id (require_scope user)) reversed key ≡ panic) ↔ (
      (◌≡◌ {A = Option Bytes} (some (bytes_of "secret")) none)
      ⊎ Underflows library true (new_validator library id (require_scope user)) reversed key)
validate-panic_iff_example =
    validate-panic_iff library true (new_validator library id (require_scope user)) reversed key

realm_id_from_str-realm_id_text_example :
    (text : Bytes) × (realm_id_text library {E = ⊥} id ≡ ok text)
    × (length text ≡ 32)
    × (realm_id_from_str library text ≡ some id)
    × (realm_id_from_str library (45 ∷ encode id) ≡ some id)
realm_id_from_str-realm_id_text_example =
    realm_id_from_str-realm_id_text library id (45 ∷ encode id) bytes refl refl
