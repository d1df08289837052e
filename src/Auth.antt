-- ===== src/Auth.antt =====
-- rust/realm/auth/src/lib.rs: what an authentication token states, and with which key. A text is the
-- list of its characters' numbers.
pub mod Text
pub mod Tokens
pub mod Decimal
pub mod Sound
pub mod Panics
pub mod Roundtrip
use juicebox_sdk.Prelude.{
  ℕ, ◌*◌, ◌+◌, ◌≤◌, ◌<◌, ◌≡◌, ◌≢◌, Bool, true, Bytes, AreBytes, bytes_of, Option, some, none, All,
  length,
}
use juicebox_sdk.Realm.{RealmId}

pub data AuthKeyAlgorithm : Type 0 where
  rs256 hs256 ed_dsa : AuthKeyAlgorithm

pub record AuthKey : Type 0 where
  pub data' : Bytes
  pub algorithm : AuthKeyAlgorithm

-- `From<Vec<u8>> for AuthKey`
abbrev pub auth_key_from : Bytes → AuthKey
auth_key_from value = record { data' = value; algorithm = hs256 }

pub data Scope : Type 0 where
  user audit : Scope

abbrev pub as_str : Scope → Bytes
as_str user = bytes_of "user"
as_str audit = bytes_of "audit"

pub record Claims : Type 0 where
  pub issuer : Bytes
  pub subject : Bytes
  pub audience : RealmId
  pub scope : Option Scope

-- The claims of the crate jwt-simple, with `CustomClaims`. Times are in seconds.
pub data Audiences : Type 0 where
  as_set : Audiences
  as_string : Bytes → Audiences

pub record JwtClaims : Type 0 where
  pub issued_at : Option ℕ
  pub invalid_before : Option ℕ
  pub expires_at : Option ℕ
  pub issuer : Option Bytes
  pub subject : Option Bytes
  pub audiences : Option Audiences
  pub scope : Option Bytes

-- A time that is given is not after the latest one allowed, or has not passed yet.
abbrev pub IsBegun : Option ℕ → ℕ → Type 0
IsBegun none latest = Unit
IsBegun (some time) latest = time ≤ latest

abbrev pub IsRunning : Option ℕ → ℕ → ℕ → Type 0
IsRunning none tolerance now = Unit
IsRunning (some time) tolerance now = now < time + tolerance

-- At a time the claims have begun and have not expired, with a tolerance in seconds.
abbrev pub IsCurrent : JwtClaims → ℕ → ℕ → Type 0
IsCurrent claims tolerance now =
    IsBegun claims.issued_at (now + tolerance)
    × IsBegun claims.invalid_before (now + tolerance)
    × IsRunning claims.expires_at tolerance now

-- What the tokens take from the crates jwt-simple, hex and regex, which are not part of the repository.
pub record Jwt : Type 1 where
  pub PrivateKey : Type 0
  pub PublicKey : Type 0
  -- `from_der` and `from_bytes`
  pub private_key : AuthKeyAlgorithm → Bytes → Option PrivateKey
  pub public_key : AuthKeyAlgorithm → Bytes → Option PublicKey
  -- The private key and the public key belong together.
  pub IsPair : PrivateKey → PublicKey → Type 0
  -- `Claims::with_custom_claims` of a scope and a duration in seconds, with an audience, an issuer and
  -- a subject: the claims are valid from the time at which they are made, for that long.
  pub new_claims : Option Bytes → ℕ → Bytes → Bytes → Bytes → JwtClaims
  pub now : ℕ
  pub new_claims-eq :
      (scope : Option Bytes) (seconds : ℕ) (audience issuer subject : Bytes)
      → new_claims scope seconds audience issuer subject ≡ record {
        issued_at = some now;
        invalid_before = some now;
        expires_at = some (now + seconds);
        issuer = some issuer;
        subject = some subject;
        audiences = some (as_string audience);
        scope = scope;
      }
  -- `sign` and `authenticate` with a key that has an identifier, which `decode_metadata` gives back.
  pub sign : PrivateKey → Bytes → JwtClaims → Option Bytes
  pub decode_metadata : Bytes → Option (Option Bytes)
  pub decode_metadata-sign :
      (key : PrivateKey) (key_id : Bytes) (claims : JwtClaims) {token : Bytes}
      → sign key key_id claims ≡ some token
      → decode_metadata token ≡ some (some key_id)
  -- `verify_token` with one allowed audience, a maximal length and a tolerance in seconds.
  pub verify_token : PublicKey → Bytes → ℕ → ℕ → Bytes → Option JwtClaims
  -- A token that was signed with the private key, is not too long, names the audience and is current
  -- when it is verified with the public key, gives back the claims that were signed.
  pub verified_at : ℕ
  pub verify_token-sign :
      (private : PrivateKey) (public : PublicKey) (key_id : Bytes) (claims : JwtClaims)
      (audience : Bytes) (longest tolerance : ℕ) {token : Bytes}
      → IsPair private public
      → sign private key_id claims ≡ some token
      → length token ≤ longest
      → claims.audiences ≡ some (as_string audience)
      → IsCurrent claims tolerance verified_at
      → verify_token public audience longest tolerance token ≡ some claims
  -- A match with "^(test-)?[a-zA-Z0-9]+$", in which no character is a colon.
  pub is_issuer : Bytes → Bool
  pub is_issuer-All : (text : Bytes) → is_issuer text ≡ true → All (λ c. c ≢ 58) text
  pub hex_encode : Bytes → Bytes
  pub hex_decode : Bytes → Option Bytes
  pub length-hex_encode : (bytes : Bytes) → length (hex_encode bytes) ≡ 2 * length bytes
  pub hex_encode-All : (bytes : Bytes) → All (λ c. c ≢ 45) (hex_encode bytes)
  pub hex_decode-hex_encode :
      (bytes : Bytes) → AreBytes bytes → hex_decode (hex_encode bytes) ≡ some bytes
