-- ===== src/Tests/Jwt.antt =====
-- A small library for tokens, in which a token holds the identifier of its key and the claims.
use mathlib.Core.Path.{ap₂}
use juicebox_sdk.Prelude.{
  some_injective, ◌++◌, take, drop, take-append, ℕ, zero, suc, ◌+◌, ◌-◌, ◌*◌, ◌/◌, ◌%◌, ◌≡◌, ◌≢◌,
  refl, sym, ap, ◌∙◌, Bool, true, false, [], ◌∷◌, Bytes, AreBytes, Option, none, some, ◌==◌, ==_iff,
  if◌then◌else◌, Bool-cases, inl, inr, length, All, arith,
}
use juicebox_sdk.Auth.{Audiences, as_set, as_string, JwtClaims, Jwt}

-- Two letters for each byte.
abbrev pub encode : Bytes → Bytes
encode [] = []
encode (b ∷ bs) = (65 + b / 16) ∷ (65 + b % 16) ∷ encode bs

abbrev cons_byte : ℕ → Option Bytes → Option Bytes
cons_byte b none = none
cons_byte b (some bs) = some (b ∷ bs)

abbrev decode : Bytes → Option Bytes
decode [] = some []
decode (a ∷ []) = none
decode (a ∷ b ∷ rest) = cons_byte ((a - 65) * 16 + (b - 65)) (decode rest)

pub length-encode : (bytes : Bytes) → length (encode bytes) ≡ 2 * length bytes
length-encode [] = refl
length-encode (b ∷ bs) = omega (arith, length-encode bs)

pub encode-All : (bytes : Bytes) → All (λ c. c ≢ 45) (encode bytes)
encode-All [] = tt
encode-All (b ∷ bs) =
    (λ e. absurd (omega (arith, e)), (λ e. absurd (omega (arith, e)), encode-All bs))

pub decode-encode : (bytes : Bytes) → AreBytes bytes → decode (encode bytes) ≡ some bytes
decode-encode [] h = refl
decode-encode (b ∷ bs) h =
    let small = h.0 in
    ap (cons_byte _) (decode-encode bs h.1) ∙ ap (λ c. some (c ∷ bs)) (omega arith)

abbrev no_colon : Bytes → Bool
no_colon [] = true
no_colon (c ∷ cs) = let rest = no_colon cs in if c == 58 then false else rest

pub no_colon-All : (text : Bytes) → no_colon text ≡ true → All (λ c. c ≢ 58) text
no_colon-All [] h = tt
no_colon-All (c ∷ cs) h = elim (Bool-cases (c == 58)) [
  | inl e ↦ let h' = rw e at h in cc
  | inr e ↦ let h' = rw e at h in (λ p. let q = (==_iff c 58).1 p in cc, no_colon-All cs h')
]

abbrev pub claims_of : Option Bytes → ℕ → Bytes → Bytes → Bytes → JwtClaims
claims_of scope seconds audience issuer subject = record {
  issued_at = some 1000;
  invalid_before = some 1000;
  expires_at = some (1000 + seconds);
  issuer = some issuer;
  subject = some subject;
  audiences = some (as_string audience);
  scope = scope;
}

-- A time, a text and an audience are written so that they can be read back.
abbrev put_time : Option ℕ → ℕ
put_time none = zero
put_time (some n) = suc n

abbrev get_time : ℕ → Option ℕ
get_time zero = none
get_time (suc n) = some n

pub get_time-put_time : (t : Option ℕ) → get_time (put_time t) ≡ t
get_time-put_time none = refl
get_time-put_time (some n) = refl

abbrev put_text : Option Bytes → Bytes
put_text none = zero ∷ []
put_text (some b) = suc (length b) ∷ b

abbrev get_text : Bytes → Option Bytes × Bytes
get_text [] = (none, [])
get_text (zero ∷ rest) = (none, rest)
get_text (suc n ∷ rest) = (some (take n rest), drop n rest)

drop-append : (xs ys : Bytes) → drop (length xs) (xs ++ ys) ≡ ys
drop-append [] ys = refl
drop-append (x ∷ xs) ys = drop-append xs ys

pub get_text-put_text :
    (t : Option Bytes) (rest : Bytes) → get_text (put_text t ++ rest) ≡ (t, rest)
get_text-put_text none rest = refl
get_text-put_text (some b) rest = ap₂ (λ x y. (some x, y)) (take-append b rest) (drop-append b rest)

abbrev put_audiences : Option Audiences → Bytes
put_audiences none = zero ∷ []
put_audiences (some as_set) = suc zero ∷ []
put_audiences (some (as_string b)) = suc (suc (length b)) ∷ b

abbrev get_audiences : Bytes → Option Audiences × Bytes
get_audiences [] = (none, [])
get_audiences (zero ∷ rest) = (none, rest)
get_audiences (suc zero ∷ rest) = (some as_set, rest)
get_audiences (suc (suc n) ∷ rest) = (some (as_string (take n rest)), drop n rest)

pub get_audiences-put_audiences :
    (a : Option Audiences) (rest : Bytes) → get_audiences (put_audiences a ++ rest) ≡ (a, rest)
get_audiences-put_audiences none rest = refl
get_audiences-put_audiences (some as_set) rest = refl
get_audiences-put_audiences (some (as_string b)) rest =
    ap₂ (λ x y. (some (as_string x), y)) (take-append b rest) (drop-append b rest)

abbrev put_claims : JwtClaims → Bytes
put_claims c =
    put_time c.issued_at
    ∷ put_time c.invalid_before
    ∷ put_time c.expires_at
    ∷ (put_text c.issuer
        ++ (put_text c.subject ++ (put_text c.scope ++ (put_audiences c.audiences ++ []))))

abbrev times_and_texts : ℕ → ℕ → ℕ → Bytes → JwtClaims
times_and_texts i b e rest =
    let issuer = get_text rest in
    let subject = get_text issuer.1 in
    let scope = get_text subject.1 in
    record {
      issued_at = get_time i;
      invalid_before = get_time b;
      expires_at = get_time e;
      issuer = issuer.0;
      subject = subject.0;
      audiences = (get_audiences scope.1).0;
      scope = scope.0;
    }

abbrev get_claims : Bytes → Option JwtClaims
get_claims (i ∷ b ∷ e ∷ rest) = some (times_and_texts i b e rest)
get_claims _ = none

pub get_claims-put_claims : (c : JwtClaims) → get_claims (put_claims c) ≡ some c
get_claims-put_claims c =
    let audiences = get_audiences-put_audiences c.audiences [] in
    let scope = get_text-put_text c.scope (put_audiences c.audiences ++ []) in
    let subject =
      get_text-put_text c.subject (put_text c.scope ++ (put_audiences c.audiences ++ [])) in
    let issuer =
      get_text-put_text c.issuer
        (put_text c.subject ++ (put_text c.scope ++ (put_audiences c.audiences ++ []))) in
    rw
      (
        issuer,
        subject,
        scope,
        audiences,
        get_time-put_time c.issued_at,
        get_time-put_time c.invalid_before,
        get_time-put_time c.expires_at,
      )
      refl

-- A token is the identifier of its key, after its length, and the claims. Keys are not looked at.
abbrev pub sealed : Bytes → JwtClaims → Bytes
sealed key_id c = length key_id ∷ (key_id ++ put_claims c)

abbrev key_id_in : Bytes → Option (Option Bytes)
key_id_in [] = none
key_id_in (n ∷ rest) = some (some (take n rest))

abbrev pub claims_in : Bytes → Option JwtClaims
claims_in [] = none
claims_in (n ∷ rest) = get_claims (drop n rest)

pub key_id_in-sealed :
    (key_id : Bytes) (c : JwtClaims) {token : Bytes}
    → some (sealed key_id c) ≡ some token
    → key_id_in token ≡ some (some key_id)
key_id_in-sealed key_id c h =
    ap key_id_in (sym (some_injective h))
    ∙ ap (λ k. some (some k)) (take-append key_id (put_claims c))

pub claims_in-sealed :
    (key_id : Bytes) (c : JwtClaims) {token : Bytes}
    → some (sealed key_id c) ≡ some token
    → claims_in token ≡ some c
claims_in-sealed key_id c h =
    ap claims_in (sym (some_injective h))
    ∙ ap get_claims (drop-append key_id (put_claims c))
    ∙ get_claims-put_claims c

abbrev pub library : Jwt
library = record {
  PrivateKey = Bytes;
  PublicKey = Bytes;
  private_key = λ algorithm bytes. some bytes;
  public_key = λ algorithm bytes. some bytes;
  IsPair = λ private public. private ≡ public;
  new_claims = claims_of;
  now = 1000;
  new_claims-eq = λ scope seconds audience issuer subject. refl;
  sign = λ key key_id c. some (sealed key_id c);
  decode_metadata = key_id_in;
  decode_metadata-sign = λ key key_id c h. key_id_in-sealed key_id c h;
  verify_token = λ key audience most tolerance token. claims_in token;
  verified_at = 1003;
  verify_token-sign =
      λ private public key_id c audience longest tolerance pair signed short named current.
        claims_in-sealed key_id c signed;
  is_issuer = no_colon;
  is_issuer-All = no_colon-All;
  hex_encode = encode;
  hex_decode = decode;
  length-hex_encode = length-encode;
  hex_encode-All = encode-All;
  hex_decode-hex_encode = decode-encode;
}
