-- ===== src/Auth/Decimal.antt =====
-- The identifier of a key, "tenant:version", is read back: rust/realm/auth/src/creation.rs makes it and
-- rust/realm/auth/src/validation.rs reads it.
use mathlib.Core.Option.{map as map_option}
use juicebox_sdk.Prelude.{
  ℕ, zero, suc, ◌+◌, ◌-◌, ◌*◌, ◌/◌, ◌%◌, ◌<◌, ◌≡◌, ◌≢◌, inl, inr, refl, ap, ◌∙◌, Bool, true, false,
  ◌&&◌, [], ◌∷◌, ◌++◌, Bytes, some, ltb, leb, ◌==◌, ==_iff, Bool-cases, ltb→lt, u64_mod, All, arith,
}
use juicebox_sdk.Auth.Text.{split_once, with_first, parse_digits, parse_u64, digits, display_u64}
use juicebox_sdk.Auth.Tokens.{tenant_and_version, parse_key_id}

-- Whether a digit is read after a number.
abbrev fits : ℕ → ℕ → Bool
fits acc c = leb 48 c && leb c 57 && ltb (acc * 10 + (c - 48)) u64_mod

parse_digits-append :
    (acc : ℕ) (xs : Bytes) (v d : ℕ)
    → parse_digits acc xs ≡ some v
    → d < 10
    → v * 10 + d < u64_mod
    → parse_digits acc (xs ++ ((48 + d) ∷ [])) ≡ some (v * 10 + d)
parse_digits-append acc [] v d h b l =
    let same : acc ≡ v = cc in
    let ok' : fits acc (48 + d) ≡ true = ground arith in rw ok' (ap some (omega arith))
parse_digits-append acc (x ∷ xs) v d h b l = elim (Bool-cases (fits acc x)) [
  | inl e ↦ rw e (parse_digits-append (acc * 10 + (x - 48)) xs v d (rw e at h) b l)
  | inr e ↦ let h' = rw e at h in cc
]

-- The numbers of at most so many digits lie below this.
abbrev power : ℕ → ℕ
power zero = 1
power (suc k) = 10 * power k

parse_digits-digits : (k n : ℕ) → n < power k → n < u64_mod → parse_digits 0 (digits k n) ≡ some n
parse_digits-digits zero n b l = ap some (omega arith)
parse_digits-digits (suc k) n b l = elim (Bool-cases (ltb n 10)) [
  | inl e ↦
      let small = ltb→lt n 10 e in
      let ok' : fits 0 (48 + n) ≡ true = ground arith in rw e (rw ok' (ap some (omega arith)))
  | inr e ↦
      let high = parse_digits-digits k (n / 10) (omega arith) (omega arith) in
      rw e (
        parse_digits-append 0 (digits k (n / 10)) (n / 10) (n % 10) high (omega arith) (omega arith)
        ∙ ap some (omega arith))
]

parse_u64-digits :
    (xs : Bytes) (n : ℕ) → xs ≢ [] → parse_digits 0 xs ≡ some n → parse_u64 xs ≡ some n
parse_u64-digits [] n e h = absurd (e refl)
parse_u64-digits (c ∷ cs) n e h = elim (Bool-cases (c == 43)) [
  | inl p ↦
      let same = (==_iff c 43).0 p in
      let bad : fits 0 c ≡ false = ground arith in let h' = rw bad at h in cc
  | inr p ↦ rw p h
]

digits_nonempty : (k n : ℕ) → digits (suc k) n ≢ []
digits_nonempty k n e = elim (Bool-cases (ltb n 10)) [
  | inl p ↦ let e' = rw p at e in cc
  | inr p ↦ let e' = rw p at e in last_nonempty (digits k (n / 10)) (48 + n % 10) e'
]
  where
    last_nonempty : (xs : Bytes) (x : ℕ) → xs ++ (x ∷ []) ≢ []
    last_nonempty [] x e = cc
    last_nonempty (y ∷ ys) x e = cc

parse_u64-display_u64 : (n : ℕ) → n < u64_mod → parse_u64 (display_u64 n) ≡ some n
parse_u64-display_u64 n l =
    parse_u64-digits (display_u64 n) n (digits_nonempty 19 n)
      (parse_digits-digits 20 n (omega arith) l)

split_once-append :
    (d : ℕ) (before after : Bytes)
    → All (λ c. c ≢ d) before
    → split_once d (before ++ (d ∷ after)) ≡ some (before, after)
split_once-append d [] after h = rw ((==_iff d d).1 refl) refl
split_once-append d (c ∷ cs) after h = elim (Bool-cases (c == d)) [
  | inl e ↦ absurd (h.0 ((==_iff c d).0 e))
  | inr e ↦ rw e (ap (with_first c) (split_once-append d cs after h.1))
]

parse_key_id-split_once :
    (key_id tenant text : Bytes) (version : ℕ)
    → split_once 58 key_id ≡ some (tenant, text)
    → parse_u64 text ≡ some version
    → parse_key_id key_id ≡ some (tenant, version)
unfolding parse_key_id
parse_key_id-split_once key_id tenant text version s p =
    ap tenant_and_version s ∙ ap (map_option (λ v. (tenant, v))) p

-- The identifier of a key, made of a tenant without a colon and a version below 2 ^ 64, is read back as
-- the tenant and the version.
pub parse_key_id-display_u64 :
    (tenant : Bytes) (version : ℕ)
    → All (λ c. c ≢ 58) tenant
    → version < u64_mod
    → parse_key_id (tenant ++ (58 ∷ display_u64 version)) ≡ some (tenant, version)
parse_key_id-display_u64 tenant version h l =
    parse_key_id-split_once (tenant ++ (58 ∷ display_u64 version)) tenant (display_u64 version)
      version (split_once-append 58 tenant (display_u64 version) h)
      (parse_u64-display_u64 version l)
