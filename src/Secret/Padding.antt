-- ===== src/Secret/Padding.antt =====
-- The padding of rust/sdk/src/types.rs can be undone.
use mathlib.Core.Path.{ap₂}
use juicebox_sdk.Prelude.{
  ℕ, zero, suc, drop, ◌+◌, ◌-◌, ◌≤◌, ◌≡◌, refl, ap, ◌∙◌, [], ◌∷◌, ◌++◌, Bytes, Outcome, ok, ◌>>=◌,
  le→leb, lt→ltb, ==_iff, length, take, replicate, length-append, length-replicate, take-append,
  arith, some, unwrap,
}
use juicebox_sdk.Secret.{
  secret_bytes_array, resize, slice, user_secret, padded_user_secret, unpadded_user_secret,
  max_user_secret_length,
}

-- The length byte, the secret, and null bytes.
abbrev pub padded : Bytes → Bytes
padded value = length value ∷ (value ++ replicate (128 - length value) 0)

pub take_all : (n : ℕ) (xs : Bytes) → length xs ≤ n → take n xs ≡ xs
take_all zero [] h = refl
take_all zero (x ∷ xs) h = absurd (omega arith)
take_all (suc n) [] h = refl
take_all (suc n) (x ∷ xs) h = ap (λ t. x ∷ t) (take_all n xs (omega arith))

pub length-padded : (value : Bytes) → length value ≤ 128 → length (padded value) ≡ 129
length-padded value h = omega (
  arith,
  length-append value (replicate (128 - length value) 0),
  length-replicate {A = ℕ} (128 - length value) 0,
)

resize-padded :
    (value : Bytes)
    → length value ≤ 128
    → resize (length value ∷ value) (max_user_secret_length + 1) 0 ≡ padded value
resize-padded value h =
    ap₂ (λ t n. length value ∷ (t ++ replicate n 0)) (take_all 128 value h) (omega arith)

pub secret_bytes_array-some :
    (n : ℕ) (value : Bytes) → length value ≡ n → secret_bytes_array n value ≡ some value
secret_bytes_array-some n value h = rw ((==_iff (length value) n).1 h) refl

pub padded_user_secret-padded {ℓ} :
    {E : Type ℓ} (value : Bytes)
    → length value ≤ 128
    → ◌≡◌ {A = Outcome E Bytes} (padded_user_secret value) (ok (padded value))
unfolding padded_user_secret
padded_user_secret-padded value h = rw (lt→ltb (length value) 256 (omega arith)) (
    ap unwrap (
      ap (secret_bytes_array 129) (resize-padded value h)
      ∙ secret_bytes_array-some 129 (padded value) (length-padded value h)))

pub slice-ok {ℓ} :
    {E : Type ℓ} (bytes : Bytes) (start end : ℕ)
    → start ≤ end
    → end ≤ length bytes
    → ◌≡◌ {A = Outcome E Bytes} (slice bytes start end) (ok (take (end - start) (drop start bytes)))
slice-ok bytes start end p q = rw (le→leb start end p, le→leb end (length bytes) q) refl

user_secret-ok {ℓ} :
    {E : Type ℓ} (value : Bytes)
    → length value ≤ 128
    → ◌≡◌ {A = Outcome E Bytes} (user_secret value) (ok value)
unfolding user_secret
user_secret-ok value h = rw (le→leb (length value) 128 h) refl

pub unpadded_user_secret-padded {ℓ} :
    {E : Type ℓ} (value : Bytes)
    → length value ≤ 128
    → ◌≡◌ {A = Outcome E Bytes} (unpadded_user_secret (padded value)) (ok value)
unfolding unpadded_user_secret
unpadded_user_secret-padded value h =
    ap (λ r. r >>= user_secret)
      (slice-ok (padded value) 1 (suc (length value)) (omega arith)
          (omega (arith, length-padded value h))
        ∙ ap ok (
            ap (λ n. take n (value ++ replicate (128 - length value) 0)) (omega arith)
            ∙ take-append value _))
    ∙ user_secret-ok value h

pub user_secret-bound {ℓ} :
    {E : Type ℓ} (value : Bytes) {secret : Bytes}
    → ◌≡◌ {A = Outcome E Bytes} (user_secret value) (ok secret)
    → (secret ≡ value) × (length secret ≤ 128)
unfolding user_secret
user_secret-bound value h = ground arith

-- Padding a secret gives 129 bytes, from which the secret is read back.
pub unpadded-padded {ℓ} :
    {E : Type ℓ} (value secret : Bytes)
    → ◌≡◌ {A = Outcome E Bytes} (user_secret value) (ok secret)
    → (bytes : Bytes) × ◌≡◌ {A = Outcome E Bytes} (padded_user_secret secret) (ok bytes)
      × (length bytes ≡ 129)
      × ◌≡◌ {A = Outcome E Bytes} (unpadded_user_secret bytes) (ok secret)
unpadded-padded value secret h =
    let b = (user_secret-bound value h).1 in
    (
      padded secret,
      padded_user_secret-padded secret b,
      length-padded secret b,
      unpadded_user_secret-padded secret b,
    )
