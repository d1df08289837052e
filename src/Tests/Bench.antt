-- ===== src/Tests/Bench.antt =====
-- Small instances of what the program takes from other crates, for the tests: a group of five
-- points, a cipher that appends sixteen bytes, and hashes that keep their input.
use juicebox_sdk.Prelude.{
  some_injective, ℕ, zero, suc, ◌+◌, ◌≡◌, refl, [], ◌∷◌, ◌++◌, Bytes, Option, none, some, length,
  subst, get_elem?, bytes_eq, bytes_eq_iff, length-take, take, replicate, length-replicate,
  length-append, arith,
}
use juicebox_sdk.Curve.{Group}
use juicebox_sdk.Secret.{Cipher}
use juicebox_sdk.Crypto.{Crypto}
use juicebox_sdk.Tests.Five.{Five, f0, f1, f2, f3, f4, five, five_secret, of_ℕ}

abbrev pub compress : Five → Bytes
compress f0 = 0 ∷ []
compress f1 = 1 ∷ []
compress f2 = 2 ∷ []
compress f3 = 3 ∷ []
compress f4 = 4 ∷ []

abbrev decompress : Bytes → Option Five
decompress [] = none
decompress (b ∷ bs) = some (of_ℕ b)

pub decompress-compress : (p : Five) → decompress (compress p) ≡ some p
decompress-compress f0 = refl
decompress-compress f1 = refl
decompress-compress f2 = refl
decompress-compress f3 = refl
decompress-compress f4 = refl

-- The sum of the bytes, as a scalar.
abbrev sum : Bytes → ℕ
sum [] = 0
sum (b ∷ bs) = b + sum bs

abbrev pub five_group : Group five
five_group = record {
  points = five_secret;
  neg = five.neg;
  base = f1;
  compress = compress;
  decompress = decompress;
  hash_from_bytes = λ bytes. of_ℕ (sum bytes);
  from_hash = λ bytes. of_ℕ (sum bytes);
  sha512 = λ bytes. take 64 (bytes ++ replicate 64 0);
  add-neg = five.add-neg;
  decompress-compress = decompress-compress;
}

abbrev seal : Bytes → Bytes
seal plaintext = replicate 16 0 ++ plaintext

abbrev open_seal : Bytes → Option Bytes
open_seal bytes = some (cut 16 bytes)
  where
    cut : ℕ → Bytes → Bytes
    cut zero bs = bs
    cut (suc n) [] = []
    cut (suc n) (b ∷ bs) = cut n bs

pub length-seal : (plaintext : Bytes) → length (seal plaintext) ≡ length plaintext + 16
length-seal plaintext = omega arith

abbrev pub plain_cipher : Cipher
plain_cipher = record {
  encrypt = λ key nonce plaintext. some (seal plaintext);
  decrypt = λ key nonce ciphertext. open_seal ciphertext;
  encrypt-some = λ key nonce plaintext small. (seal plaintext, refl, length-seal plaintext, refl);
}

-- A hash of 64 bytes, with the password at the front.
abbrev hashed : Bytes → Bytes
hashed password = take 64 (password ++ replicate 64 0)

length-hashed : (password : Bytes) → length (hashed password) ≡ 64
length-hashed password = omega (
  arith,
  length-take 64 (password ++ replicate 64 0),
  length-append password (replicate 64 0),
  length-replicate {A = ℕ} 64 0,
)

pub argon2id-length :
    (password : Bytes) {hash : Bytes} → some (hashed password) ≡ some hash → length hash ≡ 64
argon2id-length password h = subst (λ x. length x ≡ 64) (some_injective h) (length-hashed password)

abbrev pub bench : Crypto five
bench = record {
  group = five_group;
  cipher = plain_cipher;
  scalar_bytes = λ a. replicate 31 0 ++ compress a;
  mac16 = λ key message. take 16 (message ++ key);
  mac32 = λ key message. take 32 (message ++ key);
  Params = Unit;
  params = λ m t p. some tt;
  min_m_cost = 8;
  min_t_cost = 1;
  min_p_cost = 1;
  argon2id = λ params password salt. some (hashed password);
  length-argon2id = λ params password salt h. argon2id-length password h;
  SigningKey = ℕ;
  VerifyingKey = ℕ;
  sign = λ key message. key ∷ message;
  verifying_key_bytes = λ key. key ∷ [];
  decompress_verifying_key = λ bytes. get_elem? bytes 0;
  verify_strict = λ key message signature. bytes_eq signature (key ∷ message);
  decompress_verifying_key-signer =
      λ key. (key, refl, λ message. (bytes_eq_iff (key ∷ message) (key ∷ message)).1 refl);
}
