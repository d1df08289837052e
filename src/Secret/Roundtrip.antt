-- ===== src/Secret/Roundtrip.antt =====
-- What is encrypted with a key is decrypted with it.
use juicebox_sdk.Prelude.{
  ◌+◌, ◌≤◌, ◌≡◌, ap, ◌∙◌, Bytes, Outcome, ok, ◌>>=◌, unwrap, length, some, arith,
}
use juicebox_sdk.Secret.{
  Cipher, secret_bytes_array, user_secret, unpadded_user_secret, user_secret_encryption_nonce,
  encrypt, decrypt,
}
use juicebox_sdk.Secret.Padding.{
  padded, user_secret-bound, secret_bytes_array-some, padded_user_secret-padded,
  unpadded_user_secret-padded, length-padded,
}

module _ (C : Cipher) where
  encrypt-ok {ℓ} :
      {E : Type ℓ} (secret key ciphertext : Bytes)
      → length secret ≤ 128
      → C.encrypt key user_secret_encryption_nonce (padded secret) ≡ some ciphertext
      → length ciphertext ≡ 145
      → ◌≡◌ {A = Outcome E Bytes} (encrypt C secret key) (ok ciphertext)
  unfolding encrypt
  encrypt-ok secret key ciphertext h e l =
      ap
        (λ r. r >>= λ m. unwrap (C.encrypt key user_secret_encryption_nonce m) >>= λ c.
          unwrap (secret_bytes_array 145 c))
        (padded_user_secret-padded secret h)
      ∙ ap (λ r. unwrap r >>= λ c. unwrap (secret_bytes_array 145 c)) e
      ∙ ap unwrap (secret_bytes_array-some 145 ciphertext l)

  decrypt-ok {ℓ} :
      {E : Type ℓ} (secret key ciphertext : Bytes)
      → length secret ≤ 128
      → C.decrypt key user_secret_encryption_nonce ciphertext ≡ some (padded secret)
      → ◌≡◌ {A = Outcome E Bytes} (decrypt C ciphertext key) (ok secret)
  unfolding decrypt
  decrypt-ok secret key ciphertext h e =
      ap (λ r. unwrap r >>= λ p. unwrap (secret_bytes_array 129 p) >>= unpadded_user_secret) e
      ∙ ap (λ r. unwrap r >>= unpadded_user_secret)
          (secret_bytes_array-some 129 (padded secret) (length-padded secret h))
      ∙ unpadded_user_secret-padded secret h

  small : (secret : Bytes) → length secret ≤ 128 → length (padded secret) ≤ 274877906880
  small secret b = omega (arith, length-padded secret b)

  -- Every secret that can be made is encrypted, under any key, to 145 bytes, and decrypting these
  -- with the same key gives the secret.
  pub decrypt-encrypt {ℓ} :
      {E : Type ℓ} (value secret key : Bytes)
      → ◌≡◌ {A = Outcome E Bytes} (user_secret value) (ok secret)
      → (encrypted_secret : Bytes) × ◌≡◌ {A = Outcome E Bytes}
          (encrypt C secret key)
          (ok encrypted_secret)
        × (length encrypted_secret ≡ 145)
        × ◌≡◌ {A = Outcome E Bytes} (decrypt C encrypted_secret key) (ok secret)
  decrypt-encrypt value secret key h =
      let b = (user_secret-bound value h).1 in
      let c = C.encrypt-some key user_secret_encryption_nonce (padded secret) (small secret b) in
      let l = c.2 ∙ ap (λ n. n + 16) (length-padded secret b) in
      (c.0, encrypt-ok secret key c.0 b c.1 l, l, decrypt-ok secret key c.0 b c.3)
