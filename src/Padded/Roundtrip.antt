-- ===== src/Padded/Roundtrip.antt =====
-- Padding a response and reading it back, rust/realm/api/src/requests.rs.
use juicebox_sdk.Prelude.{
  ℕ, ◌-◌, ◌≤◌, ◌≡◌, ap, ◌∙◌, ◌++◌, Bytes, Outcome, ok, ◌>>=◌, unwrap, le→leb, lt→ltb, length, take,
  replicate, length-append, length-replicate, take-append, arith,
}
use juicebox_sdk.Secret.{secret_bytes_array}
use juicebox_sdk.Secret.Padding.{take_all, secret_bytes_array-some, slice-ok}
use juicebox_sdk.Padded.{PaddedSecretsResponse, padded_response, unpadded_response}

module _ {Response Error : Type 0} (to_vec : Response → Outcome Error Bytes)
    (from_slice : Bytes → Outcome Error Response) where
  abbrev filled : Bytes → Bytes
  filled bytes = bytes ++ replicate (436 - length bytes) 0

  length-filled : (bytes : Bytes) → length bytes ≤ 436 → length (filled bytes) ≡ 436
  length-filled bytes h = omega (
    arith,
    length-append bytes (replicate (436 - length bytes) 0),
    length-replicate {A = ℕ} (436 - length bytes) 0,
  )

  padded_response-ok :
      (value : Response) (bytes : Bytes)
      → to_vec value ≡ ok bytes
      → length bytes ≤ 436
      → padded_response to_vec value
        ≡ ok (record { unpadded_length = length bytes; padded_bytes = filled bytes })
  unfolding padded_response
  padded_response-ok value bytes e h =
      rw (e, le→leb (length bytes) 436 h, lt→ltb (length bytes) 65536 (omega arith))
        (ap
          (λ b. unwrap b >>= λ p. ok (record { unpadded_length = length bytes; padded_bytes = p }))
          (ap (λ b. secret_bytes_array 436 (b ++ replicate (436 - length bytes) 0))
              (take_all 436 bytes h)
            ∙ secret_bytes_array-some 436 (filled bytes) (length-filled bytes h)))

  unpadded_response-ok :
      (bytes : Bytes)
      → length bytes ≤ 436
      → unpadded_response from_slice
          (record { unpadded_length = length bytes; padded_bytes = filled bytes })
        ≡ from_slice bytes
  unfolding unpadded_response
  unpadded_response-ok bytes h =
      ap (λ r. r >>= from_slice)
        (slice-ok (filled bytes) 0 (length bytes) (omega arith)
            (omega (arith, length-filled bytes h))
          ∙ ap ok (
              ap (λ n. take n (filled bytes)) (omega arith)
              ∙ take-append bytes (replicate (436 - length bytes) 0)))

  -- A response that is serialized to at most 436 bytes is padded to exactly 436, and reading it back
  -- deserializes its own bytes alone.
  pub unpadded_response-padded_response :
      (value : Response) (bytes : Bytes)
      → to_vec value ≡ ok bytes
      → length bytes ≤ 436
      → (padded : PaddedSecretsResponse) × (padded_response to_vec value ≡ ok padded)
        × (length padded.padded_bytes ≡ 436)
        × (unpadded_response from_slice padded ≡ from_slice bytes)
  unpadded_response-padded_response value bytes e h = (
    record { unpadded_length = length bytes; padded_bytes = filled bytes },
    padded_response-ok value bytes e h,
    length-filled bytes h,
    unpadded_response-ok bytes h,
  )
