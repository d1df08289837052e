-- ===== src/Oprf/Proofs.antt =====
-- What the proof of discrete log equality of rust/oprf/src/dleq.rs guarantees.
use mathlib.Core.Logic.{ite}
use mathlib.Core.Option.{map as map_option}
use mathlib.Core.Path.{ap₂}
use juicebox_sdk.Prelude.{◌≡◌, refl, ap, ◌∙◌, Bytes, Outcome, ok, err, ◌>>=◌, ok_or, some}
use juicebox_sdk.Curve.{ScalarField, Group}
use juicebox_sdk.Curve.Groups.{◌⊖◌, mul-neg, add_sub_cancel}
use juicebox_sdk.Oprf.{
  PrecompressedPoint, precompressed, try_precompressed, Proof, ProofError, invalid_proof,
  invalid_public_key, to_public_key, blind_evaluate, hash_to_challenge, generate_proof, dleq_verify,
  verify_proof, blind_verifiable_evaluate,
}

module _ (F : ScalarField) (G : Group F) where
  open F use {Scalar, ◌+◌, ◌*◌, neg}
  open G use {Carrier, ◌⊕◌, ◌⊙◌, base, compress}

  -- A response `t + k c` undoes to the commitment `t`.
  commitment : (p : Carrier) (t k c : Scalar) → ◌⊖◌ F G (p ⊙ (t + k * c)) (p ⊙ k ⊙ c) ≡ p ⊙ t
  commitment p t k c =
      ap (λ q. ◌⊖◌ F G q (p ⊙ k ⊙ c))
        (G.mul-add p t (k * c) ∙ ap (λ q. p ⊙ t ⊕ q) (G.mul-mul p k c))
      ∙ add_sub_cancel F G _ _

  accepted :
      {P : Type 0} (d : Dec P)
      → P
      → ◌≡◌ {A = Outcome (ProofError F G) (Unit {0})} (ite d (ok tt) (err invalid_proof)) (ok tt)
  accepted (yes p) q = refl
  accepted (no n) q = absurd (n q)

  dleq_verify-generate_proof :
      (beta_t beta : Scalar) (u v w : PrecompressedPoint F G)
      → v.uncompressed ≡ base ⊙ beta
      → w.uncompressed ≡ u.uncompressed ⊙ beta
      → dleq_verify F G u v w (generate_proof F G beta_t beta u v.compressed w) ≡ ok tt
  unfolding dleq_verify generate_proof
  dleq_verify-generate_proof beta_t beta u v w hv hw = accepted (F.dec _ _) (
      ap₂
        (λ a b.
          hash_to_challenge F G u.compressed v.compressed w.compressed (compress a) (compress b))
        at_v at_w)
    where
      c : Scalar
      c = (generate_proof F G beta_t beta u v.compressed w).c

      at_v : ◌⊖◌ F G (base ⊙ (beta_t + beta * c)) (v.uncompressed ⊙ c) ≡ base ⊙ beta_t
      at_v =
          ap (λ q. ◌⊖◌ F G (base ⊙ (beta_t + beta * c)) (q ⊙ c)) hv ∙ commitment base beta_t beta c

      at_w : u.uncompressed ⊙ (beta_t + beta * c) ⊕ w.uncompressed ⊙ neg c ≡ u.uncompressed ⊙ beta_t
      at_w =
          ap (λ q. u.uncompressed ⊙ (beta_t + beta * c) ⊕ q)
            (mul-neg F G w.uncompressed c ∙ ap (λ q. G.neg (q ⊙ c)) hw)
          ∙ commitment u.uncompressed beta_t beta c

  verify_proof-decompressed :
      (u w v : PrecompressedPoint F G) (public_key : Bytes) (proof : Proof F G)
      → try_precompressed F G public_key ≡ some v
      → verify_proof F G u w public_key proof ≡ dleq_verify F G u v w proof
  unfolding verify_proof
  verify_proof-decompressed u w v public_key proof h =
      ap (λ decoded. ok_or invalid_public_key decoded >>= λ v. dleq_verify F G u v w proof) h

  try_precompressed-compress :
      (p : Carrier) → try_precompressed F G (compress p) ≡ some (precompressed F G p)
  unfolding try_precompressed
  try_precompressed-compress p =
      ap (map_option (λ q. record { uncompressed = q; compressed = compress p }))
        (G.decompress-compress p)

  -- The proof that `blind_verifiable_evaluate` makes with the private key's own public key is
  -- accepted for its output, whatever the random scalar.
  pub verify_proof-blind_verifiable_evaluate :
      (beta_t private_key : Scalar) (blinded_input : PrecompressedPoint F G)
      → let public_key = to_public_key F G private_key in
        let (blinded_output, proof) =
          blind_verifiable_evaluate F G beta_t private_key public_key blinded_input in
        verify_proof F G blinded_input blinded_output public_key proof ≡ ok tt
  unfolding blind_verifiable_evaluate blind_evaluate
  verify_proof-blind_verifiable_evaluate beta_t private_key u =
      verify_proof-decompressed u (blind_evaluate F G private_key u)
        (precompressed F G (base ⊙ private_key)) (to_public_key F G private_key) _
        (try_precompressed-compress (base ⊙ private_key))
      ∙ dleq_verify-generate_proof beta_t private_key u (precompressed F G (base ⊙ private_key))
          (blind_evaluate F G private_key u) refl refl
