-- ===== src/Oprf.antt =====
-- rust/oprf/src/lib.rs: the oblivious pseudo-random function, and rust/oprf/src/dleq.rs: the proof
-- that the server applied its private key. A random scalar is an argument.
pub mod Correctness
pub mod Threshold
pub mod Proofs
use juicebox_sdk.Prelude.{
  Option, none, some, ◌++◌, Bytes, bytes_of, Outcome, ok, err, ok_or, ◌>>=◌, bytes_eq, Bool, true,
  false,
}
use mathlib.Core.Logic.{ite}
use mathlib.Core.Option.{map as map_option}
use juicebox_sdk.Curve.{ScalarField, Group}
use juicebox_sdk.Curve.Groups.{◌⊖◌}

module _ (F : ScalarField) (G : Group F) where
  open F use {Scalar, ◌+◌, ◌*◌}
  open G use {Carrier, ◌⊕◌, ◌⊙◌, base, compress, decompress}

  pub record PrecompressedPoint : Type 0 where
    pub uncompressed : Carrier
    pub compressed : Bytes

  -- `From<Point>`
  abbrev pub precompressed : Carrier → PrecompressedPoint
  precompressed p = record { uncompressed = p; compressed = compress p }

  -- `TryFrom<CompressedPoint>`
  unfoldable pub try_precompressed : Bytes → Option PrecompressedPoint
  try_precompressed compressed =
      map_option (λ p. record { uncompressed = p; compressed = compressed }) (decompress compressed)

  pub record Proof : Type 0 where
    pub c : Scalar
    pub beta_z : Scalar

  pub data ProofError : Type 0 where
    invalid_public_key invalid_proof : ProofError

  -- `PrivateKey::to_public_key`. A private key is its scalar, a public key is compressed.
  abbrev pub to_public_key : Scalar → Bytes
  to_public_key key = compress (base ⊙ key)

  abbrev pub hash_to_output : Bytes → Carrier → Bytes
  hash_to_output input result =
      G.sha512 (bytes_of "Juicebox_OPRF_2023_1;" ++ (input ++ compress result))

  unfoldable pub unoblivious_evaluate : Scalar → Bytes → Bytes
  unoblivious_evaluate private_key input =
      hash_to_output input (G.hash_from_bytes input ⊙ private_key)

  -- Returns the blinding factor, which is the random scalar, and the blinded input.
  unfoldable pub start : Bytes → Scalar → Scalar × PrecompressedPoint
  start input random = (random, precompressed (G.hash_from_bytes input ⊙ random))

  unfoldable pub finalize : Bytes → Scalar → PrecompressedPoint → Bytes
  finalize input blinding_factor blinded_output =
      hash_to_output input (blinded_output.uncompressed ⊙ F.invert blinding_factor)

  unfoldable pub blind_evaluate : Scalar → PrecompressedPoint → PrecompressedPoint
  blind_evaluate private_key blinded_input =
      precompressed (blinded_input.uncompressed ⊙ private_key)

  abbrev pub hash_to_challenge : Bytes → Bytes → Bytes → Bytes → Bytes → Scalar
  hash_to_challenge u v w v_t w_t =
      G.from_hash (bytes_of "Juicebox_DLEQ_2023_1;" ++ (u ++ (v ++ (w ++ (v_t ++ w_t)))))

  -- `dleq::generate_proof`, where `beta_t` is random.
  unfoldable pub generate_proof :
      Scalar → Scalar → PrecompressedPoint → Bytes → PrecompressedPoint → Proof
  generate_proof beta_t beta u v w =
      let c =
        hash_to_challenge u.compressed v w.compressed (compress (base ⊙ beta_t))
          (compress (u.uncompressed ⊙ beta_t)) in
      record { c = c; beta_z = beta_t + beta * c }

  -- The two points that `dleq::verify_proof` recomputes.
  abbrev pub recomputed_v : PrecompressedPoint → Proof → Carrier
  recomputed_v v proof = ◌⊖◌ F G (base ⊙ proof.beta_z) (v.uncompressed ⊙ proof.c)

  -- `multiscalar_mul` of two scalars and two points.
  abbrev pub recomputed_w : PrecompressedPoint → PrecompressedPoint → Proof → Carrier
  recomputed_w u w proof = u.uncompressed ⊙ proof.beta_z ⊕ w.uncompressed ⊙ F.neg proof.c

  unfoldable pub dleq_verify :
      PrecompressedPoint
      → PrecompressedPoint
      → PrecompressedPoint
      → Proof
      → Outcome ProofError (Unit {0})
  dleq_verify u v w proof =
      let c =
        hash_to_challenge u.compressed v.compressed w.compressed (compress (recomputed_v v proof))
          (compress (recomputed_w u w proof)) in
      ite (F.dec c proof.c) (ok tt) (err invalid_proof)

  unfoldable pub verify_proof :
      PrecompressedPoint → PrecompressedPoint → Bytes → Proof → Outcome ProofError (Unit {0})
  unfolding dleq_verify try_precompressed
  verify_proof blinded_input blinded_output public_key proof = do
    v ← ok_or invalid_public_key (try_precompressed public_key)
    dleq_verify blinded_input v blinded_output proof

  unfoldable pub blind_verifiable_evaluate :
      Scalar → Scalar → Bytes → PrecompressedPoint → PrecompressedPoint × Proof
  unfolding blind_evaluate generate_proof
  blind_verifiable_evaluate beta_t private_key public_key blinded_input =
      let blinded_output = blind_evaluate private_key blinded_input in
      (blinded_output, generate_proof beta_t private_key blinded_input public_key blinded_output)
