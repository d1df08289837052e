-- ===== src/Oprf/Correctness.antt =====
-- The client's run of the function ends in what the private key alone gives, also when the key is
-- shared among realms.
use juicebox_sdk.Prelude.{◌≡◌, ◌≢◌, ap, ◌∙◌, Bytes}
use juicebox_sdk.Curve.{ScalarField, Group}
use juicebox_sdk.Curve.Secrets.{mul_right_comm, mul-invert_cancel}
use juicebox_sdk.Oprf.{unoblivious_evaluate, start, finalize, blind_evaluate, hash_to_output}

module _ (F : ScalarField) (G : Group F) where
  open F use {Scalar, zero}

  -- With a blinding factor that is not zero, finishing the server's answer to a started input gives
  -- the output of the unoblivious evaluation.
  pub finalize-blind_evaluate :
      (key random : Scalar) (input : Bytes)
      → random ≢ zero
      → let (blinding_factor, blinded_input) = start F G input random in
        finalize F G input blinding_factor (blind_evaluate F G key blinded_input)
        ≡ unoblivious_evaluate F G key input
  unfolding start finalize blind_evaluate unoblivious_evaluate
  finalize-blind_evaluate key random input h = ap (hash_to_output F G input) (
      ap (λ t. G.◌⊙◌ t (F.invert random))
        (mul_right_comm F G.points (G.hash_from_bytes input) random key)
      ∙ mul-invert_cancel F G.points _ random h)
