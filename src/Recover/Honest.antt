-- ===== src/Recover/Honest.antt =====
-- Recovery, rust/sdk/src/recover.rs, from realms that hold what registration sent them: how such a realm
-- answers, and the results of one phase.
pub mod Versions
pub mod Unlock
pub mod Pins
pub mod Scalars
use juicebox_sdk.Prelude.{
  ◌+◌, ◌-◌, ◌%◌, u16_mod, map-map, map_cong, All-both, All-own, All-everywhere, All-map, ℕ, ◌+◌,
  ◌-◌, ◌%◌, ◌*◌, ◌<◌, ◌≤◌, ◌≡◌, ◌≢◌, refl, sym, ap, subst, ◌∙◌, List, [], ◌∷◌, map, Memᴰ, Permᴰ,
  Bytes, Option, some, Outcome, ok, ◌>>=◌, ok_injective, inl, inr, zero, suc, length, length-map,
  All, All-Permᴰ, Distinct, Distinct-Permᴰ, bytes_eq_iff, bytes_discrete, pairs_discrete, u16_mod,
  arith,
}
use mathlib.Core.Path.{ap₂}
use mathlib.Core.List.Permᴰ
use juicebox_sdk.Curve.{ScalarField}
use juicebox_sdk.Curve.Scalars.{scalar_secret}
use juicebox_sdk.Crypto.{Crypto}
use juicebox_sdk.Realm.{Realm}
use juicebox_sdk.Configuration.{Configuration, share_index}
use juicebox_sdk.Configuration.Accepted.{IsAccepted}
use juicebox_sdk.Api.{
  Register2Request, Recover2Ok, Recover3Ok, recover1, recover2, recover3, recover1_response,
  recover2_response, recover3_response, recover1_ok, recover2_ok, recover3_ok,
}
use juicebox_sdk.Join.{join_at_least_threshold}
use juicebox_sdk.Join.Reorder.{length-Permᴰ}
use juicebox_sdk.Sharing.{Share, range, create_shares, recover_secret}
use juicebox_sdk.Sharing.Roundtrip.{
  Distinct-range, indices-create_shares, indices, create_shares_cases, recover_secret-create_shares,
}
use juicebox_sdk.Oprf.{
  PrecompressedPoint, start, unoblivious_evaluate, blind_verifiable_evaluate, to_public_key,
}
use juicebox_sdk.Oprf.Threshold.{answer, finalize-recover_secret}
use juicebox_sdk.Oprf.Proofs.{verify_proof-blind_verifiable_evaluate}
use juicebox_sdk.Keys.{
  derive_unlock_key_and_commitment, unlock_key_tag, pin_hash, user_secret_encryption_key,
}
use juicebox_sdk.Secret.{decrypt}
use juicebox_sdk.Register.{Registration}
use juicebox_sdk.Register.Requests.{IsSound}
use juicebox_sdk.Register.Stored.{index_of, key_share, scalar_share, AreStored}
use juicebox_sdk.Recover.{
  Environment, phase1, phase2, phase3, gathered, usable_shares, perform_recover_with_configuration,
}
use juicebox_sdk.Recover.Errors.{RecoverError, RecoverError-Ord}
use juicebox_sdk.Recover.Realms.{
  Recover2Result, Recover3Result, recover1_result, recover2_result, recover3_result,
}
use juicebox_sdk.Recover.Unanimous.{Permᴰ-map, Permᴰ-unmap, join-all, consensus-same}

-- The guesses that a realm leaves, as the client computes them.
abbrev pub remaining : ℕ → ℕ → ℕ
remaining num_guesses guess_count = (num_guesses + u16_mod - guess_count) % u16_mod

module _ (F : ScalarField) (K : Crypto F) where
  -- What an honest realm evaluates with its share of the key, drawing this scalar for the proof.
  abbrev pub evaluated :
      Register2Request F K → PrecompressedPoint F K.group → F.Scalar → ℕ → ℕ → Recover2Ok F K
  evaluated r blinded_input nonce num_guesses guess_count =
      let answered =
        blind_verifiable_evaluate F K.group nonce r.oprf_private_key
          (to_public_key F K.group r.oprf_private_key) blinded_input in
      record {
        oprf_signed_public_key = r.oprf_signed_public_key;
        oprf_blinded_result = answered.0;
        oprf_proof = answered.1;
        unlock_key_commitment = r.unlock_key_commitment;
        num_guesses = num_guesses;
        guess_count = guess_count;
      }

  -- What an honest realm gives back of what it holds.
  abbrev pub held : Register2Request F K → Recover3Ok F K
  held r = record {
    encryption_key_scalar_share = r.encryption_key_scalar_share;
    encrypted_secret = r.encrypted_secret;
    encrypted_secret_commitment = r.encrypted_secret_commitment;
  }

  module _ (env : Environment F K) (attempt : ℕ) (nonce : Realm → F.Scalar)
      (num_guesses guess_count : Realm → ℕ) where
    -- The realm answers with what it holds, for the version and with the tag that it holds.
    pub record IsHonest (r : Realm × Register2Request F K) : Type 0 where
      pub first :
          env.make_request attempt r.0 recover1 ≡ ok (recover1_response (recover1_ok r.1.version))
      pub second :
          (blinded_input : PrecompressedPoint F K.group)
          → env.make_request attempt r.0
              (recover2 (record { version = r.1.version; oprf_blinded_input = blinded_input }))
            ≡ ok (
                recover2_response (
                  recover2_ok
                    (evaluated r.1 blinded_input (nonce r.0) (num_guesses r.0) (guess_count r.0))))
      pub third :
          env.make_request attempt r.0
            (recover3 (record { version = r.1.version; unlock_key_tag = r.1.unlock_key_tag }))
          ≡ ok (recover3_response (recover3_ok (held r.1)))

  -- One phase over realms that all give a result: the results, for the realms in some order.
  module _ (env : Environment F K) (attempt : ℕ) where
    pub phase_results :
        {B : Type 0} (phase threshold : ℕ) (realms : List Realm)
        (requests asked : List (Realm × Register2Request F K)) (f : Realm → Outcome RecoverError B)
        (g : Realm × Register2Request F K → B)
        → realms ≡ map (λ r. r.0) asked
        → Permᴰ asked requests
        → All (λ r. f r.0 ≡ ok (g r)) requests
        → 0 < threshold
        → threshold ≤ length requests
        → (answered : List (Realm × Register2Request F K)) × (join_at_least_threshold
              (env.arrival attempt phase (map f realms))
              threshold
            ≡ ok (map g answered))
          × Permᴰ answered requests
    phase_results phase threshold realms requests asked f g e d h pos enough =
        let here = All-Permᴰ (λ r. f r.0 ≡ ok (g r)) (Permᴰ.symm d) h in
        let same : map f realms ≡ map ok (map g asked) =
          ap (map f) e
          ∙ map-map f (λ r. r.0) asked
          ∙ map_cong (λ r. f r.0) (λ r. ok (g r)) asked here
          ∙ sym (map-map ok g asked) in
        let arrived =
          subst (Permᴰ (env.arrival attempt phase (map f realms))) same
            (env.arrival-Permᴰ attempt phase (map f realms)) in
        let joined =
          join-all (env.arrival attempt phase (map f realms)) (map g asked) threshold arrived pos
            (omega (arith, length-map asked g, length-Permᴰ d)) in
        let order = Permᴰ-unmap g joined.0 (map g asked) asked joined.2 refl in
        (order.0, joined.1 ∙ ap ok order.1, Permᴰ.trans order.2 d)

  module _ (c : Configuration) (reg : Registration F K) (verifying_key : Bytes)
      (key scalar : F.Scalar) (key_polynomial scalar_polynomial : ℕ → F.Scalar)
      (requests : List (Realm × Register2Request F K)) (accepted : IsAccepted c)
      (stored : AreStored F K c reg verifying_key key scalar key_polynomial scalar_polynomial
        requests) where
    pub enough : c.recover_threshold ≤ length requests
    enough =
        let a = accepted.recover_le in
        omega (arith, ap length stored.realms, length-map requests (λ r. r.0), a)

    pub few : length requests < 2 * c.recover_threshold
    few =
        let a = accepted.majority in
        omega (arith, ap length stored.realms, length-map requests (λ r. r.0), a)

    pub stored_pairs :
        All
          (λ r. IsSound F K RecoverError reg r × (share_index c r.0.id ≡ some (index_of c r.0)))
          requests
    stored_pairs =
        All-both (IsSound F K RecoverError reg) (λ r. share_index c r.0.id ≡ some (index_of c r.0))
          (λ r. IsSound F K RecoverError reg r × (share_index c r.0.id ≡ some (index_of c r.0)))
          requests (λ r s i. (s, i)) stored.sound stored.indexed

    -- The shares of different realms have different indices.
    pub Distinct-shares :
        (share_of : Realm × Register2Request F K → Share F (scalar_secret F)) (secret : F.Scalar)
        (polynomial : ℕ → F.Scalar) (answered : List (Realm × Register2Request F K))
        → ◌≡◌ {A = Outcome RecoverError (List (Share F (scalar_secret F)))}
            (create_shares F
              (scalar_secret F)
              secret
              c.recover_threshold
              (length c.realms)
              polynomial)
            (ok (map share_of requests))
        → Permᴰ answered requests
        → All (λ s. Memᴰ s (map share_of requests)) (map share_of answered)
          × Distinct (indices F (scalar_secret F) (map share_of answered))
    Distinct-shares share_of secret polynomial answered made d =
        let order = Permᴰ-map share_of d in
        let numbered =
          indices-create_shares F (scalar_secret F) {E = RecoverError} secret c.recover_threshold
            (length c.realms) polynomial (map share_of requests) made in
        (
          All-Permᴰ (λ s. Memᴰ s (map share_of requests)) (Permᴰ.symm order)
              (All-own (map share_of requests)),
          Distinct-Permᴰ (Permᴰ.symm (Permᴰ-map (λ s. s.index) order))
              (subst Distinct (sym numbered) (Distinct-range 1 (length c.realms))),
        )
