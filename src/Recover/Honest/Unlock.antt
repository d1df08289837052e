-- ===== src/Recover/Honest/Unlock.antt =====
-- The second phase of rust/sdk/src/recover.rs with realms that hold what registration sent them.
use juicebox_sdk.Prelude.{
  map-map, All-both, All-map, ℕ, ◌<◌, ◌≡◌, ◌≢◌, refl, sym, ap, subst, ◌∙◌, List, map, Permᴰ, Bytes,
  some, ok, length, length-map, All, All-Permᴰ, pairs_discrete, arith,
}
use mathlib.Core.Path.{ap₂}
use mathlib.Core.List.Permᴰ
use juicebox_sdk.Curve.{ScalarField}
use juicebox_sdk.Crypto.{Crypto}
use juicebox_sdk.Realm.{Realm}
use juicebox_sdk.Configuration.{Configuration, share_index}
use juicebox_sdk.Configuration.Accepted.{IsAccepted}
use juicebox_sdk.Api.{Register2Request, recover2, recover2_response, recover2_ok}
use juicebox_sdk.Join.Reorder.{length-Permᴰ}
use juicebox_sdk.Sharing.{recover_secret}
use juicebox_sdk.Oprf.{PrecompressedPoint, start, unoblivious_evaluate, blind_verifiable_evaluate}
use juicebox_sdk.Oprf.Threshold.{answer, finalize-recover_secret}
use juicebox_sdk.Oprf.Proofs.{verify_proof-blind_verifiable_evaluate}
use juicebox_sdk.Keys.{derive_unlock_key_and_commitment}
use juicebox_sdk.Register.{Registration}
use juicebox_sdk.Register.Requests.{IsSound}
use juicebox_sdk.Register.Stored.{index_of, key_share, AreStored}
use juicebox_sdk.Recover.{Environment, phase2, gathered, unlocked}
use juicebox_sdk.Recover.Errors.{RecoverError, RecoverError-Ord}
use juicebox_sdk.Recover.Realms.{Recover2Result, recover2_result}
use juicebox_sdk.Recover.Unanimous.{consensus-same}
use juicebox_sdk.Recover.Honest.{
  remaining, evaluated, IsHonest, phase_results, enough, few, stored_pairs, Distinct-shares,
}

module _ (F : ScalarField) (K : Crypto F) where
  module _ (env : Environment F K) (attempt : ℕ) (c : Configuration) (reg : Registration F K)
      (verifying_key : Bytes) (key scalar : F.Scalar)
      (key_polynomial scalar_polynomial : ℕ → F.Scalar)
      (requests : List (Realm × Register2Request F K)) (nonce : Realm → F.Scalar)
      (num_guesses guess_count : Realm → ℕ) (accepted : IsAccepted c)
      (stored : AreStored F K c reg verifying_key key scalar key_polynomial scalar_polynomial
        requests)
      (honest : All (IsHonest F K env attempt nonce num_guesses guess_count) requests) where
    -- A realm's answer to the blinded input, as the client checks and keeps it.
    abbrev kept : PrecompressedPoint F K.group → Realm × Register2Request F K → Recover2Result F K
    kept b r = record {
      verifying_key = r.1.oprf_signed_public_key.verifying_key;
      share = answer F K.group b (key_share F K c r);
      commitment = r.1.unlock_key_commitment;
      guesses_remaining = remaining (num_guesses r.0) (guess_count r.0);
    }

    recover2_result-kept :
        (b : PrecompressedPoint F K.group) (r : Realm × Register2Request F K)
        → IsSound F K RecoverError reg r
        → share_index c r.0.id ≡ some (index_of c r.0)
        → recover2_result F K c r.0 b (
            ok (
              recover2_response (
                recover2_ok (evaluated F K r.1 b (nonce r.0) (num_guesses r.0) (guess_count r.0)))))
          ≡ ok (kept b r)
    unfolding recover2_result blind_verifiable_evaluate
    recover2_result-kept b r s i =
        let proof =
          verify_proof-blind_verifiable_evaluate F K.group (nonce r.0) r.1.oprf_private_key b in
        rw (s.signed, s.public_key, proof, i) refl

    All-asked :
        (b : PrecompressedPoint F K.group)
        → All
            (λ r.
              recover2_result F K c r.0 b (
                env.make_request attempt r.0
                  (recover2 (record { version = reg.version; oprf_blinded_input = b })))
              ≡ ok (kept b r))
            requests
    All-asked b =
        let both =
          stored_pairs F K c reg verifying_key key scalar key_polynomial scalar_polynomial requests
            accepted stored in
        All-both (IsHonest F K env attempt nonce num_guesses guess_count)
          (λ r. IsSound F K RecoverError reg r × (share_index c r.0.id ≡ some (index_of c r.0)))
          (λ r.
            recover2_result F K c r.0 b (
              env.make_request attempt r.0
                (recover2 (record { version = reg.version; oprf_blinded_input = b })))
            ≡ ok (kept b r))
          requests
          (λ r h s.
            let asked =
              subst
                (λ v.
                  env.make_request attempt r.0
                    (recover2 (record { version = v; oprf_blinded_input = b }))
                  ≡ ok (
                      recover2_response (
                        recover2_ok
                          (evaluated F K r.1 b (nonce r.0) (num_guesses r.0) (guess_count r.0)))))
                s.0.version (h.second b) in
            ap (recover2_result F K c r.0 b) asked ∙ recover2_result-kept b r s.0 s.1)
          honest both

    -- All gathered answers stand under the one commitment and the one verifying key.
    gathered-same :
        (b : PrecompressedPoint F K.group) (answered : List (Realm × Register2Request F K))
        → Permᴰ answered requests
        → All
            (λ p. p.0 ≡ (reg.unlock_key_commitment, verifying_key))
            (map (gathered F K) (map (kept b) answered))
    gathered-same b answered d =
        let same =
          All-both (IsSound F K RecoverError reg)
            (λ r. r.1.oprf_signed_public_key.verifying_key ≡ verifying_key)
            (λ r. (gathered F K (kept b r)).0 ≡ (reg.unlock_key_commitment, verifying_key)) requests
            (λ r s v. ap₂ (λ x y. (x, y)) s.unlock_key_commitment v) stored.sound stored.signer in
        let here =
          All-Permᴰ (λ r. (gathered F K (kept b r)).0 ≡ (reg.unlock_key_commitment, verifying_key))
            (Permᴰ.symm d) same in
        All-map (λ p. p.0 ≡ (reg.unlock_key_commitment, verifying_key)) (gathered F K)
          (map (kept b) answered)
          (All-map (λ a. (gathered F K a).0 ≡ (reg.unlock_key_commitment, verifying_key)) (kept b)
            answered here)

    -- The second phase compares the commitment of registration with that of the given access key.
    pub phase2-unlocked :
        (access_key : Bytes) (asked : List (Realm × Register2Request F K))
        → env.random attempt ≢ F.zero
        → length c.realms < F.order
        → Permᴰ asked requests
        → (answered : List (Realm × Register2Request F K)) × (phase2 F K env attempt c reg.version
              (map (λ r. r.0) asked)
              access_key
            ≡ unlocked F K reg.unlock_key_commitment
                (derive_unlock_key_and_commitment F K
                  (unoblivious_evaluate F K.group key access_key))
                (map (λ r. remaining (num_guesses r.0) (guess_count r.0)) answered))
          × Permᴰ answered requests
    unfolding phase2
    phase2-unlocked access_key asked nz small d =
        let b = (start F K.group access_key (env.random attempt)).1 in
        let a =
          phase_results F K env attempt 2 c.recover_threshold (map (λ r. r.0) asked) requests asked
            (λ realm. recover2_result F K c realm b (
              env.make_request attempt realm
                (recover2 (record { version = reg.version; oprf_blinded_input = b }))))
            (kept b) refl d (All-asked b) accepted.positive
            (enough F K c reg verifying_key key scalar key_polynomial scalar_polynomial requests
              accepted stored) in
        let pairs = map (gathered F K) (map (kept b) a.0) in
        let size : length pairs ≡ length requests =
          length-map (map (kept b) a.0) (gathered F K)
          ∙ length-map a.0 (kept b)
          ∙ length-Permᴰ a.2 in
        let chosen =
          consensus-same pairs_discrete (reg.unlock_key_commitment, verifying_key)
            {E = RecoverError} c.recover_threshold pairs (gathered-same b a.0 a.2) accepted.positive
            (omega (
              arith,
              size,
              enough F K c reg verifying_key key scalar key_polynomial scalar_polynomial requests
                  accepted stored,
            ))
            (omega (
              arith,
              size,
              few F K c reg verifying_key key scalar key_polynomial scalar_polynomial requests
                  accepted stored,
            )) in
        let shares = map (key_share F K c) a.0 in
        let apart =
          Distinct-shares F K c reg verifying_key key scalar key_polynomial scalar_polynomial
            requests accepted stored (key_share F K c) key key_polynomial a.0 stored.keys a.2 in
        let found =
          finalize-recover_secret F K.group {E = RecoverError} key (env.random attempt) access_key
            c.recover_threshold (length c.realms) key_polynomial (map (key_share F K c) requests)
            shares nz small stored.keys apart.0 apart.1
            (omega (
              arith,
              length-map a.0 (key_share F K c),
              length-Permᴰ a.2,
              enough F K c reg verifying_key key scalar key_polynomial scalar_polynomial requests
                  accepted stored,
            )) in
        let outputs : map (λ v. v.0) (map (λ p. p.1) pairs) ≡ map (answer F K.group b) shares =
          ap (map (λ v. v.0)) (map-map (λ p. p.1) (gathered F K) (map (kept b) a.0))
          ∙ map-map (λ v. v.0) (λ x. (gathered F K x).1) (map (kept b) a.0)
          ∙ map-map (λ x. x.share) (kept b) a.0
          ∙ sym (map-map (answer F K.group b) (key_share F K c) a.0) in
        let combined = ap (recover_secret F K.group.points) outputs ∙ found.1 in
        let guesses : map (λ v. v.1) (map (λ p. p.1) pairs)
            ≡ map (λ r. remaining (num_guesses r.0) (guess_count r.0)) a.0 =
          ap (map (λ v. v.1)) (map-map (λ p. p.1) (gathered F K) (map (kept b) a.0))
          ∙ map-map (λ v. v.1) (λ x. (gathered F K x).1) (map (kept b) a.0)
          ∙ map-map (λ x. x.guesses_remaining) (kept b) a.0 in
        (a.0, (rw a.1 (rw chosen (rw combined (rw found.2 (rw guesses refl))))), a.2)
