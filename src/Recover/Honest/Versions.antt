-- ===== src/Recover/Honest/Versions.antt =====
-- The first phase of rust/sdk/src/recover.rs with realms that hold what registration sent them.
use juicebox_sdk.Prelude.{
  map-map, All-both, All-everywhere, All-map, ℕ, ◌≡◌, refl, sym, ap, ◌∙◌, List, map, Permᴰ, Bytes,
  Outcome, ok, length, length-map, All, bytes_discrete, arith,
}
use mathlib.Core.List.Permᴰ
use juicebox_sdk.Curve.{ScalarField}
use juicebox_sdk.Crypto.{Crypto}
use juicebox_sdk.Realm.{Realm}
use juicebox_sdk.Configuration.{Configuration}
use juicebox_sdk.Configuration.Accepted.{IsAccepted}
use juicebox_sdk.Api.{Register2Request, recover1}
use juicebox_sdk.Join.Reorder.{length-Permᴰ}
use juicebox_sdk.Register.{Registration}
use juicebox_sdk.Register.Requests.{IsSound}
use juicebox_sdk.Register.Stored.{AreStored}
use juicebox_sdk.Recover.{Environment, phase1}
use juicebox_sdk.Recover.Errors.{RecoverError, RecoverError-Ord}
use juicebox_sdk.Recover.Realms.{recover1_result}
use juicebox_sdk.Recover.Unanimous.{consensus-same}
use juicebox_sdk.Recover.Honest.{IsHonest, phase_results, enough, few}

module _ (F : ScalarField) (K : Crypto F) where
  module _ (env : Environment F K) (attempt : ℕ) (c : Configuration) (reg : Registration F K)
      (verifying_key : Bytes) (key scalar : F.Scalar)
      (key_polynomial scalar_polynomial : ℕ → F.Scalar)
      (requests : List (Realm × Register2Request F K)) (nonce : Realm → F.Scalar)
      (num_guesses guess_count : Realm → ℕ) (accepted : IsAccepted c)
      (stored : AreStored F K c reg verifying_key key scalar key_polynomial scalar_polynomial
        requests)
      (honest : All (IsHonest F K env attempt nonce num_guesses guess_count) requests) where
    pub phase1-honest :
        (answered : List (Realm × Register2Request F K)) × (phase1 F K env attempt c
          ≡ ok (reg.version, map (λ r. r.0) answered))
        × Permᴰ answered requests
    unfolding phase1 recover1_result
    phase1-honest =
        let asked : Realm → Outcome RecoverError (Bytes × Realm) =
          λ realm. recover1_result F K realm (env.make_request attempt realm recover1) in
        let g : Realm × Register2Request F K → Bytes × Realm = λ r. (reg.version, r.0) in
        let results : All (λ r. asked r.0 ≡ ok (g r)) requests =
          All-both (IsHonest F K env attempt nonce num_guesses guess_count)
            (IsSound F K RecoverError reg) (λ r. asked r.0 ≡ ok (g r)) requests
            (λ r h s. ap (recover1_result F K r.0) h.first ∙ ap (λ v. ok (v, r.0)) s.version) honest
            stored.sound in
        let a =
          phase_results F K env attempt 1 c.recover_threshold c.realms requests requests asked g
            (sym stored.realms) (Permᴰ.refl requests) results accepted.positive
            (enough F K c reg verifying_key key scalar key_polynomial scalar_polynomial requests
              accepted stored) in
        let size : length (map g a.0) ≡ length requests = length-map a.0 g ∙ length-Permᴰ a.2 in
        let chosen =
          consensus-same bytes_discrete reg.version {E = RecoverError} c.recover_threshold
            (map g a.0)
            (All-map (λ p. p.0 ≡ reg.version) g a.0
              (All-everywhere (λ r. (g r).0 ≡ reg.version) a.0 (λ r. refl)))
            accepted.positive
            (omega (
              arith,
              size,
              enough F K c reg verifying_key key scalar key_polynomial scalar_polynomial requests
                  accepted stored,
            ))
            (omega (
              arith,
              size,
              few F K c reg verifying_key key scalar key_polynomial scalar_polynomial requests
                  accepted stored,
            )) in
        (a.0, (rw a.1 (rw chosen (ap (λ l. ok (reg.version, l)) (map-map (λ p. p.1) g a.0)))), a.2)
