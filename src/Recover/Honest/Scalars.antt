-- ===== src/Recover/Honest/Scalars.antt =====
-- The third phase of rust/sdk/src/recover.rs with realms that hold what registration sent them.
use juicebox_sdk.Prelude.{
  map-map, All-both, All-map, ℕ, ◌<◌, ◌≡◌, refl, ap, subst, ◌∙◌, List, [], ◌∷◌, map, Permᴰ, Bytes,
  some, Outcome, ok, ◌>>=◌, length, length-map, All, All-Permᴰ, bytes_eq_iff, bytes_discrete, arith,
}
use mathlib.Core.List.Permᴰ
use juicebox_sdk.Curve.{ScalarField}
use juicebox_sdk.Curve.Scalars.{scalar_secret}
use juicebox_sdk.Crypto.{Crypto}
use juicebox_sdk.Realm.{Realm}
use juicebox_sdk.Configuration.{Configuration, share_index}
use juicebox_sdk.Configuration.Accepted.{IsAccepted}
use juicebox_sdk.Api.{Register2Request, recover3, recover3_response, recover3_ok}
use juicebox_sdk.Join.Reorder.{length-Permᴰ}
use juicebox_sdk.Sharing.{Share, recover_secret}
use juicebox_sdk.Sharing.Roundtrip.{recover_secret-create_shares}
use juicebox_sdk.Keys.{unlock_key_tag}
use juicebox_sdk.Register.{Registration}
use juicebox_sdk.Register.Requests.{IsSound}
use juicebox_sdk.Register.Stored.{index_of, scalar_share, AreStored}
use juicebox_sdk.Recover.{Environment, phase3, usable_shares}
use juicebox_sdk.Recover.Errors.{RecoverError, RecoverError-Ord}
use juicebox_sdk.Recover.Realms.{Recover3Result, recover3_result}
use juicebox_sdk.Recover.Unanimous.{consensus-same}
use juicebox_sdk.Recover.Honest.{
  held, IsHonest, phase_results, enough, few, stored_pairs, Distinct-shares,
}

module _ (F : ScalarField) (K : Crypto F) where
  module _ (env : Environment F K) (attempt : ℕ) (c : Configuration) (reg : Registration F K)
      (verifying_key : Bytes) (key scalar : F.Scalar)
      (key_polynomial scalar_polynomial : ℕ → F.Scalar)
      (requests : List (Realm × Register2Request F K)) (nonce : Realm → F.Scalar)
      (num_guesses guess_count : Realm → ℕ) (accepted : IsAccepted c)
      (stored : AreStored F K c reg verifying_key key scalar key_polynomial scalar_polynomial
        requests)
      (honest : All (IsHonest F K env attempt nonce num_guesses guess_count) requests) where
    -- A realm's answer with its share of the scalar.
    abbrev given : Realm × Register2Request F K → Recover3Result F K
    given r = record {
      share = scalar_share F K c r;
      encrypted_secret = r.1.encrypted_secret;
      commitment = r.1.encrypted_secret_commitment;
      realm = r.0;
    }

    recover3_result-given :
        (r : Realm × Register2Request F K)
        → IsHonest F K env attempt nonce num_guesses guess_count r
        → IsSound F K RecoverError reg r
        → share_index c r.0.id ≡ some (index_of c r.0)
        → (unlock_key_tag F K reg.unlock_key r.0.id >>= λ tag. recover3_result F K c r.0 (
            env.make_request attempt r.0
              (recover3 (record { version = reg.version; unlock_key_tag = tag }))))
          ≡ ok (given r)
    unfolding recover3_result
    recover3_result-given r h s i =
        let third =
          subst
            (λ v.
              env.make_request attempt r.0
                (recover3 (record { version = v; unlock_key_tag = r.1.unlock_key_tag }))
              ≡ ok (recover3_response (recover3_ok (held F K r.1))))
            s.version h.third in
        rw s.tag (rw third (rw i refl))

    usable_shares-given :
        (answered : List (Realm × Register2Request F K))
        → All (IsSound F K RecoverError reg) answered
        → usable_shares F K env attempt reg.unlock_key (map given answered)
          ≡ ok (map (λ r. (r.1.encrypted_secret, scalar_share F K c r)) answered)
    usable_shares-given [] h = refl
    usable_shares-given (r ∷ rs) h =
        let same =
          (bytes_eq_iff r.1.encrypted_secret_commitment r.1.encrypted_secret_commitment).1 refl in
        rw h.0.commitment (rw (usable_shares-given rs h.1) (rw same refl))

    pub phase3-honest :
        (asked : List (Realm × Register2Request F K))
        → length c.realms < F.order
        → Permᴰ asked requests
        → phase3 F K env attempt c reg.version (map (λ r. r.0) asked) reg.unlock_key
          ≡ ok (reg.encrypted_secret, scalar)
    unfolding phase3
    phase3-honest asked small d =
        let f : Realm → Outcome RecoverError (Recover3Result F K) = λ realm.
          unlock_key_tag F K reg.unlock_key realm.id >>= λ tag. recover3_result F K c realm (
            env.make_request attempt realm
              (recover3 (record { version = reg.version; unlock_key_tag = tag }))) in
        let both =
          stored_pairs F K c reg verifying_key key scalar key_polynomial scalar_polynomial requests
            accepted stored in
        let results : All (λ r. f r.0 ≡ ok (given r)) requests =
          All-both (IsHonest F K env attempt nonce num_guesses guess_count)
            (λ r. IsSound F K RecoverError reg r × (share_index c r.0.id ≡ some (index_of c r.0)))
            (λ r. f r.0 ≡ ok (given r)) requests (λ r h s. recover3_result-given r h s.0 s.1) honest
            both in
        let a =
          phase_results F K env attempt 3 c.recover_threshold (map (λ r. r.0) asked) requests asked
            f given refl d results accepted.positive
            (enough F K c reg verifying_key key scalar key_polynomial scalar_polynomial requests
              accepted stored) in
        let sound = All-Permᴰ (IsSound F K RecoverError reg) (Permᴰ.symm a.2) stored.sound in
        let usable = usable_shares-given a.0 sound in
        let g : Realm × Register2Request F K → Bytes × Share F (scalar_secret F) =
          λ r. (r.1.encrypted_secret, scalar_share F K c r) in
        let size : length (map g a.0) ≡ length requests = length-map a.0 g ∙ length-Permᴰ a.2 in
        let keys : All (λ r. (g r).0 ≡ reg.encrypted_secret) a.0 =
          All-both (IsSound F K RecoverError reg) (IsSound F K RecoverError reg)
            (λ r. (g r).0 ≡ reg.encrypted_secret) a.0 (λ r s t. s.encrypted_secret) sound sound in
        let chosen =
          consensus-same bytes_discrete reg.encrypted_secret {E = RecoverError} c.recover_threshold
            (map g a.0) (All-map (λ p. p.0 ≡ reg.encrypted_secret) g a.0 keys) accepted.positive
            (omega (
              arith,
              size,
              enough F K c reg verifying_key key scalar key_polynomial scalar_polynomial requests
                  accepted stored,
            ))
            (omega (
              arith,
              size,
              few F K c reg verifying_key key scalar key_polynomial scalar_polynomial requests
                  accepted stored,
            )) in
        let apart =
          Distinct-shares F K c reg verifying_key key scalar key_polynomial scalar_polynomial
            requests accepted stored (scalar_share F K c) scalar scalar_polynomial a.0
            stored.scalars a.2 in
        let found =
          ap (recover_secret F (scalar_secret F)) (map-map (λ p. p.1) g a.0)
          ∙ recover_secret-create_shares F (scalar_secret F) {E = RecoverError} scalar
              c.recover_threshold (length c.realms) scalar_polynomial
              (map (scalar_share F K c) requests) (map (scalar_share F K c) a.0) small
              stored.scalars apart.0 apart.1
              (omega (
                arith,
                length-map a.0 (scalar_share F K c),
                length-Permᴰ a.2,
                enough F K c reg verifying_key key scalar key_polynomial scalar_polynomial requests
                    accepted stored,
              )) in
        rw a.1 (rw usable (rw chosen (rw found refl)))
