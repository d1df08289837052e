-- ===== src/Recover/Agreement.antt =====
-- rust/sdk/src/recover.rs: the first phase ends with enough realms that agree on a version, or with
-- an error, and its assertion never fails.
use juicebox_sdk.Prelude.{
  All-map, ℕ, ◌-◌, ◌*◌, ◌<◌, ◌≤◌, ◌≡◌, ◌≢◌, refl, sym, ap, subst, ◌∙◌, ◌⊎◌, inl, inr, List, [], ◌∷◌,
  map, Memᴰ, Bytes, Option, Outcome, ok, err, panic, ◌>>=◌, ok_or, length, length-map, leb,
  Bool-cases, All, All-Permᴰ, ok_injective, bytes_discrete, arith,
}
use mathlib.Core.List.Permᴰ
use mathlib.Core.Logic.{if_pos, if_neg}
use juicebox_sdk.Curve.{ScalarField}
use juicebox_sdk.Crypto.{Crypto}
use juicebox_sdk.Realm.{Realm}
use juicebox_sdk.Configuration.{Configuration}
use juicebox_sdk.Api.{
  SecretsResponse, RequestError, recover1, recover1_response, recover2_response, recover3_response,
  register1_response, register2_response, delete_response, recover1_ok, recover1_not_registered,
  recover1_no_guesses,
}
use juicebox_sdk.Join.{join_at_least_threshold}
use juicebox_sdk.Join.Threshold.{oks_of, errors_of, NoPanic, join-ok, join-err, length-oks_of}
use juicebox_sdk.Join.Reorder.{length-Permᴰ}
use juicebox_sdk.Consensus.{consensus}
use juicebox_sdk.Consensus.Majority.{values_of}
use juicebox_sdk.Consensus.Choice.{consensus_cases}
use juicebox_sdk.Recover.{Environment, phase1}
use juicebox_sdk.Recover.Errors.{RecoverError, not_registered, RecoverError-Ord}
use juicebox_sdk.Recover.Realms.{recover1_result}

module _ {K V : Type 0} (dec : Discrete K) (P : K × V → Type 0) where
  values_of-All :
      (key : K) (pairs : List (K × V))
      → All P pairs
      → All (λ v. P (key, v)) (values_of dec key pairs)
  values_of-All key [] h = tt
  values_of-All key ((k, v) ∷ pairs) h = elim (dec k key) [
    | yes e ↦ rw (if_pos (dec k key) e) (subst (λ k. P (k, v)) e h.0, values_of-All key pairs h.1)
    | no n ↦ rw (if_neg (dec k key) n) (values_of-All key pairs h.1)
  ]

module _ {E A : Type 0} where
  oks_of-All :
      (P : A → Type 0) (futures : List (Outcome E A))
      → All (λ r. (a : A) → r ≡ ok a → P a) futures
      → All P (oks_of futures)
  oks_of-All P [] h = tt
  oks_of-All P (ok a ∷ futures) h = (h.0 a refl, oks_of-All P futures h.1)
  oks_of-All P (err e ∷ futures) h = oks_of-All P futures h.1
  oks_of-All P (panic ∷ futures) h = oks_of-All P futures h.1

  NoPanic-All : (futures : List (Outcome E A)) → All (λ r. r ≢ panic) futures → NoPanic futures
  NoPanic-All [] h = tt
  NoPanic-All (ok a ∷ futures) h = NoPanic-All futures h.1
  NoPanic-All (err e ∷ futures) h = NoPanic-All futures h.1
  NoPanic-All (panic ∷ futures) h = h.0 refl

All-members :
    {A : Type 0} (P : A → Type 0) (all xs : List A)
    → ((x : A) → Memᴰ x xs → Memᴰ x all)
    → ((x : A) → Memᴰ x all → P x)
    → All P xs
All-members P all [] sub f = tt
All-members P all (x ∷ xs) sub f =
    (f x (sub x (Memᴰ.head refl)), All-members P all xs (λ y m. sub y (Memᴰ.tail m)) f)

join_cases :
    {T : Type 0} (rs : List (Outcome RecoverError T)) (threshold : ℕ)
    → NoPanic rs
    → 0 < threshold
    → threshold ≤ length rs
    → (join_at_least_threshold rs threshold ≡ ok (oks_of rs))
      ⊎ ((e : RecoverError) × (join_at_least_threshold rs threshold ≡ err e))
join_cases rs threshold np pos enough =
    elim (Bool-cases (leb (length (errors_of rs)) (length rs - threshold))) [
      | inl few ↦ inl (join-ok rs threshold np pos enough (ground arith)).0
      | inr many ↦ let r = join-err rs threshold np pos enough (ground arith) in inr (r.0, r.1)
    ]

module _ (F : ScalarField) (K : Crypto F) where
  recover1_result-ok :
      (realm : Realm) (response : Outcome RequestError (SecretsResponse F K)) (a : Bytes × Realm)
      → recover1_result F K realm response ≡ ok a
      → (response ≡ ok (recover1_response (recover1_ok a.0))) × (a.1 ≡ realm)
  unfolding recover1_result
  recover1_result-ok realm (err e) a h = cc
  recover1_result-ok realm (ok (recover1_response (recover1_ok version))) a h =
      let e = ok_injective h in
      (ap (λ a. ok (recover1_response (recover1_ok a.0))) e, sym (ap (λ a. a.1) e))
  recover1_result-ok realm (ok (recover1_response recover1_not_registered)) a h = cc
  recover1_result-ok realm (ok (recover1_response recover1_no_guesses)) a h = cc
  recover1_result-ok realm (ok (recover2_response r)) a h = cc
  recover1_result-ok realm (ok (recover3_response r)) a h = cc
  recover1_result-ok realm (ok (register1_response r)) a h = cc
  recover1_result-ok realm (ok (register2_response r)) a h = cc
  recover1_result-ok realm (ok (delete_response r)) a h = cc
  recover1_result-ok realm panic a h = cc

  recover1_result-panic :
      (realm : Realm) (response : Outcome RequestError (SecretsResponse F K))
      → recover1_result F K realm response ≡ panic
      → response ≡ panic
  unfolding recover1_result
  recover1_result-panic realm (err e) h = cc
  recover1_result-panic realm (ok (recover1_response (recover1_ok version))) h = cc
  recover1_result-panic realm (ok (recover1_response recover1_not_registered)) h = cc
  recover1_result-panic realm (ok (recover1_response recover1_no_guesses)) h = cc
  recover1_result-panic realm (ok (recover2_response r)) h = cc
  recover1_result-panic realm (ok (recover3_response r)) h = cc
  recover1_result-panic realm (ok (register1_response r)) h = cc
  recover1_result-panic realm (ok (register2_response r)) h = cc
  recover1_result-panic realm (ok (delete_response r)) h = cc
  recover1_result-panic realm panic h = refl

  module _ (env : Environment F K) (attempt : ℕ) (configuration : Configuration) where
    -- The realm answered that this version is registered.
    abbrev pub Reports : Bytes → Realm → Type 0
    Reports version realm =
        env.make_request attempt realm recover1 ≡ ok (recover1_response (recover1_ok version))

    abbrev asked : Realm → Outcome RecoverError (Bytes × Realm)
    asked realm = recover1_result F K realm (env.make_request attempt realm recover1)

    abbrev futures : List (Outcome RecoverError (Bytes × Realm))
    futures = env.arrival attempt 1 (map asked configuration.realms)

    abbrev Member : Bytes × Realm → Type 0
    Member a = Reports a.0 a.1 × Memᴰ a.1 configuration.realms

    asked-ok :
        (realm : Realm)
        → Memᴰ realm configuration.realms
        → (a : Bytes × Realm) → asked realm ≡ ok a
        → Member a
    asked-ok realm m a h =
        let r = recover1_result-ok realm (env.make_request attempt realm recover1) a h in
        subst
          (λ x.
            (env.make_request attempt x recover1 ≡ ok (recover1_response (recover1_ok a.0)))
            × Memᴰ x configuration.realms)
          (sym r.1) (r.0, m)

    reported : All (λ r. (a : Bytes × Realm) → r ≡ ok a → Member a) futures
    reported =
        All-Permᴰ (λ r. (a : Bytes × Realm) → r ≡ ok a → Member a)
          (Permᴰ.symm (env.arrival-Permᴰ attempt 1 (map asked configuration.realms)))
          (All-map _ asked configuration.realms
            (All-members _ configuration.realms configuration.realms (λ x m. m) asked-ok))

    length-futures : length futures ≡ length configuration.realms
    length-futures =
        length-Permᴰ (env.arrival-Permᴰ attempt 1 (map asked configuration.realms))
        ∙ length-map configuration.realms asked

    futures-NoPanic :
        All (λ realm. env.make_request attempt realm recover1 ≢ panic) configuration.realms
        → NoPanic futures
    futures-NoPanic h = NoPanic-All futures (
        All-Permᴰ (λ r. r ≢ panic)
          (Permᴰ.symm (env.arrival-Permᴰ attempt 1 (map asked configuration.realms)))
          (All-map (λ r. r ≢ panic) asked configuration.realms (asked-calm configuration.realms h)))
      where
        asked-calm :
            (realms : List Realm)
            → All (λ realm. env.make_request attempt realm recover1 ≢ panic) realms
            → All (λ realm. asked realm ≢ panic) realms
        asked-calm [] k = tt
        asked-calm (realm ∷ realms) k = (
          λ e. k.0 (recover1_result-panic realm (env.make_request attempt realm recover1) e),
          asked-calm realms k.1,
        )

    abbrev pub Ends : Type 0
    Ends =
        ((found : Bytes × List Realm) × (phase1 F K env attempt configuration ≡ ok found)
          × (configuration.recover_threshold ≤ length found.1)
          × All (λ realm. Reports found.0 realm × Memᴰ realm configuration.realms) found.1)
        ⊎ ((e : RecoverError) × (phase1 F K env attempt configuration ≡ err e))

    -- With a threshold above half of the realms, and at most all of them, the first phase does not
    -- panic unless the request to a realm does. It ends in an error, or in a version that at least the
    -- threshold of answers from realms of the configuration report.
    pub phase1_cases :
        length configuration.realms < 2 * configuration.recover_threshold
        → configuration.recover_threshold ≤ length configuration.realms
        → All (λ realm. env.make_request attempt realm recover1 ≢ panic) configuration.realms
        → Ends
    unfolding phase1
    phase1_cases majority enough calm =
        elim (join_cases futures configuration.recover_threshold (futures-NoPanic calm)
          (omega arith) (omega (arith, length-futures))) [
            | inl j ↦
                elim (consensus_cases bytes_discrete {E = RecoverError}
                  configuration.recover_threshold (oks_of futures)
                  (omega (arith, length-futures, length-oks_of futures (futures-NoPanic calm)))) [
                    | inl c ↦ inl (
                      (c.0, values_of bytes_discrete c.0 (oks_of futures)),
                      run j c.1,
                      c.2,
                      values_of-All bytes_discrete Member c.0 (oks_of futures)
                          (oks_of-All Member futures reported),
                    )
                    | inr c ↦ inr (not_registered, run j c.0)
                  ]
            | inr j ↦ inr (
              j.0,
              ap
                  (λ r. r >>= λ answers.
                    consensus bytes_discrete configuration.recover_threshold answers
                    >>= ok_or not_registered)
                  j.1,
            )
          ]
      where
        run :
            join_at_least_threshold futures configuration.recover_threshold ≡ ok (oks_of futures)
            → {chosen : Option (Bytes × List Realm)}
            → ◌≡◌ {A = Outcome RecoverError (Option (Bytes × List Realm))}
                (consensus bytes_discrete configuration.recover_threshold (oks_of futures))
                (ok chosen)
            → phase1 F K env attempt configuration ≡ ok_or not_registered chosen
        run j c =
            ap
              (λ r. r >>= λ answers.
                consensus bytes_discrete configuration.recover_threshold answers
                >>= ok_or not_registered)
              j
            ∙ ap (λ r. r >>= ok_or not_registered) c
