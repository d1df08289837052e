-- ===== src/Recover/Attempts.antt =====
-- rust/sdk/src/recover.rs, `perform_recover`: the configurations are tried in order, for as long as
-- the user is not registered with them.
use juicebox_sdk.Prelude.{
  ℕ, suc, ◌+◌, ◌≡◌, ◌≢◌, refl, ap, subst, ◌∙◌, List, [], ◌∷◌, ◌++◌, Bytes, Outcome, ok, err, panic,
  length, arith,
}
use juicebox_sdk.Curve.{ScalarField}
use juicebox_sdk.Crypto.{Crypto}
use juicebox_sdk.Configuration.{Configuration}
use juicebox_sdk.Recover.{
  Environment, perform_recover_with_configuration, next_attempt, recover_from, perform_recover,
}
use juicebox_sdk.Recover.Errors.{RecoverError, invalid_pin, not_registered}

module _ (F : ScalarField) (K : Crypto F) (env : Environment F K) (pin info : Bytes) where
  abbrev pub attempted : ℕ → Configuration → Outcome RecoverError Bytes
  attempted attempt configuration =
      perform_recover_with_configuration F K env attempt pin info configuration

  -- Every attempt, the first of them with this number, ends in `not_registered`.
  abbrev pub AreNotRegistered : ℕ → List Configuration → Type 0
  AreNotRegistered attempt [] = Unit
  AreNotRegistered attempt (c ∷ cs) =
      (attempted attempt c ≡ err not_registered) × AreNotRegistered (suc attempt) cs

  next_attempt-stop :
      (r continued : Outcome RecoverError Bytes)
      → r ≢ err not_registered
      → next_attempt F K r continued ≡ r
  next_attempt-stop (ok a) continued n = refl
  next_attempt-stop (err not_registered) continued n = absurd (n refl)
  next_attempt-stop (err (invalid_pin g)) continued n = refl
  next_attempt-stop (err _) continued n = refl
  next_attempt-stop panic continued n = refl

  recover_from-stop :
      (n : ℕ) (c : Configuration) (previous : List Configuration)
      → attempted n c ≢ err not_registered
      → recover_from F K env pin info n c previous ≡ attempted n c
  unfolding recover_from
  recover_from-stop n c [] h = refl
  recover_from-stop n c (next ∷ previous) h = next_attempt-stop (attempted n c) _ h

  recover_from-next :
      (n : ℕ) (c next : Configuration) (previous : List Configuration)
      → attempted n c ≡ err not_registered
      → recover_from F K env pin info n c (next ∷ previous)
        ≡ recover_from F K env pin info (suc n) next previous
  unfolding recover_from
  recover_from-next n c next previous h =
      ap (λ r. next_attempt F K r (recover_from F K env pin info (suc n) next previous)) h

  recover_from-first :
      (n : ℕ) (c : Configuration) (before : List Configuration) (settled : Configuration)
      (after : List Configuration)
      → AreNotRegistered n (c ∷ before)
      → attempted (suc n + length before) settled ≢ err not_registered
      → recover_from F K env pin info n c (before ++ (settled ∷ after))
        ≡ attempted (suc n + length before) settled
  recover_from-first n c [] settled after h s =
      recover_from-next n c settled after h.0
      ∙ subst
          (λ m.
            attempted m settled ≢ err not_registered
            → recover_from F K env pin info (suc n) settled after ≡ attempted m settled)
          (omega arith) (recover_from-stop (suc n) settled after) s
  recover_from-first n c (b ∷ before) settled after h s =
      recover_from-next n c b (before ++ (settled ∷ after)) h.0
      ∙ subst
          (λ m.
            attempted m settled ≢ err not_registered
            → recover_from F K env pin info (suc n) b (before ++ (settled ∷ after))
              ≡ attempted m settled)
          (omega arith) (recover_from-first (suc n) b before settled after h.1) s

  recover_from-none :
      (n : ℕ) (c : Configuration) (previous : List Configuration)
      → AreNotRegistered n (c ∷ previous)
      → recover_from F K env pin info n c previous ≡ err not_registered
  unfolding recover_from
  recover_from-none n c [] h = h.0
  recover_from-none n c (next ∷ previous) h =
      recover_from-next n c next previous h.0 ∙ recover_from-none (suc n) next previous h.1

  -- If the attempt with the current configuration does not end in `not_registered`, its result is
  -- returned, whatever the previous configurations are.
  pub perform_recover-current :
      (current : Configuration) (previous : List Configuration)
      → attempted 0 current ≢ err not_registered
      → perform_recover F K env current previous pin info ≡ attempted 0 current
  unfolding perform_recover
  perform_recover-current current previous h = recover_from-stop 0 current previous h

  -- If the attempts with the current configuration and with those before some previous one end in
  -- `not_registered`, but not the attempt with that one, its result is returned.
  pub perform_recover-previous :
      (current : Configuration) (before : List Configuration) (settled : Configuration)
      (after : List Configuration)
      → AreNotRegistered 0 (current ∷ before)
      → attempted (suc (length before)) settled ≢ err not_registered
      → perform_recover F K env current (before ++ (settled ∷ after)) pin info
        ≡ attempted (suc (length before)) settled
  unfolding perform_recover
  perform_recover-previous current before settled after h s =
      subst
        (λ m.
          attempted m settled ≢ err not_registered
          → recover_from F K env pin info 0 current (before ++ (settled ∷ after))
            ≡ attempted m settled)
        (omega arith) (recover_from-first 0 current before settled after h) s

  -- If every attempt ends in `not_registered`, so does recovery.
  pub perform_recover-none :
      (current : Configuration) (previous : List Configuration)
      → AreNotRegistered 0 (current ∷ previous)
      → perform_recover F K env current previous pin info ≡ err not_registered
  unfolding perform_recover
  perform_recover-none current previous h = recover_from-none 0 current previous h
