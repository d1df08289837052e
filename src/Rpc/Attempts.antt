-- ===== src/Rpc/Attempts.antt =====
-- How often a software realm is called, which result counts, and how long is slept.
use Prim.Native.String.{String}
use mathlib.Core.Path.{ap₂}
use juicebox_sdk.Prelude.{
  ◌*◌, ℕ, zero, suc, ◌+◌, ◌<◌, ◌≡◌, ◌≢◌, ◌⊎◌, inl, inr, refl, ap, subst, ◌∙◌, [], ◌∷◌, Bytes,
  Option, none, some, Outcome, ok, err, panic, map_err, arith,
}
use juicebox_sdk.Api.{
  RequestError, invalid_auth, upgrade_required, rate_limit_exceeded, transient, assertion,
}
use juicebox_sdk.Rpc.{
  HttpRequest, HttpResponse, SendOptions, Service, request_error, send_with_options, settle,
  attempts, make_software_realm_request,
}

module _ (S : Service) where
  open S use {Request, Response}

  transient_cases : (r : Outcome RequestError Response) → (r ≡ err transient) ⊎ (r ≢ err transient)
  transient_cases (ok a) = inr (λ e. cc)
  transient_cases (err transient) = inl refl
  transient_cases (err invalid_auth) = inr (λ e. cc)
  transient_cases (err upgrade_required) = inr (λ e. cc)
  transient_cases (err rate_limit_exceeded) = inr (λ e. cc)
  transient_cases (err assertion) = inr (λ e. cc)
  transient_cases panic = inr (λ e. cc)

  settle-stop :
      (r : Outcome RequestError Response) (again : Outcome RequestError Response × ℕ × ℕ)
      (calls slept : ℕ)
      → r ≢ err transient
      → settle S r again calls slept ≡ (r, calls, slept)
  settle-stop (ok a) again calls slept n = refl
  settle-stop (err transient) again calls slept n = absurd (n refl)
  settle-stop (err invalid_auth) again calls slept n = refl
  settle-stop (err upgrade_required) again calls slept n = refl
  settle-stop (err rate_limit_exceeded) again calls slept n = refl
  settle-stop (err assertion) again calls slept n = refl
  settle-stop panic again calls slept n = refl

  module _ (http : ℕ → HttpRequest → Option HttpResponse) (base_url : String) (request : Request)
      (options : SendOptions) where
    -- What the call with this number comes to.
    abbrev pub called : ℕ → Outcome RequestError Response
    called n = map_err request_error (send_with_options S (http n) base_url request options)

    -- The calls from `from` on, `count` of them, end in a transient error.
    abbrev pub AreTransient : ℕ → ℕ → Type 0
    AreTransient from zero = Unit
    AreTransient from (suc count) = (called from ≡ err transient) × AreTransient (suc from) count

    -- The first of these calls that is not transient decides, and no call is made after it. If all
    -- are, so is the result. Each transient error is followed by 5 milliseconds of sleep.
    abbrev pub Decides : Outcome RequestError Response × ℕ × ℕ → ℕ → ℕ → ℕ → Type 0
    Decides result from slept rounds =
        ((k : ℕ) × (k < rounds)
          × AreTransient from k
          × (called (from + k) ≢ err transient)
          × (result ≡ (called (from + k), suc (from + k), slept + 5 * k)))
        ⊎ (AreTransient from rounds × (result ≡ (err transient, from + rounds, slept + 5 * rounds)))

    attempts-Decides :
        (rounds from slept : ℕ)
        → Decides (attempts S http base_url request options rounds from slept) from slept rounds
    unfolding attempts
    attempts-Decides zero from slept =
        inr (tt, ap₂ (λ n t. (err transient, n, t)) (omega arith) (omega arith))
    attempts-Decides (suc rounds) from slept = elim (transient_cases (called from)) [
      | inr stop ↦ inl (
        0,
        omega arith,
        tt,
        subst (λ n. called n ≢ err transient) (omega arith) stop,
        settle-stop (called from) _ (suc from) slept stop
            ∙ ap₂ (λ n t. (called n, suc n, t)) (omega arith) (omega arith),
      )
      | inl e ↦ elim (attempts-Decides rounds (suc from) (slept + 5)) [
        | inl d ↦ inl (
          suc d.0,
          omega (arith, d.1),
          (e, d.2),
          subst (λ n. called n ≢ err transient) (omega arith) d.3,
          next e ∙ d.4 ∙ ap₂ (λ n t. (called n, suc n, t)) (omega arith) (omega arith),
        )
        | inr d ↦ inr (
          (e, d.0),
          next e ∙ d.1 ∙ ap₂ (λ n t. (err transient, n, t)) (omega arith) (omega arith),
        )
      ]
    ]
      where
        next :
            called from ≡ err transient
            → settle S
                (called from)
                (attempts S http base_url request options rounds (suc from) (slept + 5))
                (suc from)
                slept
              ≡ attempts S http base_url request options rounds (suc from) (slept + 5)
        next e =
            ap
              (λ r.
                settle S r (attempts S http base_url request options rounds (suc from) (slept + 5))
                  (suc from) slept)
              e

  -- With a token, a software realm is called at most twice: the first call that does not end in a
  -- transient error gives the result, and there is no call after it. If both do, so does the request.
  -- Each transient error is followed by 5 milliseconds of sleep.
  pub make_software_realm_request_cases :
      (http : ℕ → HttpRequest → Option HttpResponse) (address : String) (request : Request)
      (auth_token : Bytes) (bearer : Bytes → String)
      → Decides http address request
          (record { headers = ("Authorization", bearer auth_token) ∷ []; timeout = none })
          (make_software_realm_request S http address request (some auth_token) bearer)
          0
          0
          2
  unfolding make_software_realm_request
  make_software_realm_request_cases http address request auth_token bearer =
      attempts-Decides http address request
        (record { headers = ("Authorization", bearer auth_token) ∷ []; timeout = none }) 2 0 0
