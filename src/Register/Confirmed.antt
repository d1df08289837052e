-- ===== src/Register/Confirmed.antt =====
-- What the realms answered when rust/sdk/src/register.rs succeeds.
use juicebox_sdk.Prelude.{
  ℕ, ◌<◌, ◌≤◌, ◌≡◌, refl, List, ◌++◌, map, Permᴰ, Bytes, Outcome, ok, err, panic, ◌>>=◌, >>=-eq-ok,
  length, All, All-both,
}
use juicebox_sdk.Curve.{ScalarField}
use juicebox_sdk.Crypto.{Crypto}
use juicebox_sdk.Realm.{Realm}
use juicebox_sdk.Configuration.{Configuration}
use juicebox_sdk.Api.{
  SecretsResponse, RequestError, Register2Request, Policy, register1, register2, register1_response,
  register2_response, register1_ok, register2_ok, recover1_response, recover2_response,
  recover3_response, delete_response,
}
use juicebox_sdk.Join.{join_at_least_threshold}
use juicebox_sdk.Join.Confirmed.{Confirm, join-Confirm}
use juicebox_sdk.Register.{
  Environment, register1_result, register2_result, prepared_requests, perform_register,
}
use juicebox_sdk.Register.Errors.{RegisterError, RegisterError-Ord}

-- At least so many of these have a property.
abbrev pub AtLeast : {X : Type 0} → ℕ → (X → Type 0) → List X → Type 0
AtLeast {X = X} n P xs =
    (chosen : List X) × (others : List X) × Permᴰ (chosen ++ others) xs
    × All P chosen
    × (n ≤ length chosen)

Confirm-AtLeast :
    {X T : Type 0} (f : X → Outcome RegisterError T) (P : X → Type 0) (n : ℕ) (xs : List X)
    → ((x : X) (a : T) → f x ≡ ok a → P x)
    → Confirm f n xs
    → AtLeast n P xs
Confirm-AtLeast {T = T} f P n xs g c = (
  c.0,
  c.1,
  c.2,
  All-both (λ x. (a : T) × (f x ≡ ok a)) (λ x. (a : T) × (f x ≡ ok a)) P c.0 (λ x e _. g x e.0 e.1)
      c.3 c.3,
  c.5,
)

module _ (F : ScalarField) (K : Crypto F) where
  register1_result-ok :
      (r : Outcome RequestError (SecretsResponse F K)) {u : Unit {0}}
      → register1_result F K r ≡ ok u
      → r ≡ ok (register1_response register1_ok)
  unfolding register1_result
  register1_result-ok (err e) h = cc
  register1_result-ok (ok (register1_response register1_ok)) h = refl
  register1_result-ok (ok (register2_response x)) h = cc
  register1_result-ok (ok (recover1_response x)) h = cc
  register1_result-ok (ok (recover2_response x)) h = cc
  register1_result-ok (ok (recover3_response x)) h = cc
  register1_result-ok (ok (delete_response x)) h = cc
  register1_result-ok panic h = cc

  register2_result-ok :
      (r : Outcome RequestError (SecretsResponse F K)) {u : Unit {0}}
      → register2_result F K r ≡ ok u
      → r ≡ ok (register2_response register2_ok)
  unfolding register2_result
  register2_result-ok (err e) h = cc
  register2_result-ok (ok (register2_response register2_ok)) h = refl
  register2_result-ok (ok (register1_response x)) h = cc
  register2_result-ok (ok (recover1_response x)) h = cc
  register2_result-ok (ok (recover2_response x)) h = cc
  register2_result-ok (ok (recover3_response x)) h = cc
  register2_result-ok (ok (delete_response x)) h = cc
  register2_result-ok panic h = cc

  module _ (env : Environment F K) where
    -- The realm answered the first request, or it answered that it holds this one.
    abbrev pub Answered : Realm → Type 0
    Answered realm = env.make_request realm register1 ≡ ok (register1_response register1_ok)

    abbrev pub Stored : Realm × Register2Request F K → Type 0
    Stored r = env.make_request r.0 (register2 r.1) ≡ ok (register2_response register2_ok)

    -- When registration succeeds, the register threshold is positive, at least so many realms of the
    -- configuration answered the first phase, and at least so many of the prepared requests were
    -- answered as stored by their realms.
    pub perform_register-Stored :
        (c : Configuration) (pin secret info : Bytes) (policy : Policy F K)
        → perform_register F K env c pin secret info policy ≡ ok tt
        → (requests : List (Realm × Register2Request F K)) × (0 < c.register_threshold)
          × AtLeast c.register_threshold Answered c.realms
          × ◌≡◌ {A = Outcome RegisterError (List (Realm × Register2Request F K))}
              (prepared_requests F K env c pin secret info policy)
              (ok requests)
          × AtLeast c.register_threshold Stored requests
    unfolding perform_register
    perform_register-Stored c pin secret info policy h =
        let first : Realm → Outcome RegisterError (Unit {0}) =
          λ realm. register1_result F K (env.make_request realm register1) in
        let second : Realm × Register2Request F K → Outcome RegisterError (Unit {0}) =
          λ r. register2_result F K (env.make_request r.0 (register2 r.1)) in
        let a =
          >>=-eq-ok {E = RegisterError}
            (join_at_least_threshold (env.arrival 1 (map first c.realms)) c.register_threshold
              >>= λ _. ok tt)
            _ h in
        let one =
          >>=-eq-ok {E = RegisterError}
            (join_at_least_threshold (env.arrival 1 (map first c.realms)) c.register_threshold) _
            a.1 in
        let p =
          >>=-eq-ok {E = RegisterError} (prepared_requests F K env c pin secret info policy) _
            a.2 in
        let two =
          >>=-eq-ok {E = RegisterError}
            (join_at_least_threshold (env.arrival 2 (map second p.0)) c.register_threshold) _ p.2 in
        let answered =
          join-Confirm first c.realms (env.arrival 1 (map first c.realms)) c.register_threshold
            (env.arrival-Permᴰ 1 (map first c.realms)) one.1 in
        let stored =
          join-Confirm second p.0 (env.arrival 2 (map second p.0)) c.register_threshold
            (env.arrival-Permᴰ 2 (map second p.0)) two.1 in
        (
          p.0,
          answered.0,
          Confirm-AtLeast first Answered c.register_threshold c.realms
              (λ realm u e. register1_result-ok (env.make_request realm register1) e) answered.1,
          p.1,
          Confirm-AtLeast second Stored c.register_threshold p.0
              (λ r u e. register2_result-ok (env.make_request r.0 (register2 r.1)) e) stored.1,
        )
