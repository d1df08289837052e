-- ===== src/Delete/Cases.antt =====
-- rust/sdk/src/delete.rs: when deletion succeeds, and which error it gives.
use juicebox_sdk.Prelude.{
  ◌≡◌, ◌↔◌, refl, ap, ◌∙◌, true, List, [], ◌∷◌, map, Outcome, ok, err, panic, ◌>>=◌, assert, All,
  >>=-eq-ok,
}
use juicebox_sdk.Realm.{Realm}
use juicebox_sdk.Curve.{ScalarField}
use juicebox_sdk.Crypto.{Crypto}
use juicebox_sdk.Configuration.{Configuration}
use juicebox_sdk.Api.{
  SecretsRequest, delete, SecretsResponse, delete_ok, delete_response, RequestError,
  register1_response, register2_response, recover1_response, recover2_response, recover3_response,
}
use juicebox_sdk.Delete.{
  DeleteError, delete_result, delete_on_realm, settled, collect, perform_delete,
}

module _ (F : ScalarField) (K : Crypto F) where
  delete_result-ok :
      (r : Outcome RequestError (SecretsResponse F K))
      → delete_result F K r ≡ ok tt
      → r ≡ ok (delete_response delete_ok)
  delete_result-ok (err e) h = cc
  delete_result-ok (ok (delete_response delete_ok)) h = refl
  delete_result-ok (ok (register1_response x)) h = cc
  delete_result-ok (ok (register2_response x)) h = cc
  delete_result-ok (ok (recover1_response x)) h = cc
  delete_result-ok (ok (recover2_response x)) h = cc
  delete_result-ok (ok (recover3_response x)) h = cc
  delete_result-ok panic h = cc

  module _
      (make_request : Realm → SecretsRequest F K → Outcome RequestError (SecretsResponse F K)) where
    -- The realm answered that the secret is deleted.
    abbrev pub IsDeleted : Realm → Type 0
    IsDeleted realm = make_request realm delete ≡ ok (delete_response delete_ok)

    abbrev results : List Realm → List (Outcome DeleteError (Unit {0}))
    results = map (delete_on_realm F K make_request)

    results-done :
        (realms : List Realm)
        → All IsDeleted realms
        → (settled F K make_request (results realms) ≡ true)
          × (collect F K make_request (results realms) ≡ ok tt)
    results-done [] h = (refl, refl)
    results-done (realm ∷ realms) h =
        let rest = results-done realms h.1 in
        let e = ap (delete_result F K) h.0 in
        (
          ap (λ r. settled F K make_request (r ∷ results realms)) e ∙ rest.0,
          ap (λ r. r >>= λ _. collect F K make_request (results realms)) e ∙ rest.1,
        )

    collect-ok :
        (realms : List Realm)
        → collect F K make_request (results realms) ≡ ok tt
        → All IsDeleted realms
    collect-ok [] h = tt
    collect-ok (realm ∷ realms) h =
        let a = >>=-eq-ok (delete_on_realm F K make_request realm) _ h in
        (delete_result-ok (make_request realm delete) a.1, collect-ok realms a.2)

    -- Deletion succeeds exactly if every realm of the configuration answers that its part of the
    -- secret is deleted.
    pub perform_delete-ok_iff :
        (configuration : Configuration)
        → (perform_delete F K make_request configuration ≡ ok tt)
          ↔ All IsDeleted configuration.realms
    unfolding perform_delete
    perform_delete-ok_iff configuration = (
      λ h.
          collect-ok configuration.realms
            (>>=-eq-ok (assert (settled F K make_request (results configuration.realms))) _ h).2,
      λ h. let r = results-done configuration.realms h in rw (r.0) r.1,
    )
