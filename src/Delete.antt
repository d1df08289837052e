-- ===== src/Delete.antt =====
-- rust/sdk/src/delete.rs: deletion on all realms of the configuration. The realms' answers are a
-- parameter.
pub mod Cases
use juicebox_sdk.Prelude.{
  List, [], ◌∷◌, map, Bool, true, false, Outcome, ok, err, panic, ◌>>=◌, ◌>>◌, assert,
}
use juicebox_sdk.Realm.{Realm}
use juicebox_sdk.Curve.{ScalarField}
use juicebox_sdk.Crypto.{Crypto}
use juicebox_sdk.Api.{
  SecretsRequest, delete, SecretsResponse, delete_ok, delete_response, RequestError, invalid_auth,
  upgrade_required, rate_limit_exceeded, transient, assertion,
}
use juicebox_sdk.Configuration.{Configuration}

pub data DeleteError : Type 0 where
  delete_invalid_auth delete_upgrade_required delete_rate_limit_exceeded delete_assertion
        delete_transient :
      DeleteError

abbrev pub delete_error : RequestError → DeleteError
delete_error upgrade_required = delete_upgrade_required
delete_error transient = delete_transient
delete_error assertion = delete_assertion
delete_error invalid_auth = delete_invalid_auth
delete_error rate_limit_exceeded = delete_rate_limit_exceeded

module _ (F : ScalarField) (K : Crypto F) where
  -- The match on the realm's answer.
  abbrev pub delete_result :
      Outcome RequestError (SecretsResponse F K) → Outcome DeleteError (Unit {0})
  delete_result (err e) = err (delete_error e)
  delete_result (ok (delete_response delete_ok)) = ok tt
  delete_result (ok _) = err delete_assertion
  delete_result panic = panic

  module _
      (make_request : Realm → SecretsRequest F K → Outcome RequestError (SecretsResponse F K)) where
    abbrev pub delete_on_realm : Realm → Outcome DeleteError (Unit {0})
    delete_on_realm realm = delete_result (make_request realm delete)

    abbrev pub settled : List (Outcome DeleteError (Unit {0})) → Bool
    settled [] = true
    settled (ok tt ∷ rest) = settled rest
    settled (err e ∷ rest) = settled rest
    settled (panic ∷ rest) = false

    -- `collect` gives the first error.
    abbrev pub collect : List (Outcome DeleteError (Unit {0})) → Outcome DeleteError (Unit {0})
    collect [] = ok tt
    collect (r ∷ rest) = r >>= λ _. collect rest

    -- `join_all` waits for every future and keeps the order of the realms. A panic in one of them is
    -- a panic of the whole.
    unfoldable pub perform_delete : Configuration → Outcome DeleteError (Unit {0})
    perform_delete configuration = do
      let results = map delete_on_realm configuration.realms
      assert (settled results)
      collect results
