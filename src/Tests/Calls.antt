-- ===== src/Tests/Calls.antt =====
-- A software realm that is out of reach at first and answers the second call.
use juicebox_sdk.Prelude.{ℕ, zero, suc, [], ◌∷◌, Bytes, true, Option, none, some, ok}
use juicebox_sdk.Rpc.{HttpRequest, HttpResponse, Service, make_software_realm_request}
use juicebox_sdk.Rpc.Attempts.{Decides, make_software_realm_request_cases}

abbrev service : Service
service = record {
  Request = Bytes;
  Response = Bytes;
  join = λ base path. some base;
  is_success = λ code. some true;
  to_vec = λ request. ok request;
  from_slice = λ body. ok body;
}

abbrev http : ℕ → HttpRequest → Option HttpResponse
http zero request = none
http (suc n) request = some (record { status_code = 200; headers = []; body = 5 ∷ [] })

make_software_realm_request_cases_example :
    Decides service http "https://realm.test"
      (1 ∷ [])
      (record { headers = ("Authorization", "Bearer") ∷ []; timeout = none })
      (make_software_realm_request service http "https://realm.test"
        (1 ∷ [])
        (some (7 ∷ []))
        (λ _. "Bearer"))
      0
      0
      2
make_software_realm_request_cases_example =
    make_software_realm_request_cases service http "https://realm.test" (1 ∷ []) (7 ∷ [])
      (λ _. "Bearer")
