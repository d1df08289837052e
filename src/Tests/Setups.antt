-- ===== src/Tests/Setups.antt =====
-- A configuration with three realms, two of them needed.
use juicebox_sdk.Prelude.{
  bytes_eq, bytes_le, ℕ, ◌+◌, ◌≤◌, ◌≡◌, refl, [], ◌∷◌, Permᴰ, none, some, Outcome, ok, replicate,
  Distinct, arith,
}
use juicebox_sdk.Realm.{Realm, fast_insecure}
use juicebox_sdk.Configuration.{Configuration, checked, ids, share_index}
use juicebox_sdk.Configuration.Accepted.{Accepts, checked_cases}
use juicebox_sdk.Configuration.Canonical.{checked-reorder}
use juicebox_sdk.Configuration.Index.{share_index_place}

abbrev pub realm : ℕ → Realm
realm n = record { id = n ∷ replicate 15 0; address = "https://realm.test"; public_key = none }

abbrev pub configuration : Configuration
configuration = record {
  realms = realm 1 ∷ realm 2 ∷ realm 3 ∷ [];
  register_threshold = 3;
  recover_threshold = 2;
  pin_hashing_mode = fast_insecure;
}

checked_cases_example : Accepts {E = ⊥} (checked configuration) configuration
checked_cases_example = checked_cases configuration

checked-reorder_example :
    ◌≡◌ {A = Outcome ⊥ Configuration}
      (checked configuration)
      (checked (record configuration { realms = realm 2 ∷ realm 1 ∷ realm 3 ∷ [] }))
checked-reorder_example =
    checked-reorder configuration (realm 2 ∷ realm 1 ∷ realm 3 ∷ []) (Permᴰ.swap refl refl)

apart : Distinct (ids configuration.realms)
apart = (((λ e. cc e), ((λ e. cc e), tt)), (((λ e. cc e), tt), (tt, tt)))

share_index_place_example : (share_index configuration (realm 2).id ≡ some (1 + 1)) × (1 + 1 ≤ 3)
share_index_place_example = share_index_place configuration 1 (realm 2) apart (omega arith) refl

-- With the register threshold zero and the recover threshold two the configuration is accepted.
abbrev unregistered : Configuration
unregistered = record configuration { register_threshold = 0 }

unregistered_accepted : ◌≡◌ {A = Outcome ⊥ Configuration} (checked unregistered) (ok unregistered)
unfolding checked bytes_eq bytes_le
unregistered_accepted = refl
