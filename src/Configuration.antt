-- ===== src/Configuration.antt =====
-- rust/sdk/src/configuration.rs: the checks on a configuration, the order of its realms, and the
-- index of a realm's share.
pub mod Sorting
pub mod Canonical
pub mod Accepted
pub mod Index
use juicebox_sdk.Prelude.{
  ℕ, zero, suc, ◌+◌, ◌/◌, Bool, true, false, not, ◌&&◌, ◌||◌, Option, none, some, List, [], ◌∷◌,
  map, Bytes, Outcome, ok, panic, ◌>>=◌, ◌>>◌, assert, ltb, leb, ◌==◌, length, u32_mod, bytes_eq,
  bytes_le, if◌then◌else◌,
}
use juicebox_sdk.Realm.{RealmId, Realm, PinHashingMode}

pub record Configuration : Type 0 where
  pub realms : List Realm
  pub register_threshold : ℕ
  pub recover_threshold : ℕ
  pub pin_hashing_mode : PinHashingMode

abbrev pub ids : List Realm → List RealmId
ids = map (λ realm. realm.id)

-- `HashSet::insert` on every identifier leaves one of each.
contains : List RealmId → RealmId → Bool
contains [] a = false
contains (b ∷ bs) a = bytes_eq a b || contains bs a

hash_set : List RealmId → List RealmId
unfolding contains
hash_set [] = []
hash_set (a ∷ as') = let rest = hash_set as' in if contains rest a then rest else a ∷ rest

is_empty : List Realm → Bool
is_empty [] = true
is_empty (r ∷ rs) = false

-- The loop over the public keys.
key_is_sound : Option Bytes → Bool
key_is_sound none = true
key_is_sound (some key) = length key == 32

keys_are_sound : List Realm → Bool
unfolding key_is_sound
keys_are_sound [] = true
keys_are_sound (r ∷ rs) = key_is_sound r.public_key && keys_are_sound rs

-- `sort_by` on the identifiers. It is stable.
insert_realm : Realm → List Realm → List Realm
insert_realm r [] = r ∷ []
insert_realm r (s ∷ ss) = if bytes_le r.id s.id then r ∷ s ∷ ss else s ∷ insert_realm r ss

unfoldable pub sort_realms : List Realm → List Realm
unfolding insert_realm
sort_realms [] = []
sort_realms (r ∷ rs) = insert_realm r (sort_realms rs)

-- `CheckedConfiguration::from`. The second test on `recover_threshold` stands where the message
-- speaks of `register_threshold`.
unfoldable pub checked : {E : Type 0} → Configuration → Outcome E Configuration
unfolding hash_set is_empty keys_are_sound sort_realms
checked c = do
  let realm_count = length c.realms
  assert (not (is_empty c.realms))
  assert (length (hash_set (ids c.realms)) == realm_count)
  assert (ltb realm_count u32_mod)
  assert (keys_are_sound c.realms)
  assert (leb 1 c.recover_threshold)
  assert (leb c.recover_threshold realm_count)
  assert (ltb (realm_count / 2) c.recover_threshold)
  assert (leb c.recover_threshold realm_count)
  assert (leb c.register_threshold realm_count)
  ok (record c { realms = sort_realms c.realms })

-- `Iterator::position` on the identifiers.
position : RealmId → List Realm → Option ℕ
position id [] = none
position id (r ∷ rs) = elim (bytes_eq r.id id) [
  | true ↦ some 0
  | false ↦ elim (position id rs) [ none ↦ none | some i ↦ some (suc i) ]
]

-- `(index + 1).try_into().map(Index).ok()`
unfoldable pub share_index : Configuration → RealmId → Option ℕ
unfolding position
share_index c realm = elim (position realm c.realms) [
  | none ↦ none
  | some index ↦ if ltb (index + 1) u32_mod then some (index + 1) else none
]

unfoldable pub share_count : {E : Type 0} → Configuration → Outcome E ℕ
share_count c = if ltb (length c.realms) u32_mod then ok (length c.realms) else panic
