-- ===== src/Configuration/Index.antt =====
-- The index of a realm's share is its place in the checked order, counted from 1.
use juicebox_sdk.Prelude.{
  ℕ, zero, suc, ◌+◌, ◌≤◌, ◌<◌, ◌≡◌, ◌≢◌, inl, inr, refl, sym, false, none, some, List, [], ◌∷◌,
  Memᴰ, arith, length, get_elem?, u32_mod, All, All_of_mem, Distinct, bytes_eq, bytes_eq_iff,
  Bool-cases,
}
use juicebox_sdk.Realm.{RealmId, Realm}
use juicebox_sdk.Configuration.{Configuration, ids, position, share_index}

position-get :
    (rs : List Realm) (i : ℕ) (r : Realm)
    → Distinct (ids rs)
    → get_elem? rs i ≡ some r
    → (position r.id rs ≡ some i) × (i < length rs) × Memᴰ r.id (ids rs)
unfolding position
position-get [] i r d h = cc
position-get (s ∷ ss) zero r d h =
    let same : s.id ≡ r.id = ground arith in
    (ground (arith, (bytes_eq_iff s.id r.id).1 same), omega arith, Memᴰ.head (sym same))
position-get (s ∷ ss) (suc i) r d h =
    let on = position-get ss i r d.1 h in
    let apart : bytes_eq s.id r.id ≡ false = elim (Bool-cases (bytes_eq s.id r.id)) [
      | inl e ↦
          absurd (All_of_mem (λ y. y ≢ s.id) (ids ss) d.0 on.2 (sym ((bytes_eq_iff s.id r.id).0 e)))
      | inr n ↦ n
    ] in
    (ground (arith, on.0), omega (arith, on.1), Memᴰ.tail on.2)

position-none :
    (rs : List Realm) (id : RealmId) → All (λ y. y ≢ id) (ids rs) → position id rs ≡ none
unfolding position
position-none [] id h = refl
position-none (r ∷ rs) id h = elim (Bool-cases (bytes_eq r.id id)) [
  | inl e ↦ absurd (h.0 ((bytes_eq_iff r.id id).0 e))
  | inr n ↦ ground (arith, position-none rs id h.1)
]

-- The realm at place `i` of a configuration with different realms, at most 2 ^ 32 - 1 of them, gets
-- the index `i + 1`, which lies between 1 and the share count.
pub share_index_place :
    (c : Configuration) (i : ℕ) (r : Realm)
    → Distinct (ids c.realms)
    → length c.realms < u32_mod
    → get_elem? c.realms i ≡ some r
    → (share_index c r.id ≡ some (i + 1)) × (i + 1 ≤ length c.realms)
unfolding share_index
share_index_place c i r d fits h =
    let on = position-get c.realms i r d h in (ground (arith, on.0, on.1), omega (arith, on.1))

-- A realm that is not configured has no index.
pub share_index-none :
    (c : Configuration) (id : RealmId) → All (λ y. y ≢ id) (ids c.realms) → share_index c id ≡ none
unfolding share_index
share_index-none c id h = ground (arith, position-none c.realms id h)
