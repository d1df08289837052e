-- ===== src/Configuration/Sorting.antt =====
-- The fixed order of the realms does not depend on the order in which they are given.
use juicebox_sdk.Prelude.{
  ◌≡◌, ◌≢◌, inl, inr, refl, sym, ap, ◌∙◌, true, List, [], ◌∷◌, arith, Permᴰ, All, Distinct,
  All-Permᴰ, Distinct-Permᴰ, bytes_le, bytes_le_total, bytes_le_antisymm, bytes_le_trans,
  Bool-cases,
}
use mathlib.Core.List.Permᴰ
use mathlib.Core.Path.{ap₂}
use juicebox_sdk.Realm.{Realm}
use juicebox_sdk.Configuration.{ids, insert_realm, sort_realms}

-- Each identifier is at most those behind it.
abbrev pub IsSorted : List Realm → Type 0
IsSorted [] = Unit
IsSorted (r ∷ rs) = All (λ s. bytes_le r.id s.id ≡ true) rs × IsSorted rs

insert_realm_comm :
    (a b : Realm) (l : List Realm)
    → a.id ≢ b.id
    → insert_realm a (insert_realm b l) ≡ insert_realm b (insert_realm a l)
unfolding insert_realm
insert_realm_comm a b [] h = ground (arith, bytes_le_total a.id b.id, bytes_le_antisymm a.id b.id)
insert_realm_comm a b (s ∷ ss) h = ground (
  arith,
  bytes_le_total a.id b.id,
  bytes_le_antisymm a.id b.id,
  bytes_le_trans a.id b.id s.id,
  bytes_le_trans b.id a.id s.id,
  insert_realm_comm a b ss h,
)

insert_realm-Permᴰ : (r : Realm) (l : List Realm) → Permᴰ (insert_realm r l) (r ∷ l)
unfolding insert_realm
insert_realm-Permᴰ r [] = Permᴰ.refl (r ∷ [])
insert_realm-Permᴰ r (s ∷ ss) = elim (Bool-cases (bytes_le r.id s.id)) [
  | inl h ↦ rw h (Permᴰ.refl (r ∷ s ∷ ss))
  | inr h ↦ rw h (Permᴰ.trans (Permᴰ.cons refl (insert_realm-Permᴰ r ss)) (Permᴰ.swap refl refl))
]

pub sort_realms-Permᴰ : (l : List Realm) → Permᴰ (sort_realms l) l
unfolding sort_realms
sort_realms-Permᴰ [] = Permᴰ.nil
sort_realms-Permᴰ (r ∷ rs) =
    Permᴰ.trans (insert_realm-Permᴰ r (sort_realms rs)) (Permᴰ.cons refl (sort_realms-Permᴰ rs))

insert_realm-IsSorted : (r : Realm) (l : List Realm) → IsSorted l → IsSorted (insert_realm r l)
unfolding insert_realm
insert_realm-IsSorted r [] h = (tt, tt)
insert_realm-IsSorted r (s ∷ ss) h = elim (Bool-cases (bytes_le r.id s.id)) [
  | inl le ↦ rw le ((le, below r s ss le h.0), h)
  | inr gt ↦ rw gt (
    All-Permᴰ (λ t. bytes_le s.id t.id ≡ true) (Permᴰ.symm (insert_realm-Permᴰ r ss))
        (ground (arith, bytes_le_total r.id s.id), h.0),
    insert_realm-IsSorted r ss h.1,
  )
]
  where
    below :
        (r s : Realm) (l : List Realm)
        → bytes_le r.id s.id ≡ true
        → All (λ t. bytes_le s.id t.id ≡ true) l
        → All (λ t. bytes_le r.id t.id ≡ true) l
    below r s [] le h = tt
    below r s (t ∷ l) le h = (bytes_le_trans r.id s.id t.id le h.0, below r s l le h.1)

pub sort_realms-IsSorted : (l : List Realm) → IsSorted (sort_realms l)
unfolding sort_realms
sort_realms-IsSorted [] = tt
sort_realms-IsSorted (r ∷ rs) = insert_realm-IsSorted r (sort_realms rs) (sort_realms-IsSorted rs)

pub ids-Permᴰ : {rs ss : List Realm} → Permᴰ rs ss → Permᴰ (ids rs) (ids ss)
ids-Permᴰ Permᴰ.nil = Permᴰ.nil
ids-Permᴰ (Permᴰ.cons p d) = Permᴰ.cons (ap (λ r. r.id) p) (ids-Permᴰ d)
ids-Permᴰ (Permᴰ.swap p q) = Permᴰ.swap (ap (λ r. r.id) p) (ap (λ r. r.id) q)
ids-Permᴰ (Permᴰ.trans d e) = Permᴰ.trans (ids-Permᴰ d) (ids-Permᴰ e)

-- With distinct identifiers, every order of the realms is sorted to the same list.
pub sort_realms-eq :
    {rs ss : List Realm} → Permᴰ rs ss → Distinct (ids rs) → sort_realms rs ≡ sort_realms ss
unfolding sort_realms
sort_realms-eq Permᴰ.nil d = refl
sort_realms-eq (Permᴰ.cons p e) d = ap₂ insert_realm p (sort_realms-eq e d.1)
sort_realms-eq (Permᴰ.swap {a} {b} {a'} {b'} {l} p q) d =
    insert_realm_comm a b (sort_realms l) (λ e. d.0.0 (sym e))
    ∙ ap₂ (λ x y. insert_realm x (insert_realm y (sort_realms l))) q p
sort_realms-eq (Permᴰ.trans p q) d =
    sort_realms-eq p d ∙ sort_realms-eq q (Distinct-Permᴰ (ids-Permᴰ p) d)
