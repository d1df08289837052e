-- ===== src/Configuration/Accepted.antt =====
-- Exactly which configurations `CheckedConfiguration::from` accepts.
use juicebox_sdk.Prelude.{
  suc, ◌*◌, ◌/◌, ◌≤◌, ◌<◌, ◌≡◌, ◌≢◌, ◌⊎◌, ◌↔◌, inl, inr, refl, sym, ap, ◌∙◌, true, false, Option,
  none, some, List, [], ◌∷◌, Bytes, Outcome, ok, panic, ltb, leb, ltb→lt, leb→le, ◌==◌, length,
  u32_mod, arith, All, Distinct, length-map, bytes_eq, bytes_eq_iff, ==_iff, Bool-cases,
}
use juicebox_sdk.Realm.{RealmId, Realm}
use juicebox_sdk.Configuration.{
  Configuration, ids, contains, hash_set, is_empty, key_is_sound, keys_are_sound, sort_realms,
  checked,
}

-- A realm has no public key or one of 32 bytes.
abbrev pub KeyIsSound : Option Bytes → Type 0
KeyIsSound none = Unit
KeyIsSound (some key) = length key ≡ 32

pub record IsAccepted (c : Configuration) : Type 0 where
  pub distinct : Distinct (ids c.realms)
  pub fits : length c.realms < u32_mod
  pub keys : All (λ r. KeyIsSound r.public_key) c.realms
  pub positive : 1 ≤ c.recover_threshold
  pub recover_le : c.recover_threshold ≤ length c.realms
  pub majority : length c.realms < 2 * c.recover_threshold
  pub register_le : c.register_threshold ≤ length c.realms

contains_cases :
    (l : List RealmId) (a : RealmId)
    → ((contains l a ≡ false) × All (λ b. b ≢ a) l) ⊎ ((contains l a ≡ true) × ¬ All (λ b. b ≢ a) l)
unfolding contains
contains_cases [] a = inl (refl, tt)
contains_cases (b ∷ bs) a = elim (Bool-cases (bytes_eq a b)) [
  | inl h ↦ inr (rw h, λ n. n.0 (sym ((bytes_eq_iff a b).0 h)))
  | inr h ↦ elim (contains_cases bs a) [
    | inl r ↦ inl ((rw h r.0), (λ e. cc (h, (bytes_eq_iff a b).1 (sym e)), r.1))
    | inr r ↦ inr ((rw h r.0), λ n. r.1 n.1)
  ]
]

length-hash_set : (l : List RealmId) → length (hash_set l) ≤ length l
unfolding hash_set
length-hash_set [] = omega arith
length-hash_set (a ∷ l) = ground (arith, length-hash_set l)

contains-hash_set : (l : List RealmId) (a : RealmId) → contains (hash_set l) a ≡ contains l a
unfolding hash_set
contains-hash_set [] a = refl
contains-hash_set (b ∷ l) a = elim (Bool-cases (bytes_eq a b)) [
  | inl e ↦
      let same = (bytes_eq_iff a b).0 e in
      ground (arith, contains-hash_set l a, contains-hash_set l b, ap (contains l) same)
  | inr n ↦ ground (arith, contains-hash_set l a)
]

length-hash_set_iff : (l : List RealmId) → (length (hash_set l) ≡ length l) ↔ Distinct l
unfolding hash_set
length-hash_set_iff [] = ((λ h. tt), (λ h. refl))
length-hash_set_iff (a ∷ l) = elim (contains_cases l a) [
  | inl r ↦
      rw (contains-hash_set l a, r.0)
        (
          (λ h. (r.1, (length-hash_set_iff l).0 (omega arith))),
          (λ d. ap suc ((length-hash_set_iff l).1 d.1)),
        )
  | inr r ↦
      rw (contains-hash_set l a, r.0)
        ((λ h. absurd (omega (arith, length-hash_set l))), (λ d. absurd (r.1 d.0)))
]

key_is_sound_iff : (k : Option Bytes) → (key_is_sound k ≡ true) ↔ KeyIsSound k
unfolding key_is_sound
key_is_sound_iff none = ((λ h. tt), (λ h. refl))
key_is_sound_iff (some key) = ground arith

keys_are_sound_iff :
    (rs : List Realm) → (keys_are_sound rs ≡ true) ↔ All (λ r. KeyIsSound r.public_key) rs
unfolding keys_are_sound
keys_are_sound_iff [] = ((λ h. tt), (λ h. refl))
keys_are_sound_iff (r ∷ rs) = elim (Bool-cases (key_is_sound r.public_key)) [
  | inl h ↦ rw h (
    (λ k. ((key_is_sound_iff r.public_key).0 h, (keys_are_sound_iff rs).0 k)),
    (λ k. (keys_are_sound_iff rs).1 k.1),
  )
  | inr h ↦ rw h ((λ k. cc), (λ k. cc (h, (key_is_sound_iff r.public_key).1 k.0)))
]

is_empty-eq-false : (rs : List Realm) → 0 < length rs → is_empty rs ≡ false
unfolding is_empty
is_empty-eq-false [] h = elim h [ ]
is_empty-eq-false (r ∷ rs) h = refl

-- The conditions in the order of the assertions.
record Tests (c : Configuration) : Type 0 where
  unique : (length (hash_set (ids c.realms)) == length c.realms) ≡ true
  sound : keys_are_sound c.realms ≡ true
  fits : length c.realms < u32_mod
  positive : 1 ≤ c.recover_threshold
  recover_le : c.recover_threshold ≤ length c.realms
  majority : length c.realms / 2 < c.recover_threshold
  register_le : c.register_threshold ≤ length c.realms

Tests-IsAccepted : {c : Configuration} → Tests c → IsAccepted c
Tests-IsAccepted {c} t = record {
  distinct =
      (length-hash_set_iff (ids c.realms)).0
        ((==_iff _ _).0 t.unique ∙ sym (length-map c.realms (λ r. r.id)));
  fits = t.fits;
  keys = (keys_are_sound_iff c.realms).0 t.sound;
  positive = t.positive;
  recover_le = t.recover_le;
  majority = omega (arith, t.majority);
  register_le = t.register_le;
}

IsAccepted-Tests : {c : Configuration} → IsAccepted c → Tests c
IsAccepted-Tests {c} a = record {
  unique =
      (==_iff _ _).1
        ((length-hash_set_iff (ids c.realms)).1 a.distinct ∙ length-map c.realms (λ r. r.id));
  sound = (keys_are_sound_iff c.realms).1 a.keys;
  fits = a.fits;
  positive = a.positive;
  recover_le = a.recover_le;
  majority = omega (arith, a.majority);
  register_le = a.register_le;
}

checked-ok :
    {E : Type 0} (c : Configuration)
    → Tests c
    → ◌≡◌ {A = Outcome E Configuration}
        (checked c)
        (ok (record c { realms = sort_realms c.realms }))
unfolding checked
checked-ok c t =
    ground (arith, is_empty-eq-false c.realms (omega (arith, t.positive, t.recover_le)))

checked_any :
    {E : Type 0} (c : Configuration)
    → Tests c ⊎ (◌≡◌ {A = Outcome E Configuration} (checked c) panic)
unfolding checked
checked_any c = elim (Bool-cases (length (hash_set (ids c.realms)) == length c.realms)) [
  | inr f ↦ inr (ground arith)
  | inl unique ↦ elim (Bool-cases (keys_are_sound c.realms)) [
    | inr f ↦ inr (ground arith)
    | inl sound ↦ elim (Bool-cases (ltb (length c.realms) u32_mod)) [
      | inr f ↦ inr (ground arith)
      | inl fits ↦ elim (Bool-cases (leb 1 c.recover_threshold)) [
        | inr f ↦ inr (ground arith)
        | inl positive ↦ elim (Bool-cases (leb c.recover_threshold (length c.realms))) [
          | inr f ↦ inr (ground arith)
          | inl recover_le ↦ elim (Bool-cases (ltb (length c.realms / 2) c.recover_threshold)) [
            | inr f ↦ inr (ground arith)
            | inl majority ↦ elim (Bool-cases (leb c.register_threshold (length c.realms))) [
              | inr f ↦ inr (ground arith)
              | inl register_le ↦ inl (record {
                unique = unique;
                sound = sound;
                fits = ltb→lt _ _ fits;
                positive = leb→le _ _ positive;
                recover_le = leb→le _ _ recover_le;
                majority = ltb→lt _ _ majority;
                register_le = leb→le _ _ register_le;
              })
            ]
          ]
        ]
      ]
    ]
  ]
]

abbrev pub Accepts : {E : Type 0} → Outcome E Configuration → Configuration → Type 0
Accepts r c =
    (IsAccepted c × (r ≡ ok (record c { realms = sort_realms c.realms })))
    ⊎ ((¬ IsAccepted c) × (r ≡ panic))

-- Either the configuration meets all the conditions and comes back with its realms sorted, or it
-- does not and the call panics.
pub checked_cases : {E : Type 0} (c : Configuration) → Accepts {E = E} (checked c) c
checked_cases {E} c = elim (checked_any {E = E} c) [
  | inl t ↦ inl (Tests-IsAccepted t, checked-ok c t)
  | inr p ↦ inr ((λ a. cc (checked-ok {E = E} c (IsAccepted-Tests a))), p)
]
