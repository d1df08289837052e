-- ===== src/Configuration/Canonical.antt =====
-- A checked configuration does not depend on the order in which its realms were given.
use juicebox_sdk.Prelude.{
  ◌≡◌, inl, inr, sym, ap, ◌∙◌, List, Permᴰ, Outcome, arith, All-Permᴰ, Distinct-Permᴰ,
}
use mathlib.Core.List.Permᴰ
use juicebox_sdk.Join.Reorder.{length-Permᴰ}
use juicebox_sdk.Realm.{Realm}
use juicebox_sdk.Configuration.{Configuration, checked}
use juicebox_sdk.Configuration.Sorting.{ids-Permᴰ, sort_realms-eq}
use juicebox_sdk.Configuration.Accepted.{IsAccepted, KeyIsSound, checked_cases}

IsAccepted-Permᴰ :
    {c : Configuration} (rs : List Realm)
    → Permᴰ c.realms rs
    → IsAccepted c
    → IsAccepted (record c { realms = rs })
IsAccepted-Permᴰ {c} rs p a =
    let same = length-Permᴰ p in
    record {
      distinct = Distinct-Permᴰ (ids-Permᴰ p) a.distinct;
      fits = omega (arith, same, a.fits);
      keys = All-Permᴰ (λ r. KeyIsSound r.public_key) p a.keys;
      positive = a.positive;
      recover_le = omega (arith, same, a.recover_le);
      majority = omega (arith, same, a.majority);
      register_le = omega (arith, same, a.register_le);
    }

-- Two configurations that list the same realms in different orders are checked alike: both panic, or
-- both give the same configuration, with the same order of realms.
pub checked-reorder :
    {E : Type 0} (c : Configuration) (rs : List Realm)
    → Permᴰ c.realms rs
    → ◌≡◌ {A = Outcome E Configuration} (checked c) (checked (record c { realms = rs }))
checked-reorder {E} c rs p = elim (checked_cases {E = E} c) [
  | inl r ↦ elim (checked_cases {E = E} (record c { realms = rs })) [
    | inl s ↦
        r.1
        ∙ ap (λ l. Outcome.ok (record c { realms = l })) (sort_realms-eq p r.0.distinct)
        ∙ sym s.1
    | inr s ↦ absurd (s.0 (IsAccepted-Permᴰ rs p r.0))
  ]
  | inr r ↦ elim (checked_cases {E = E} (record c { realms = rs })) [
    | inl s ↦ absurd (r.0 (IsAccepted-Permᴰ c.realms (Permᴰ.symm p) s.0))
    | inr s ↦ r.1 ∙ sym s.1
  ]
]
