-- ===== src/Consensus/Choice.antt =====
-- What the chosen group holds.
use mathlib.Core.List.{foldl, append_assoc, append-nil}
use mathlib.Core.Path.{ap₂}
use mathlib.Core.Logic.{ite, if_pos, if_neg}
use juicebox_sdk.Prelude.{
  ℕ, suc, zero, ◌*◌, ◌<◌, ◌≤◌, ◌≡◌, ◌≢◌, refl, sym, subst, ap, ◌∙◌, ◌⊎◌, inl, inr, Bool-cases,
  leb→le, le→leb, false, List, [], ◌∷◌, ◌++◌, Option, none, some, Outcome, ok, leb, length,
  if◌then◌else◌, arith, All,
}
use juicebox_sdk.Consensus.{entry_push, grouped, retain, first, consensus}
use juicebox_sdk.Consensus.Majority.{values_of, total-foldl, total-retain}

cons≢nil : {A : Type 0} {x : A} {xs : List A} → (x ∷ xs) ≢ []
cons≢nil h = cc

at_most_one : (n threshold size : ℕ) → n * threshold ≤ size → size < 2 * threshold → n ≤ 1
at_most_one zero threshold size p q = omega arith
at_most_one (suc zero) threshold size p q = omega arith
at_most_one (suc (suc n)) threshold size p q = absurd (grind arith)

module _ {K V : Type 0} (dec : Discrete K) where
  abbrev lookup : K → List (K × List V) → List V
  lookup key [] = []
  lookup key ((k, values) ∷ rest) = let others = lookup key rest in ite (dec k key) values others

  -- No key has two entries.
  abbrev AreApart : List (K × List V) → Type 0
  AreApart [] = Unit
  AreApart ((k, values) ∷ rest) = All (λ g. g.0 ≢ k) rest × AreApart rest

  All-both :
      (P Q R : K × List V → Type 0) (gs : List (K × List V))
      → ((g : K × List V) → P g → Q g → R g)
      → All P gs
      → All Q gs
      → All R gs
  All-both P Q R [] f p q = tt
  All-both P Q R (g ∷ gs) f p q = (f g p.0 q.0, All-both P Q R gs f p.1 q.1)

  lookup-hit :
      (k key : K) (values : List V) (rest : List (K × List V))
      → k ≡ key
      → lookup key ((k, values) ∷ rest) ≡ values
  lookup-hit k key values rest e = if_pos (dec k key) e _ _

  lookup-miss :
      (k key : K) (values : List V) (rest : List (K × List V))
      → k ≢ key
      → lookup key ((k, values) ∷ rest) ≡ lookup key rest
  lookup-miss k key values rest n = if_neg (dec k key) n _ _

  lookup_self :
      (groups : List (K × List V)) → AreApart groups → All (λ g. lookup g.0 groups ≡ g.1) groups
  lookup_self [] h = tt
  lookup_self ((k, values) ∷ rest) h = (
    lookup-hit k k values rest refl,
    All-both (λ g. g.0 ≢ k) (λ g. lookup g.0 rest ≡ g.1) _ rest
        (λ g n e. lookup-miss k g.0 values rest (λ p. n (sym p)) ∙ e) h.0 (lookup_self rest h.1),
  )

  All-entry_push :
      (k : K) (groups : List (K × List V)) (key : K) (value : V)
      → key ≢ k
      → All (λ g. g.0 ≢ k) groups
      → All (λ g. g.0 ≢ k) (entry_push dec groups key value)
  All-entry_push k [] key value n h = (n, tt)
  All-entry_push k ((k', values) ∷ rest) key value n h = elim (dec k' key) [
    | yes e ↦ rw (if_pos _ e) (h.0, h.1)
    | no m ↦ rw (if_neg _ m) (h.0, All-entry_push k rest key value n h.1)
  ]

  AreApart-entry_push :
      (groups : List (K × List V)) (key : K) (value : V)
      → AreApart groups
      → AreApart (entry_push dec groups key value)
  AreApart-entry_push [] key value h = (tt, tt)
  AreApart-entry_push ((k, values) ∷ rest) key value h = elim (dec k key) [
    | yes e ↦ rw (if_pos _ e) h
    | no n ↦ rw (if_neg _ n) (
      All-entry_push k rest key value (λ e. n (sym e)) h.0,
      AreApart-entry_push rest key value h.1,
    )
  ]

  AreApart-foldl :
      (pairs : List (K × V)) (groups : List (K × List V))
      → AreApart groups
      → AreApart (foldl (λ groups pair. entry_push dec groups pair.0 pair.1) groups pairs)
  AreApart-foldl [] groups h = h
  AreApart-foldl ((k, v) ∷ pairs) groups h =
      AreApart-foldl pairs (entry_push dec groups k v) (AreApart-entry_push groups k v h)

  -- What one pair adds to the values of the key `k`.
  abbrev added : K → K → V → List V
  added k key value = values_of dec k ((key, value) ∷ [])

  lookup-entry_push :
      (groups : List (K × List V)) (key : K) (value : V) (k : K)
      → lookup k (entry_push dec groups key value) ≡ lookup k groups ++ added k key value
  lookup-entry_push [] key value k = refl
  lookup-entry_push ((k', values) ∷ rest) key value k = elim (dec k' key) [
    | yes e ↦ rw (if_pos (dec k' key) e) (elim (dec k' k) [
      | yes p ↦
          lookup-hit k' k (values ++ (value ∷ [])) rest p
          ∙ sym (ap₂ ◌++◌ (lookup-hit k' k values rest p) (if_pos (dec key k) (sym e ∙ p) _ _))
      | no n ↦
          lookup-miss k' k (values ++ (value ∷ [])) rest n
          ∙ sym (
              ap₂ ◌++◌ (lookup-miss k' k values rest n) (if_neg (dec key k) (λ p. n (e ∙ p)) _ _)
              ∙ append-nil _)
    ])
    | no m ↦ rw (if_neg (dec k' key) m) (elim (dec k' k) [
      | yes p ↦
          lookup-hit k' k values (entry_push dec rest key value) p
          ∙ sym (
              ap₂ ◌++◌ (lookup-hit k' k values rest p) (if_neg (dec key k) (λ q. m (p ∙ sym q)) _ _)
              ∙ append-nil _)
      | no n ↦
          lookup-miss k' k values (entry_push dec rest key value) n
          ∙ lookup-entry_push rest key value k
          ∙ ap (λ t. t ++ added k key value) (sym (lookup-miss k' k values rest n))
    ])
  ]

  values_of-append :
      (k key : K) (value : V) (pairs : List (K × V))
      → values_of dec k ((key, value) ∷ pairs)
        ≡ values_of dec k ((key, value) ∷ []) ++ values_of dec k pairs
  values_of-append k key value pairs = elim (dec key k) [
    | yes p ↦
        if_pos (dec key k) p _ _
        ∙ sym (ap (λ t. t ++ values_of dec k pairs) (if_pos (dec key k) p _ _))
    | no n ↦
        if_neg (dec key k) n _ _
        ∙ sym (ap (λ t. t ++ values_of dec k pairs) (if_neg (dec key k) n _ _))
  ]

  lookup-foldl :
      (k : K) (pairs : List (K × V)) (groups : List (K × List V))
      → lookup k (foldl (λ groups pair. entry_push dec groups pair.0 pair.1) groups pairs)
        ≡ lookup k groups ++ values_of dec k pairs
  lookup-foldl k [] groups = sym (append-nil _)
  lookup-foldl k ((key, v) ∷ pairs) groups =
      lookup-foldl k pairs (entry_push dec groups key v)
      ∙ ap (λ t. t ++ values_of dec k pairs) (lookup-entry_push groups key v k)
      ∙ append_assoc (lookup k groups) _ _
      ∙ ap (λ t. lookup k groups ++ t) (sym (values_of-append k key v pairs))

  lookup-grouped :
      (k : K) (pairs : List (K × V)) → lookup k (grouped dec pairs) ≡ values_of dec k pairs
  lookup-grouped k pairs = lookup-foldl k pairs []

  retain-All :
      (P : K × List V → Type 0) (threshold : ℕ) (groups : List (K × List V))
      → All P groups
      → All (λ g. P g × (threshold ≤ length g.1)) (retain dec threshold groups)
  retain-All P threshold [] h = tt
  retain-All P threshold ((k, values) ∷ rest) h =
      elim (Bool-cases (leb threshold (length values))) [
        | inl e ↦ rw e ((h.0, leb→le threshold (length values) e), retain-All P threshold rest h.1)
        | inr e ↦ rw e (retain-All P threshold rest h.1)
      ]

  lookup_few :
      (threshold : ℕ) (groups : List (K × List V)) (k : K)
      → 0 < threshold
      → retain dec threshold groups ≡ []
      → length (lookup k groups) < threshold
  lookup_few threshold [] k pos h = pos
  lookup_few threshold ((k', values) ∷ rest) k pos h =
      elim (Bool-cases (leb threshold (length values))) [
        | inl e ↦ absurd (
            cons≢nil (
              subst
                (λ b.
                  (if b
                    then (k', values) ∷ retain dec threshold rest
                    else retain dec threshold rest)
                  ≡ [])
                e h))
        | inr e ↦ elim (dec k' k) [
          | yes p ↦ subst (λ l. length l < threshold) (sym (lookup-hit k' k values rest p)) (few e)
          | no n ↦ rw (if_neg (dec k' k) n) (
              lookup_few threshold rest k pos (
                subst
                  (λ b.
                    (if b
                      then (k', values) ∷ retain dec threshold rest
                      else retain dec threshold rest)
                    ≡ [])
                  e h))
        ]
      ]
    where
      few : leb threshold (length values) ≡ false → length values < threshold
      few e = ground arith

  -- What is chosen among the pairs, as the code's asserts and tests leave it.
  chosen_cases :
      (threshold : ℕ) (pairs : List (K × V)) (kept : List (K × List V))
      → 0 < threshold
      → retain dec threshold (grouped dec pairs) ≡ kept
      → length kept ≤ 1
      → ((key : K) × (first dec kept ≡ some (key, values_of dec key pairs))
          × (threshold ≤ length (values_of dec key pairs)))
        ⊎ ((first dec kept ≡ none) × ((key : K) → length (values_of dec key pairs) < threshold))
  chosen_cases threshold pairs [] pos e small = inr (
    refl,
    λ key.
        subst (λ l. length l < threshold) (lookup-grouped key pairs)
          (lookup_few threshold (grouped dec pairs) key pos e),
  )
  chosen_cases threshold pairs ((key, values) ∷ []) pos e small =
      let entry =
        (subst (All (λ g. (lookup g.0 (grouped dec pairs) ≡ g.1) × (threshold ≤ length g.1))) e (
          retain-All (λ g. lookup g.0 (grouped dec pairs) ≡ g.1) threshold (grouped dec pairs)
            (lookup_self (grouped dec pairs) (AreApart-foldl pairs [] tt)))).0 in
      let values-eq = sym entry.0 ∙ lookup-grouped key pairs in
      inl (
        key,
        ap (λ l. some (key, l)) values-eq,
        subst (λ l. threshold ≤ length l) values-eq entry.1,
      )
  chosen_cases threshold pairs (g ∷ g' ∷ kept) pos e small = absurd (omega arith)

  -- With a threshold above half of the pairs, the assertion that one group at most is left holds.
  -- If some key comes with at least the threshold of values, the choice is such a key with all its
  -- values in the order of the pairs, and otherwise it is nothing.
  pub consensus_cases {ℓ} :
      {E : Type ℓ} (threshold : ℕ) (pairs : List (K × V))
      → length pairs < 2 * threshold
      → ((key : K) × ◌≡◌ {A = Outcome E (Option (K × List V))}
            (consensus dec threshold pairs)
            (ok (some (key, values_of dec key pairs)))
          × (threshold ≤ length (values_of dec key pairs)))
        ⊎ (◌≡◌ {A = Outcome E (Option (K × List V))} (consensus dec threshold pairs) (ok none)
            × ((key : K) → length (values_of dec key pairs) < threshold))
  unfolding consensus
  consensus_cases threshold pairs h =
      rw (le→leb (length kept) 1 one_at_most)
        (elim (chosen_cases threshold pairs kept (omega arith) refl one_at_most) [
          | inl c ↦ inl (c.0, ap ok c.1, c.2)
          | inr c ↦ inr (ap ok c.0, c.1)
        ])
    where
      kept : List (K × List V)
      kept = retain dec threshold (grouped dec pairs)

      one_at_most : length kept ≤ 1
      one_at_most =
          at_most_one (length kept) threshold (length pairs)
            (omega
              (arith, total-retain dec threshold (grouped dec pairs), total-foldl dec pairs []))
            h
