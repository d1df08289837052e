-- ===== src/Recover/Unanimous.antt =====
-- Phases of rust/sdk/src/recover.rs in which every realm gives a result, and all agree.
use juicebox_sdk.Prelude.{
  ℕ, ◌*◌, ◌<◌, ◌≤◌, ◌≡◌, ◌≢◌, refl, sym, ap, subst, ◌∙◌, inl, inr, List, [], ◌∷◌, map, Permᴰ,
  Option, some, Outcome, ok, length, length-map, All, arith,
}
use mathlib.Core.Path.{ap₂}
use mathlib.Core.List.Permᴰ
use mathlib.Core.Logic.{if_pos, if_neg}
use juicebox_sdk.Join.{join_at_least_threshold}
use juicebox_sdk.Join.Order.{Ord}
use juicebox_sdk.Join.Threshold.{oks_of, NoPanic, join-ok, length-oks_of}
use juicebox_sdk.Join.Reorder.{length-Permᴰ, Permᴰ-oks_of, Permᴰ-NoPanic}
use juicebox_sdk.Consensus.{consensus}
use juicebox_sdk.Consensus.Majority.{values_of}
use juicebox_sdk.Consensus.Choice.{consensus_cases}

module _ {A B : Type 0} (f : A → B) where
  pub Permᴰ-map : {xs ys : List A} → Permᴰ xs ys → Permᴰ (map f xs) (map f ys)
  Permᴰ-map Permᴰ.nil = Permᴰ.nil
  Permᴰ-map (Permᴰ.cons p d) = Permᴰ.cons (ap f p) (Permᴰ-map d)
  Permᴰ-map (Permᴰ.swap p q) = Permᴰ.swap (ap f p) (ap f q)
  Permᴰ-map (Permᴰ.trans d e) = Permᴰ.trans (Permᴰ-map d) (Permᴰ-map e)

  -- A reordered image is the image of a reordered list.
  pub Permᴰ-unmap :
      (xs zs : List B) (ys : List A)
      → Permᴰ xs zs
      → zs ≡ map f ys
      → (ws : List A) × (xs ≡ map f ws) × Permᴰ ws ys
  Permᴰ-unmap xs zs [] Permᴰ.nil e = ([], refl, Permᴰ.nil)
  Permᴰ-unmap xs zs (y ∷ ys) Permᴰ.nil e = cc
  Permᴰ-unmap xs zs [] (Permᴰ.cons p d) e = cc
  Permᴰ-unmap xs zs (y ∷ ys) (Permᴰ.cons {l₁ = l₁} {l₂ = l₂} p d) e =
      let r = Permᴰ-unmap l₁ l₂ ys d (cc) in (y ∷ r.0, (let s = r.1 in cc), Permᴰ.cons refl r.2)
  Permᴰ-unmap xs zs [] (Permᴰ.swap p q) e = cc
  Permᴰ-unmap xs zs (y ∷ []) (Permᴰ.swap p q) e = cc
  Permᴰ-unmap xs zs (y ∷ y' ∷ ys) (Permᴰ.swap p q) e = (y' ∷ y ∷ ys, cc, Permᴰ.swap refl refl)
  Permᴰ-unmap xs zs ys (Permᴰ.trans {l₂ = m} d e) h =
      let second = Permᴰ-unmap m zs ys e h in
      let first = Permᴰ-unmap xs m second.0 d second.1 in
      (first.0, first.1, Permᴰ.trans first.2 second.2)

module _ (E : Type 0) {A : Type 0} where
  abbrev all_ok : List A → List (Outcome E A)
  all_ok = map ok

  oks_of-map : (ys : List A) → oks_of (all_ok ys) ≡ ys
  oks_of-map [] = refl
  oks_of-map (y ∷ ys) = ap (λ l. y ∷ l) (oks_of-map ys)

  map-NoPanic : (ys : List A) → NoPanic (all_ok ys)
  map-NoPanic [] = tt
  map-NoPanic (y ∷ ys) = map-NoPanic ys

module _ {E A : Type 0} where
  -- Futures that all give results, reordered.
  pub join-all :
      ⦃o : Ord E⦄
      → (futures : List (Outcome E A)) (ys : List A) (threshold : ℕ) → Permᴰ futures (map ok ys)
      → 0 < threshold
      → threshold ≤ length ys
      → (answers : List A) × (join_at_least_threshold futures threshold ≡ ok answers)
        × Permᴰ answers ys
  join-all futures ys threshold d pos enough =
      let calm = Permᴰ-NoPanic (Permᴰ.symm d) (map-NoPanic E ys) in
      let same = subst (Permᴰ (oks_of futures)) (oks_of-map E ys) (Permᴰ-oks_of d) in
      let many : length futures ≡ length ys = length-Permᴰ d ∙ length-map ys ok in
      let sizes = length-Permᴰ same in
      let all = length-oks_of futures calm in
      (oks_of futures, (join-ok futures threshold calm pos (omega arith) (omega arith)).0, same)

module _ {K V : Type 0} (dec : Discrete K) (key : K) where
  values_of-same :
      (pairs : List (K × V))
      → All (λ p. p.0 ≡ key) pairs
      → values_of dec key pairs ≡ map (λ p. p.1) pairs
  values_of-same [] h = refl
  values_of-same ((k, v) ∷ pairs) h =
      rw (if_pos (dec k key) h.0) (ap (λ l. v ∷ l) (values_of-same pairs h.1))

  values_of-other :
      (other : K) (pairs : List (K × V))
      → other ≢ key
      → All (λ p. p.0 ≡ key) pairs
      → values_of dec other pairs ≡ []
  values_of-other other [] n h = refl
  values_of-other other ((k, v) ∷ pairs) n h =
      rw (if_neg (dec k other) (λ e. n (sym e ∙ h.0))) (values_of-other other pairs n h.1)

  -- If all pairs have the same key, that key is chosen, with all the values.
  pub consensus-same :
      {E : Type 0} (threshold : ℕ) (pairs : List (K × V))
      → All (λ p. p.0 ≡ key) pairs
      → 0 < threshold
      → threshold ≤ length pairs
      → length pairs < 2 * threshold
      → ◌≡◌ {A = Outcome E (Option (K × List V))}
          (consensus dec threshold pairs)
          (ok (some (key, map (λ p. p.1) pairs)))
  consensus-same {E = E} threshold pairs h pos enough few =
      elim (consensus_cases dec {E = E} threshold pairs few) [
        | inl c ↦ elim (dec c.0 key) [
          | yes e ↦
              c.1
              ∙ ap₂ (λ k vs. ok (some (k, vs))) e
                  (ap (λ k. values_of dec k pairs) e ∙ values_of-same pairs h)
          | no n ↦
              let none' = values_of-other c.0 pairs n h in
              absurd (omega (arith, ap length none', c.2))
        ]
        | inr c ↦
            let all = values_of-same pairs h in
            absurd (omega (arith, ap length all, c.1 key, length-map pairs (λ p. p.1)))
      ]
