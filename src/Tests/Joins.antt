-- ===== src/Tests/Joins.antt =====
-- The join of futures, and the choice of a group, with numbers for errors and values.
use juicebox_sdk.Prelude.{
  ℕ, ◌<◌, ◌≤◌, ◌≡◌, ◌⊎◌, true, refl, List, [], ◌∷◌, Permᴰ, Option, some, none, Bytes,
  bytes_discrete, Outcome, ok, err, leb, length, arith,
}
use juicebox_sdk.Join.{join_at_least_threshold}
use juicebox_sdk.Join.Order.{Ord, IsLeast}
use juicebox_sdk.Join.Threshold.{join-ok, join-err}
use juicebox_sdk.Join.Reorder.{join-reorder}
use juicebox_sdk.Consensus.{consensus}
use juicebox_sdk.Consensus.Majority.{values_of}
use juicebox_sdk.Consensus.Choice.{consensus_cases}

le_total : (a b : ℕ) → (leb a b ≡ true) ⊎ (leb b a ≡ true)
le_total a b = ground arith

le_trans : (a b c : ℕ) → leb a b ≡ true → leb b c ≡ true → leb a c ≡ true
le_trans a b c p q = ground arith

instance ℕ-Ord : Ord ℕ
unfolding le_total le_trans
ℕ-Ord = record { le = leb; le_total = le_total; le_trans = le_trans }

abbrev futures : List (Outcome ℕ ℕ)
futures = ok 10 ∷ err 4 ∷ ok 30 ∷ []

abbrev later : List (Outcome ℕ ℕ)
later = err 4 ∷ ok 10 ∷ ok 30 ∷ []

join-ok_example : (join_at_least_threshold futures 2 ≡ ok (10 ∷ 30 ∷ [])) × (2 ≤ 2)
join-ok_example = join-ok futures 2 tt (omega arith) (omega arith) (omega arith)

abbrev failures : List (Outcome ℕ ℕ)
failures = err 7 ∷ ok 10 ∷ err 4 ∷ err 1 ∷ []

join-err_example : (e : ℕ) × (join_at_least_threshold failures 3 ≡ err e) × IsLeast e (7 ∷ 4 ∷ [])
join-err_example = join-err failures 3 tt (omega arith) (omega arith) (omega arith)

joined : join_at_least_threshold futures 2 ≡ ok (10 ∷ 30 ∷ [])
joined = (join-ok futures 2 tt (omega arith) (omega arith) (omega arith)).0

join-reorder_example :
    (join_at_least_threshold later 2 ≡ ok (10 ∷ 30 ∷ []))
    × Permᴰ {A = ℕ} (10 ∷ 30 ∷ []) (10 ∷ 30 ∷ [])
join-reorder_example = join-reorder futures later 2 (10 ∷ 30 ∷ []) tt (Permᴰ.swap refl refl) joined

abbrev pairs : List (Bytes × ℕ)
pairs = ((5 ∷ []), 1) ∷ ((6 ∷ []), 2) ∷ ((5 ∷ []), 3) ∷ []

consensus_cases_example :
    ((key : Bytes) × ◌≡◌ {A = Outcome ⊥ (Option (Bytes × List ℕ))}
        (consensus bytes_discrete 2 pairs)
        (ok (some (key, values_of bytes_discrete key pairs)))
      × (2 ≤ length (values_of bytes_discrete key pairs)))
    ⊎ (◌≡◌ {A = Outcome ⊥ (Option (Bytes × List ℕ))} (consensus bytes_discrete 2 pairs) (ok none)
        × ((key : Bytes) → length (values_of bytes_discrete key pairs) < 2))
consensus_cases_example = consensus_cases bytes_discrete 2 pairs (omega arith)
