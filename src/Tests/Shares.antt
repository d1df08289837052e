-- ===== src/Tests/Shares.antt =====
-- Secret sharing over the field with five elements: the polynomial 3 + 2 x, two shares of four.
use juicebox_sdk.Prelude.{
  ℕ, ◌≡◌, refl, List, [], ◌∷◌, Memᴰ, Outcome, ok, err, panic, ◌⊎◌, ◌<◌, ◌≤◌, Distinct, arith,
}
use juicebox_sdk.Sharing.{Share, duplicate_shares, create_shares, recover_secret, scalars, range}
use juicebox_sdk.Sharing.Recovery.{recover_secret_duplicates}
use juicebox_sdk.Sharing.Roundtrip.{indices, recover_secret-create_shares, create_shares_cases}
use juicebox_sdk.Tests.Five.{Five, f0, f1, f2, f3, f4, five, five_secret}

abbrev share : ℕ → Five → Share five five_secret
share i s = record { index = i; secret = s }

abbrev four_shares : List (Share five five_secret)
four_shares = share 1 f0 ∷ share 2 f2 ∷ share 3 f4 ∷ share 4 f1 ∷ []

abbrev chosen : List (Share five five_secret)
chosen = share 4 f1 ∷ share 2 f2 ∷ []

four_shares_made :
    ◌≡◌ {A = Outcome ⊥ (List (Share five five_secret))}
      (create_shares five five_secret f3 2 4 (λ _. f2))
      (ok four_shares)
unfolding create_shares
four_shares_made = refl

recover_secret-create_shares_example : recover_secret five five_secret chosen ≡ ok f3
recover_secret-create_shares_example =
    recover_secret-create_shares five five_secret f3 2 4 (λ _. f2) four_shares chosen (omega arith)
      four_shares_made
      (Memᴰ.tail (Memᴰ.tail (Memᴰ.tail (Memᴰ.head refl))), (Memᴰ.tail (Memᴰ.head refl), tt))
      ((omega arith, tt), (tt, tt)) (omega arith)

-- The indices 1 and 6 are the same scalar.
recover_secret_duplicates_example :
    ((s : Five) × (recover_secret five five_secret (share 1 f0 ∷ share 6 f2 ∷ []) ≡ ok s)
      × Distinct (scalars five five_secret (share 1 f0 ∷ share 6 f2 ∷ [])))
    ⊎ ((recover_secret five five_secret (share 1 f0 ∷ share 6 f2 ∷ []) ≡ err duplicate_shares)
        × (¬ Distinct (scalars five five_secret (share 1 f0 ∷ share 6 f2 ∷ []))))
recover_secret_duplicates_example =
    recover_secret_duplicates five five_secret (share 1 f0 ∷ share 6 f2 ∷ [])

create_shares_cases_example :
    ((shares : List (Share five five_secret)) × (0 < 5)
      × (5 ≤ 4)
      × ◌≡◌ {A = Outcome ⊥ (List (Share five five_secret))}
          (create_shares five five_secret f3 5 4 (λ _. f2))
          (ok shares)
      × (indices five five_secret shares ≡ range 1 4))
    ⊎ ((¬ ((0 < 5) × (5 ≤ 4)))
        × ◌≡◌ {A = Outcome ⊥ (List (Share five five_secret))}
            (create_shares five five_secret f3 5 4 (λ _. f2))
            panic)
create_shares_cases_example = create_shares_cases five five_secret f3 5 4 (λ _. f2)
