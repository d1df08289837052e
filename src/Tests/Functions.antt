-- ===== src/Tests/Functions.antt =====
-- The oblivious function over the group with five points, with a key that is shared among four
-- realms with the threshold two.
use juicebox_sdk.Prelude.{ℕ, ◌≡◌, ◌≢◌, refl, List, [], ◌∷◌, map, Memᴰ, Bytes, Outcome, ok, arith}
use juicebox_sdk.Curve.Scalars.{scalar_secret}
use juicebox_sdk.Sharing.{Share, create_shares, recover_secret}
use juicebox_sdk.Oprf.{
  precompressed, to_public_key, unoblivious_evaluate, start, finalize, blind_verifiable_evaluate,
  verify_proof,
}
use juicebox_sdk.Oprf.Threshold.{answer, finalize-recover_secret}
use juicebox_sdk.Oprf.Proofs.{verify_proof-blind_verifiable_evaluate}
use juicebox_sdk.Tests.Five.{Five, f0, f1, f2, f3, f4, five}
use juicebox_sdk.Tests.Bench.{five_group}

abbrev KeyShare : Type 0
KeyShare = Share five (scalar_secret five)

abbrev share : ℕ → Five → KeyShare
share i s = record { index = i; secret = s }

abbrev key_shares : List KeyShare
key_shares = share 1 f0 ∷ share 2 f2 ∷ share 3 f4 ∷ share 4 f1 ∷ []

abbrev chosen : List KeyShare
chosen = share 4 f1 ∷ share 2 f2 ∷ []

abbrev input : Bytes
input = 7 ∷ 4 ∷ []

key_shares_made :
    ◌≡◌ {A = Outcome ⊥ (List KeyShare)}
      (create_shares five (scalar_secret five) f3 2 4 (λ _. f2))
      (ok key_shares)
unfolding create_shares
key_shares_made = refl

f2≢f0 : f2 ≢ f0
f2≢f0 e = cc

finalize-recover_secret_example :
    (result : Five) × (recover_secret five five_group.points
        (map (answer five five_group (start five five_group input f2).1) chosen)
      ≡ ok result)
    × (finalize five five_group input f2 (precompressed five five_group result)
        ≡ unoblivious_evaluate five five_group f3 input)
unfolding start
finalize-recover_secret_example =
    finalize-recover_secret five five_group f3 f2 input 2 4 (λ _. f2) key_shares chosen f2≢f0
      (omega arith) key_shares_made
      (Memᴰ.tail (Memᴰ.tail (Memᴰ.tail (Memᴰ.head refl))), (Memᴰ.tail (Memᴰ.head refl), tt))
      ((omega arith, tt), (tt, tt)) (omega arith)

verify_proof-blind_verifiable_evaluate_example :
    let answered =
      blind_verifiable_evaluate five five_group f4 f3
        (to_public_key five five_group f3)
        (precompressed five five_group f2) in
    verify_proof five five_group
      (precompressed five five_group f2)
      answered.0
      (to_public_key five five_group f3)
      answered.1
    ≡ ok tt
verify_proof-blind_verifiable_evaluate_example =
    verify_proof-blind_verifiable_evaluate five five_group f4 f3 (precompressed five five_group f2)
