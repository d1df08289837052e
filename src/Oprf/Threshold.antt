-- ===== src/Oprf/Threshold.antt =====
-- The key is shared among realms: each realm evaluates with its own share of the key, and the
-- client recovers the blinded output from the realms' outputs before it finishes.
use mathlib.Core.List.{map-append}
use mathlib.Core.Logic.{ite}
use mathlib.Core.Path.{ap₂}
use juicebox_sdk.Prelude.{
  ℕ, ◌<◌, ◌≤◌, ◌≡◌, ◌≢◌, refl, sym, ap, ◌∙◌, Bytes, List, [], ◌∷◌, ◌++◌, Memᴰ, length, map, Outcome,
  ok, err, panic, Distinct, All,
}
use juicebox_sdk.Curve.{ScalarField, Group}
use juicebox_sdk.Curve.Scalars.{scalar_secret}
use juicebox_sdk.Sharing.{
  Share, RecoverSecretError, duplicate_shares, numerator, denominator, scalars, as_scalar,
  create_shares, recover_loop, recover_secret,
}
use juicebox_sdk.Sharing.Roundtrip.{indices, recover_secret-create_shares}
use juicebox_sdk.Oprf.{
  PrecompressedPoint, precompressed, unoblivious_evaluate, start, finalize, blind_evaluate,
}
use juicebox_sdk.Oprf.Correctness.{finalize-blind_evaluate}

module _ (F : ScalarField) (G : Group F) where
  open F use {Scalar, zero, ◌*◌}
  open G use {Carrier, default, ◌⊕◌, ◌⊙◌}

  abbrev pub KeyShare : Type 0
  KeyShare = Share F (scalar_secret F)

  abbrev pub OutputShare : Type 0
  OutputShare = Share F G.points

  -- The realm's answer to the blinded input, as the share of the output that the client makes of it.
  abbrev pub answer : PrecompressedPoint F G → KeyShare → OutputShare
  answer blinded_input share = record {
    index = share.index;
    secret = (blind_evaluate F G share.secret blinded_input).uncompressed;
  }

  -- `Result::map`.
  abbrev pub map_result : {E A B : Type 0} → (A → B) → Outcome E A → Outcome E B
  map_result f (ok a) = ok (f a)
  map_result f (err e) = err e
  map_result f panic = panic

  map_result-ite :
      {A B P : Type 0} (f : A → B) (d : Dec P) (rest : Outcome RecoverSecretError A)
      → map_result f (ite d (err duplicate_shares) rest)
        ≡ ite d (err duplicate_shares) (map_result f rest)
  map_result-ite f (yes p) rest = refl
  map_result-ite f (no n) rest = refl

  abbrev others : List KeyShare → List KeyShare → List Scalar
  others before after = scalars F (scalar_secret F) (before ++ after)

  module _ (b : PrecompressedPoint F G) where
    answer-secret : (share : KeyShare) → (answer b share).secret ≡ b.uncompressed ⊙ share.secret
    unfolding blind_evaluate
    answer-secret share = refl

    scalars-answers :
        (shares : List KeyShare)
        → scalars F G.points (map (answer b) shares) ≡ scalars F (scalar_secret F) shares
    scalars-answers [] = refl
    scalars-answers (share ∷ shares) =
        ap (λ t. as_scalar F share.index ∷ t) (scalars-answers shares)

    others-answers :
        (before after : List KeyShare)
        → scalars F G.points (map (answer b) before ++ map (answer b) after)
          ≡ scalars F (scalar_secret F) (before ++ after)
    others-answers before after =
        ap (scalars F G.points) (sym (map-append (answer b) before after))
        ∙ scalars-answers (before ++ after)

    abbrev coefficient : KeyShare → List Scalar → Scalar
    coefficient share others =
        numerator F others * F.invert (denominator F (as_scalar F share.index) others)

    term :
        (share : KeyShare) (acc c : Scalar)
        → b.uncompressed ⊙ acc ⊕ (answer b share).secret ⊙ c
          ≡ b.uncompressed ⊙ F.◌+◌ acc (share.secret * c)
    term share acc c =
        ap (λ t. b.uncompressed ⊙ acc ⊕ t)
          (ap (λ t. t ⊙ c) (answer-secret share) ∙ sym (G.mul-mul b.uncompressed share.secret c))
        ∙ sym (G.mul-add b.uncompressed acc _)

    recover_loop-answers :
        (acc : Scalar) (before after : List KeyShare)
        → recover_loop F G.points
            (b.uncompressed ⊙ acc)
            (map (answer b) before)
            (map (answer b) after)
          ≡ map_result
              (λ key. b.uncompressed ⊙ key)
              (recover_loop F (scalar_secret F) acc before after)
    unfolding recover_loop
    recover_loop-answers acc before [] = refl
    recover_loop-answers acc before (share ∷ after) =
        ap
          (λ others.
            ite (F.dec (denominator F (as_scalar F share.index) others) zero) (err duplicate_shares)
              (recover_loop F G.points
                (b.uncompressed ⊙ acc ⊕ (answer b share).secret ⊙ coefficient share others)
                (map (answer b) before ++ (answer b share ∷ [])) (map (answer b) after)))
          (others-answers before after)
        ∙ ap
            (λ rest.
              ite (F.dec (denominator F (as_scalar F share.index) (others before after)) zero)
                (err duplicate_shares) rest)
            (ap₂ (λ sum seen. recover_loop F G.points sum seen (map (answer b) after))
                (term share acc (coefficient share (others before after)))
                (sym (map-append (answer b) before (share ∷ [])))
              ∙ recover_loop-answers
                  (F.◌+◌ acc (share.secret * coefficient share (others before after)))
                  (before ++ (share ∷ [])) after)
        ∙ sym (
            map_result-ite _
              (F.dec (denominator F (as_scalar F share.index) (others before after)) zero) _)

  -- Recovering from the realms' outputs gives the output for the key that their shares give, and an
  -- error where the key's recovery gives one.
  pub recover_secret-answers :
      (b : PrecompressedPoint F G) (shares : List KeyShare)
      → recover_secret F G.points (map (answer b) shares)
        ≡ map_result
            (λ key. (blind_evaluate F G key b).uncompressed)
            (recover_secret F (scalar_secret F) shares)
  unfolding recover_secret blind_evaluate
  recover_secret-answers b shares =
      ap (λ acc. recover_loop F G.points acc [] (map (answer b) shares))
        (sym (G.mul-zero b.uncompressed))
      ∙ recover_loop-answers b zero [] shares

  -- If a private key is shared among `count` realms, a client that started with a random scalar that
  -- is not zero and has the answers of at least `threshold` different realms recovers a point from
  -- them, whose finalized output is that of the unoblivious evaluation with the whole key. The count
  -- lies below the order of the field.
  pub finalize-recover_secret :
      {E : Type 0} (key random : Scalar) (input : Bytes) (threshold count : ℕ)
      (polynomial : ℕ → Scalar) (key_shares chosen : List KeyShare)
      → random ≢ zero
      → count < F.order
      → ◌≡◌ {A = Outcome E (List KeyShare)}
          (create_shares F (scalar_secret F) key threshold count polynomial)
          (ok key_shares)
      → All (λ share. Memᴰ share key_shares) chosen
      → Distinct (indices F (scalar_secret F) chosen)
      → threshold ≤ length chosen
      → let (blinding_factor, blinded_input) = start F G input random in
        (result : Carrier) × (recover_secret F G.points (map (answer blinded_input) chosen)
          ≡ ok result)
        × (finalize F G input blinding_factor (precompressed F G result)
            ≡ unoblivious_evaluate F G key input)
  unfolding blind_evaluate
  finalize-recover_secret key random input threshold count polynomial key_shares chosen h small made
        from d enough =
      let b = (start F G input random).1 in
      (
        (blind_evaluate F G key b).uncompressed,
        recover_secret-answers b chosen
            ∙ ap (map_result (λ k. (blind_evaluate F G k b).uncompressed)) (
                recover_secret-create_shares F (scalar_secret F) key threshold count polynomial
                  key_shares chosen small made from d enough),
        finalize-blind_evaluate F G key random input h,
      )
