-- ===== src/Sharing/Recovery.antt =====
-- What `recover_secret` returns for shares on one polynomial, and when it finds duplicates.
use mathlib.Core.List.{append_assoc}
use juicebox_sdk.Prelude.{
  ◌≡◌, ◌≢◌, refl, sym, ap, subst, ◌∙◌, List, [], ◌∷◌, ◌++◌, ok, err, ◌⊎◌, inl, inr,
}
use mathlib.Core.Logic.{if_pos, if_neg}
use mathlib.Core.Path.{ap₂}
use juicebox_sdk.Curve.{ScalarField, Secret}
use juicebox_sdk.Curve.Scalars.{mul-zero}
use juicebox_sdk.Curve.Secrets.{default-add}
use juicebox_sdk.Sharing.{
  Share, duplicate_shares, as_scalar, denominator, scalars, recover_loop, recover_secret,
}
use juicebox_sdk.Prelude.{All, append-All, Distinct, Distinct-others}
use juicebox_sdk.Sharing.Weights.{weight, denominator-ne-zero, denominator-cons}
use juicebox_sdk.Sharing.Interpolate.{weighted, interpolated}

module _ (F : ScalarField) (S : Secret F) where
  open F use {Scalar, zero, ◌*◌}
  open S use {Carrier, default, ◌⊕◌, ◌⊙◌}

  -- Every share is the value of `h` at its index.
  abbrev pub AreOn : (Scalar → Carrier) → List (Share F S) → Type 0
  AreOn h = All (λ share. share.secret ≡ h (as_scalar F share.index))

  scalars-append :
      (xs ys : List (Share F S)) → scalars F S (xs ++ ys) ≡ scalars F S xs ++ scalars F S ys
  scalars-append [] ys = refl
  scalars-append (x ∷ xs) ys = ap (λ t. as_scalar F x.index ∷ t) (scalars-append xs ys)

  apart_of_denominator :
      (x : Scalar) (others : List Scalar) → denominator F x others ≢ zero → All (λ y. y ≢ x) others
  apart_of_denominator x [] h = tt
  apart_of_denominator x (a ∷ others) h = (
    λ e. h (
        denominator-cons F x a others
        ∙ ap (λ t. F.◌+◌ t (F.neg x) * denominator F x others) e
        ∙ ap (λ t. t * denominator F x others) (F.add-neg x)
        ∙ F.mul_comm _ _
        ∙ mul-zero F _),
    apart_of_denominator x others
        (λ e. h (denominator-cons F x a others ∙ ap (λ t. F.◌+◌ a (F.neg x) * t) e ∙ mul-zero F _)),
  )

  step_regroup :
      (before : List (Share F S)) (share : Share F S) (after : List (Share F S))
      → scalars F S before ++ scalars F S (share ∷ after)
        ≡ scalars F S (before ++ (share ∷ [])) ++ scalars F S after
  step_regroup before share after =
      sym (append_assoc (scalars F S before) (as_scalar F share.index ∷ []) (scalars F S after))
      ∙ ap (λ t. t ++ scalars F S after) (sym (scalars-append before (share ∷ [])))

  -- The loop's next state when the share has been added.
  abbrev added : Carrier → List (Share F S) → Share F S → List (Share F S) → Carrier
  added acc before share after =
      acc ⊕ share.secret ⊙ weight F (as_scalar F share.index) (scalars F S (before ++ after))

  recover_loop-next :
      (acc : Carrier) (before : List (Share F S)) (share : Share F S) (after : List (Share F S))
      → denominator F (as_scalar F share.index) (scalars F S (before ++ after)) ≢ zero
      → recover_loop F S acc before (share ∷ after)
        ≡ recover_loop F S (added acc before share after) (before ++ (share ∷ [])) after
  unfolding recover_loop
  recover_loop-next acc before share after n = rw (if_neg _ n)

  recover_loop_stops :
      (acc : Carrier) (before : List (Share F S)) (share : Share F S) (after : List (Share F S))
      → denominator F (as_scalar F share.index) (scalars F S (before ++ after)) ≡ zero
      → recover_loop F S acc before (share ∷ after) ≡ err duplicate_shares
  unfolding recover_loop
  recover_loop_stops acc before share after e = rw (if_pos _ e)

  recover_loop-ok :
      (h : Scalar → Carrier) (acc : Carrier) (before after : List (Share F S))
      → AreOn h after
      → Distinct (scalars F S before ++ scalars F S after)
      → recover_loop F S acc before after
        ≡ ok (acc ⊕ weighted F S h (scalars F S before) (scalars F S after))
  recover_loop-ok h acc before [] on d = unfold recover_loop in ap ok (sym (S.add-default acc))
  recover_loop-ok h acc before (share ∷ after) on d =
      recover_loop-next acc before share after (
        denominator-ne-zero F (as_scalar F share.index) (scalars F S (before ++ after)) (
          rw scalars-append
            (Distinct-others (scalars F S before) (as_scalar F share.index) (scalars F S after) d)))
      ∙ recover_loop-ok h (added acc before share after) (before ++ (share ∷ [])) after on.1
          (rw (← step_regroup) d)
      ∙ ap ok (
          S.add_assoc acc _ _
          ∙ ap₂
              (λ l m.
                acc
                ⊕ (share.secret
                    ⊙ weight F (as_scalar F share.index) l
                    ⊕ weighted F S h m (scalars F S after)))
              (scalars-append before after) (scalars-append before (share ∷ []))
          ∙ ap
              (λ s.
                acc
                ⊕ (s
                    ⊙ weight F (as_scalar F share.index) (scalars F S before ++ scalars F S after)
                    ⊕ weighted F S h (scalars F S before ++ (as_scalar F share.index ∷ []))
                        (scalars F S after)))
              on.0)

  -- Shares at distinct points of a function give its interpolation at zero.
  pub recover_secret-interpolated :
      (h : Scalar → Carrier) (shares : List (Share F S))
      → AreOn h shares
      → Distinct (scalars F S shares)
      → recover_secret F S shares ≡ ok (interpolated F S h (scalars F S shares))
  unfolding recover_secret
  recover_secret-interpolated h shares on d =
      recover_loop-ok h default [] shares on d ∙ ap ok (default-add F S _)

  apart_after :
      (before : List (Share F S)) (share : Share F S) (after : List (Share F S))
      → denominator F (as_scalar F share.index) (scalars F S (before ++ after)) ≢ zero
      → All (λ y. y ≢ as_scalar F share.index) (scalars F S after)
  apart_after before share after n =
      (append-All _ (scalars F S before) (scalars F S after) (
        subst (All (λ y. y ≢ as_scalar F share.index)) (scalars-append before after)
          (apart_of_denominator _ _ n))).1

  recover_loop_any :
      (acc : Carrier) (before after : List (Share F S))
      → (Distinct (scalars F S after) → Distinct (scalars F S before ++ scalars F S after))
      → ((s : Carrier) × (recover_loop F S acc before after ≡ ok s)
          × Distinct (scalars F S before ++ scalars F S after))
        ⊎ ((recover_loop F S acc before after ≡ err duplicate_shares)
            × (¬ Distinct (scalars F S before ++ scalars F S after)))
  recover_loop_any acc before [] h = inl (acc, (unfold recover_loop in refl), h tt)
  recover_loop_any acc before (share ∷ after) h =
      elim (F.dec (denominator F (as_scalar F share.index) (scalars F S (before ++ after))) zero) [
        | yes e ↦ inr (
          recover_loop_stops acc before share after e,
          λ d.
              denominator-ne-zero F (as_scalar F share.index) (scalars F S (before ++ after))
                (rw scalars-append (Distinct-others (scalars F S before) _ (scalars F S after) d))
                e,
        )
        | no n ↦
            rw (recover_loop-next acc before share after n, step_regroup)
              (recover_loop_any (added acc before share after) (before ++ (share ∷ [])) after
                (λ d. rw (← step_regroup) (h (apart_after before share after n, d))))
      ]

  -- Either the indices of the shares are distinct as scalars and a secret is returned, or there is a
  -- repetition and the error says so.
  pub recover_secret_duplicates :
      (shares : List (Share F S))
      → ((s : Carrier) × (recover_secret F S shares ≡ ok s) × Distinct (scalars F S shares))
        ⊎ ((recover_secret F S shares ≡ err duplicate_shares) × (¬ Distinct (scalars F S shares)))
  unfolding recover_secret
  recover_secret_duplicates shares = recover_loop_any default [] shares (λ d. d)
