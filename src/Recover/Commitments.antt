-- ===== src/Recover/Commitments.antt =====
-- rust/sdk/src/recover.rs: the third phase uses the shares whose commitment the client can derive.
use juicebox_sdk.Prelude.{
  ℕ, ◌≡◌, refl, subst, inl, inr, Bool-cases, List, [], ◌∷◌, Memᴰ, Bytes, Outcome, ok, >>=-eq-ok,
  ok_injective, bytes_eq, bytes_eq_iff, All,
}
use juicebox_sdk.Curve.{ScalarField}
use juicebox_sdk.Curve.Scalars.{scalar_secret}
use juicebox_sdk.Crypto.{Crypto}
use juicebox_sdk.Keys.{encrypted_user_secret_commitment}
use juicebox_sdk.Sharing.{Share}
use juicebox_sdk.Recover.{Environment, usable_shares}
use juicebox_sdk.Recover.Errors.{RecoverError}
use juicebox_sdk.Recover.Realms.{Recover3Result}

All-weaken :
    {A : Type 0} (P Q : A → Type 0) (xs : List A) → ((x : A) → P x → Q x) → All P xs → All Q xs
All-weaken P Q [] f h = tt
All-weaken P Q (x ∷ xs) f h = (f x h.0, All-weaken P Q xs f h.1)

module _ (F : ScalarField) (K : Crypto F) (unlock_key : Bytes) where
  -- The pair is that of an answer whose commitment is the one the client derives for its realm, its
  -- share and its encrypted secret.
  abbrev pub IsCommitted : List (Recover3Result F K) → Bytes × Share F (scalar_secret F) → Type 0
  IsCommitted answers pair =
      (a : Recover3Result F K) × Memᴰ a answers
      × (pair ≡ (a.encrypted_secret, a.share))
      × ◌≡◌ {A = Outcome RecoverError Bytes}
          (encrypted_user_secret_commitment F K unlock_key a.realm.id a.share.secret
            a.encrypted_secret)
          (ok a.commitment)

  -- Every share that the third phase goes on with comes from an answer whose commitment the client
  -- derives from the unlock key.
  pub usable_shares-IsCommitted :
      (env : Environment F K) (attempt : ℕ) (answers : List (Recover3Result F K))
      (pairs : List (Bytes × Share F (scalar_secret F)))
      → usable_shares F K env attempt unlock_key answers ≡ ok pairs
      → All (IsCommitted answers) pairs
  usable_shares-IsCommitted env attempt [] pairs h =
      subst (All (IsCommitted [])) (ok_injective h) tt
  usable_shares-IsCommitted env attempt (a ∷ answers) pairs h =
      let c =
        >>=-eq-ok
          (encrypted_user_secret_commitment F K unlock_key a.realm.id a.share.secret
            a.encrypted_secret)
          _ h in
      let r = >>=-eq-ok (usable_shares F K env attempt unlock_key answers) _ c.2 in
      let kept =
        All-weaken (IsCommitted answers) (IsCommitted (a ∷ answers)) r.0
          (λ pair m. (m.0, Memᴰ.tail m.1, m.2, m.3))
          (usable_shares-IsCommitted env attempt answers r.0 r.1) in
      subst (All (IsCommitted (a ∷ answers))) (ok_injective r.2)
        (elim (Bool-cases (bytes_eq c.0 a.commitment)) [
          | inl e ↦ rw e (
            (
              a,
              Memᴰ.head refl,
              refl,
              subst
                  (λ x.
                    ◌≡◌ {A = Outcome RecoverError Bytes}
                      (encrypted_user_secret_commitment F K unlock_key a.realm.id a.share.secret
                        a.encrypted_secret)
                      (ok x))
                  ((bytes_eq_iff c.0 a.commitment).0 e) c.1,
            ),
            kept,
          )
          | inr e ↦ rw e kept
        ])
