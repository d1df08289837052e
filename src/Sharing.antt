-- ===== src/Sharing.antt =====
-- rust/secret_sharing/src/lib.rs: Shamir's secret sharing, over any field of scalars and any type
-- of secrets.
pub mod Weights
pub mod Interpolate
pub mod Polynomial
pub mod Recovery
pub mod Roundtrip
use mathlib.Core.List.{foldl}
use mathlib.Core.Logic.{ite}
use juicebox_sdk.Prelude.{
  ℕ, zero, suc, ◌-◌, Bool, true, false, List, [], ◌∷◌, ◌++◌, map, Outcome, ok, err, ◌>>=◌, ◌>>◌,
  assert, ltb, leb,
}
use juicebox_sdk.Curve.{ScalarField, Secret}

pub data RecoverSecretError : Type 0 where
  duplicate_shares : RecoverSecretError

-- `(start..).take(n)`
abbrev pub range : ℕ → ℕ → List ℕ
range start zero = []
range start (suc n) = start ∷ range (suc start) n

module _ (F : ScalarField) where
  open F use {Scalar, one, ◌*◌}

  -- `Iterator::product`
  abbrev pub product : List Scalar → Scalar
  product = foldl (λ acc a. acc * a) one

  -- `Index::as_scalar`
  abbrev pub as_scalar : ℕ → Scalar
  as_scalar index = F.from index

  -- The closure's Lagrange coefficient for the share at `x`, where the other shares stand at
  -- `others`.
  abbrev pub numerator : List Scalar → Scalar
  numerator others = product others

  abbrev pub denominator : Scalar → List Scalar → Scalar
  denominator x others = product (map (λ other. F.◌+◌ other (F.neg x)) others)

  module _ (S : Secret F) where
    open S use {Carrier, default, ◌⊕◌, ◌⊙◌}

    pub record Share : Type 0 where
      pub index : ℕ
      pub secret : Carrier

    -- The closure that makes one share.
    unfoldable pub share_secret : List Carrier → Carrier → Scalar → Carrier
    share_secret coefficients secret x =
        foldl (λ acc coefficient. (acc ⊕ coefficient) ⊙ x) default coefficients ⊕ secret

    -- `random` gives what the calls of `S::random` return, in order.
    unfoldable pub create_shares :
        {E : Type 0} → Carrier → ℕ → ℕ → (ℕ → Carrier) → Outcome E (List Share)
    unfolding share_secret
    create_shares secret threshold count random = do
      assert (ltb 0 threshold)
      assert (ltb 0 count)
      assert (leb threshold count)
      let random_coefficients = map random (range 0 (threshold - 1))
      ok (
          map
            (λ index. record {
              index = index;
              secret = share_secret random_coefficients secret (as_scalar index);
            })
            (range 1 count))

    abbrev pub scalars : List Share → List Scalar
    scalars = map (λ share. as_scalar share.index)

    -- The `sum` stops at the first share that gives an error.
    unfoldable pub recover_loop :
        Carrier → List Share → List Share → Outcome RecoverSecretError Carrier
    recover_loop acc before [] = ok acc
    recover_loop acc before (share ∷ after) =
        let others = scalars (before ++ after) in
        let x = as_scalar share.index in
        let lagrange_coefficient = numerator others * F.invert (denominator x others) in
        let rest =
          recover_loop (acc ⊕ share.secret ⊙ lagrange_coefficient) (before ++ (share ∷ [])) after in
        ite (F.dec (denominator x others) F.zero) (err duplicate_shares) rest

    unfoldable pub recover_secret : List Share → Outcome RecoverSecretError Carrier
    unfolding recover_loop
    recover_secret shares = recover_loop default [] shares
