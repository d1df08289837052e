-- ===== src/Recover/Honest/Pins.antt =====
-- The second phase of rust/sdk/src/recover.rs with the right PIN and with a wrong one, and the least
-- number of guesses that the realms leave.
use juicebox_sdk.Prelude.{
  All_of_mem, All-own, ℕ, ◌<◌, ◌≤◌, ◌≡◌, ◌≢◌, refl, sym, subst, ◌∙◌, List, [], ◌∷◌, map, Memᴰ,
  Permᴰ, Bytes, false, ok, err, length, All, All-Permᴰ, inl, inr, bytes_eq, bytes_eq_iff,
  Bool-cases, if◌then◌else◌, ltb, ltb→lt, arith, length-map,
}
use mathlib.Core.List.{foldl}
use mathlib.Core.List.Permᴰ
use juicebox_sdk.Curve.{ScalarField}
use juicebox_sdk.Crypto.{Crypto}
use juicebox_sdk.Realm.{Realm}
use juicebox_sdk.Api.{Register2Request}
use juicebox_sdk.Configuration.{Configuration}
use juicebox_sdk.Configuration.Accepted.{IsAccepted}
use juicebox_sdk.Oprf.{unoblivious_evaluate}
use juicebox_sdk.Keys.{derive_unlock_key_and_commitment}
use juicebox_sdk.Join.Reorder.{length-Permᴰ}
use juicebox_sdk.Register.{Registration}
use juicebox_sdk.Register.Stored.{AreStored}
use juicebox_sdk.Recover.{Environment, phase2, unlocked}
use juicebox_sdk.Recover.Unanimous.{Permᴰ-map}
use juicebox_sdk.Recover.Honest.{remaining, IsHonest, enough}
use juicebox_sdk.Recover.Honest.Unlock.{phase2-unlocked}
use juicebox_sdk.Recover.Errors.{invalid_pin}

-- The least of some numbers.
pub record IsLeast (numbers : List ℕ) (m : ℕ) : Type 0 where
  pub occurs : Memᴰ m numbers
  pub bounds : All (λ n. m ≤ n) numbers

foldl-IsLeast :
    (best : ℕ) (gs : List ℕ)
    → IsLeast (best ∷ gs) (foldl (λ best next. if ltb next best then next else best) best gs)
foldl-IsLeast best [] = record { occurs = Memᴰ.head refl; bounds = (omega arith, tt) }
foldl-IsLeast best (g ∷ gs) = elim (Bool-cases (ltb g best)) [
  | inl t ↦
      let rest = foldl-IsLeast g gs in
      let less = ltb→lt g best t in
      subst
        (λ b.
          IsLeast (best ∷ g ∷ gs)
            (foldl (λ best next. if ltb next best then next else best) (if b then g else best) gs))
        (sym t)
        (record {
          occurs = Memᴰ.tail rest.occurs;
          bounds = (omega (arith, less, rest.bounds.0), rest.bounds);
        })
  | inr t ↦
      let rest = foldl-IsLeast best gs in
      subst
        (λ b.
          IsLeast (best ∷ g ∷ gs)
            (foldl (λ best next. if ltb next best then next else best) (if b then g else best) gs))
        (sym t)
        (record {
          occurs = later rest.occurs;
          bounds = (rest.bounds.0, (at_most g best rest.bounds.0 t, rest.bounds.1));
        })
]
  where
    later : {x y z : ℕ} {l : List ℕ} → Memᴰ x (y ∷ l) → Memᴰ x (y ∷ z ∷ l)
    later (Memᴰ.head e) = Memᴰ.head e
    later (Memᴰ.tail m) = Memᴰ.tail (Memᴰ.tail m)

    at_most : (g best : ℕ) {m : ℕ} → m ≤ best → ltb g best ≡ false → m ≤ g
    at_most g best h t = ground arith

IsLeast-Permᴰ : {xs ys : List ℕ} {m : ℕ} → Permᴰ xs ys → IsLeast xs m → IsLeast ys m
IsLeast-Permᴰ {xs = xs} {ys = ys} {m = m} d l = record {
  occurs =
      All_of_mem (λ x. Memᴰ x ys) xs (All-Permᴰ (λ x. Memᴰ x ys) (Permᴰ.symm d) (All-own ys))
        l.occurs;
  bounds = All-Permᴰ (λ n. m ≤ n) d l.bounds;
}

-- The commitment differs: the error has the least number.
unlocked-differs :
    (F : ScalarField) (K : Crypto F) (commitment : Bytes) (derived : Bytes × Bytes)
    (numbers : List ℕ)
    → derived.1 ≢ commitment
    → 0 < length numbers
    → (m : ℕ) × (unlocked F K commitment derived numbers ≡ err (invalid_pin m)) × IsLeast numbers m
unlocked-differs F K commitment derived [] n h = absurd (omega (arith, h))
unlocked-differs F K commitment derived (g ∷ gs) n h =
    let differs : bytes_eq commitment derived.1 ≡ false =
      elim (Bool-cases (bytes_eq commitment derived.1)) [
        | inl t ↦ absurd (n (sym ((bytes_eq_iff commitment derived.1).0 t)))
        | inr t ↦ t
      ] in
    (_, (rw differs refl), foldl-IsLeast g gs)

module _ (F : ScalarField) (K : Crypto F) where
  module _ (env : Environment F K) (attempt : ℕ) (c : Configuration) (reg : Registration F K)
      (verifying_key : Bytes) (key scalar : F.Scalar)
      (key_polynomial scalar_polynomial : ℕ → F.Scalar)
      (requests : List (Realm × Register2Request F K)) (nonce : Realm → F.Scalar)
      (num_guesses guess_count : Realm → ℕ) (accepted : IsAccepted c)
      (stored : AreStored F K c reg verifying_key key scalar key_polynomial scalar_polynomial
        requests)
      (honest : All (IsHonest F K env attempt nonce num_guesses guess_count) requests) where
    pub phase2-honest :
        (access_key : Bytes) (asked : List (Realm × Register2Request F K))
        → env.random attempt ≢ F.zero
        → length c.realms < F.order
        → Permᴰ asked requests
        → derive_unlock_key_and_commitment F K (unoblivious_evaluate F K.group key access_key)
          ≡ (reg.unlock_key, reg.unlock_key_commitment)
        → phase2 F K env attempt c reg.version (map (λ r. r.0) asked) access_key ≡ ok reg.unlock_key
    phase2-honest access_key asked nz small d derived =
        let a =
          phase2-unlocked F K env attempt c reg verifying_key key scalar key_polynomial
            scalar_polynomial requests nonce num_guesses guess_count accepted stored honest
            access_key asked nz small d in
        let same = (bytes_eq_iff reg.unlock_key_commitment reg.unlock_key_commitment).1 refl in
        a.1 ∙ rw derived (rw same refl)

    -- With another commitment the second phase ends in the least number of guesses that the realms
    -- leave.
    pub phase2-differs :
        (access_key : Bytes) (asked : List (Realm × Register2Request F K))
        → env.random attempt ≢ F.zero
        → length c.realms < F.order
        → Permᴰ asked requests
        → (derive_unlock_key_and_commitment F K (unoblivious_evaluate F K.group key access_key)).1
          ≢ reg.unlock_key_commitment
        → (m : ℕ) × (phase2 F K env attempt c reg.version (map (λ r. r.0) asked) access_key
            ≡ err (invalid_pin m))
          × IsLeast (map (λ r. remaining (num_guesses r.0) (guess_count r.0)) requests) m
    phase2-differs access_key asked nz small d differs =
        let a =
          phase2-unlocked F K env attempt c reg verifying_key key scalar key_polynomial
            scalar_polynomial requests nonce num_guesses guess_count accepted stored honest
            access_key asked nz small d in
        let of : Realm × Register2Request F K → ℕ =
          λ r. remaining (num_guesses r.0) (guess_count r.0) in
        let some_left : 0 < length (map of a.0) = omega (
          arith,
          length-map a.0 of,
          length-Permᴰ a.2,
          accepted.positive,
          enough F K c reg verifying_key key scalar key_polynomial scalar_polynomial requests
              accepted stored,
        ) in
        let u =
          unlocked-differs F K reg.unlock_key_commitment
            (derive_unlock_key_and_commitment F K (unoblivious_evaluate F K.group key access_key))
            (map of a.0) differs some_left in
        (u.0, a.1 ∙ u.1, IsLeast-Permᴰ (Permᴰ-map of a.2) u.2)
