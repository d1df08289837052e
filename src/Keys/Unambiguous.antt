-- ===== src/Keys/Unambiguous.antt =====
-- The messages that are hashed and signed determine their fields.
use mathlib.Core.Path.{ap₂}
use juicebox_sdk.Prelude.{
  ℕ, ◌≡◌, refl, sym, ap, subst, ◌∙◌, List, [], ◌∷◌, ◌++◌, Bytes, Outcome, ok, panic, >>=-eq-ok,
  ok_injective, length, inl, inr, arith, append_injective,
}
use juicebox_sdk.Marshalling.{to_be2, to_be4}
use juicebox_sdk.Marshalling.BigEndian.{from_be, to_be2_cases, to_be4_cases}
use juicebox_sdk.Realm.{RealmId}
use juicebox_sdk.Keys.{fields}
use juicebox_sdk.Signing.{signature_msg}

-- What is known of the bytes before a field.
abbrev IsSize : ℕ → ℕ → Bytes → Type 0
IsSize size n bytes = (length bytes ≡ size) × (from_be bytes ≡ n)

-- Two messages that begin with sized fields and agree have the same field and the same rest.
sized_injective :
    (size : ℕ) (s t x y a b : Bytes)
    → IsSize size (length x) s
    → IsSize size (length y) t
    → s ++ (x ++ a) ≡ t ++ (y ++ b)
    → (x ≡ y) × (a ≡ b)
sized_injective size s t x y a b hs ht e =
    let p = append_injective s t (x ++ a) (y ++ b) (hs.0 ∙ sym ht.0) e in
    append_injective x y a b (sym hs.1 ∙ ap from_be p.0 ∙ ht.1) p.1

nil≢sized : (size x rest : Bytes) → length size ≡ 4 → [] ≡ size ++ (x ++ rest) → ⊥
nil≢sized [] x rest l e = omega (arith, l)
nil≢sized (a ∷ size) x rest l e = cc

module _ {E : Type 0} where
  ok≢panic : {A : Type 0} {a : A} → ◌≡◌ {A = Outcome E A} (ok a) panic → ⊥
  ok≢panic h = cc

  to_be4-IsSize :
      (n : ℕ) {bytes : Bytes} → ◌≡◌ {A = Outcome E Bytes} (to_be4 n) (ok bytes) → IsSize 4 n bytes
  to_be4-IsSize n h = elim (to_be4_cases {E = E} n) [
    | inl b ↦ subst (IsSize 4 n) (ok_injective (sym b.2 ∙ h)) (b.3, b.5)
    | inr p ↦ absurd (ok≢panic (sym h ∙ p.1))
  ]

  to_be2-IsSize :
      (n : ℕ) {bytes : Bytes} → ◌≡◌ {A = Outcome E Bytes} (to_be2 n) (ok bytes) → IsSize 2 n bytes
  to_be2-IsSize n h = elim (to_be2_cases {E = E} n) [
    | inl b ↦ subst (IsSize 2 n) (ok_injective (sym b.2 ∙ h)) (b.3, b.5)
    | inr p ↦ absurd (ok≢panic (sym h ∙ p.1))
  ]

  cons-fields :
      (x : Bytes) (xs : List Bytes) (message : Bytes)
      → ◌≡◌ {A = Outcome E Bytes} (fields (x ∷ xs)) (ok message)
      → (size : Bytes) × (rest : Bytes) × IsSize 4 (length x) size
        × ◌≡◌ {A = Outcome E Bytes} (fields xs) (ok rest)
        × (size ++ (x ++ rest) ≡ message)
  unfolding fields
  cons-fields x xs message h =
      let a = >>=-eq-ok (to_be4 (length x)) _ h in
      let b = >>=-eq-ok (fields xs) _ a.2 in
      (a.0, b.0, to_be4-IsSize (length x) a.1, b.1, ok_injective b.2)

  nil-fields : (message : Bytes) → ◌≡◌ {A = Outcome E Bytes} (fields []) (ok message) → [] ≡ message
  unfolding fields
  nil-fields message h = ok_injective h

  -- Different lists of fields never give the same message to hash.
  pub fields_injective :
      (xs ys : List Bytes) (message : Bytes)
      → ◌≡◌ {A = Outcome E Bytes} (fields xs) (ok message)
      → ◌≡◌ {A = Outcome E Bytes} (fields ys) (ok message)
      → xs ≡ ys
  fields_injective [] [] message h k = refl
  fields_injective [] (y ∷ ys) message h k =
      let c = cons-fields y ys message k in
      absurd (nil≢sized c.0 y c.1 c.2.0 (nil-fields message h ∙ sym c.4))
  fields_injective (x ∷ xs) [] message h k =
      let c = cons-fields x xs message h in
      absurd (nil≢sized c.0 x c.1 c.2.0 (nil-fields message k ∙ sym c.4))
  fields_injective (x ∷ xs) (y ∷ ys) message h k =
      let c = cons-fields x xs message h in
      let d = cons-fields y ys message k in
      let e = sized_injective 4 c.0 d.0 x y c.1 d.1 c.2 d.2 (c.4 ∙ sym d.4) in
      ap₂ (λ z zs. z ∷ zs) e.0
        (fields_injective xs ys c.1 c.3 (subst (λ m. fields {E = E} ys ≡ ok m) (sym e.1) d.3))

  -- A message to sign is the message for one realm and one public key only.
  pub signature_msg_injective :
      (realm_id realm_id' : RealmId) (key key' message : Bytes)
      → ◌≡◌ {A = Outcome E Bytes} (signature_msg realm_id key) (ok message)
      → ◌≡◌ {A = Outcome E Bytes} (signature_msg realm_id' key') (ok message)
      → (realm_id ≡ realm_id') × (key ≡ key')
  unfolding signature_msg
  signature_msg_injective realm_id realm_id' key key' message h k =
      let a = >>=-eq-ok (to_be2 (length realm_id)) _ h in
      let b = >>=-eq-ok (to_be2 (length key)) _ a.2 in
      let c = >>=-eq-ok (to_be2 (length realm_id')) _ k in
      let d = >>=-eq-ok (to_be2 (length key')) _ c.2 in
      let p =
        sized_injective 2 a.0 c.0 realm_id realm_id' (b.0 ++ key) (d.0 ++ key')
          (to_be2-IsSize (length realm_id) a.1) (to_be2-IsSize (length realm_id') c.1)
          (ok_injective (b.2 ∙ sym d.2)) in
      let l = to_be2-IsSize (length key) b.1 in
      let l' = to_be2-IsSize (length key') d.1 in
      (p.0, (append_injective b.0 d.0 key key' (l.0 ∙ sym l'.0) p.1).1)
