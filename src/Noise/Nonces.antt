-- ===== src/Noise/Nonces.antt =====
-- The nonces of `CipherState` in rust/noise/src/lib.rs.
use juicebox_sdk.Prelude.{
  ℕ, zero, suc, ◌+◌, ◌*◌, ◌<◌, ◌≤◌, ◌≡◌, ◌≢◌, refl, sym, ap, ◌∙◌, ◌⊎◌, inl, inr, List, [], ◌∷◌,
  ◌++◌, Bytes, Outcome, ok, panic, ◌>>=◌, ltb, u64_mod, length, replicate, All, Distinct,
  Bool-cases, ltb→lt, append_injective, arith,
}
use juicebox_sdk.Noise.{CipherState, cipher_state, next_nonce, to_le_bytes}

-- The number from which `next_nonce` does not give a nonce.
abbrev pub last_nonce : ℕ
last_nonce = 18446744073709551614

-- The nonce of a counter.
abbrev pub nonce_of : ℕ → Bytes
nonce_of n = replicate 4 0 ++ to_le_bytes n

-- A cipher after `k` calls.
abbrev pub advance : ℕ → CipherState → CipherState
advance k state = cipher_state state.key (state.nonce + k)

pub next_nonce-ok :
    {E : Type 0} (state : CipherState)
    → state.nonce < last_nonce
    → next_nonce {E = E} state ≡ ok (advance 1 state, nonce_of state.nonce)
unfolding next_nonce
next_nonce-ok state h = ground arith

pub next_nonce-panic :
    {E : Type 0} (state : CipherState) → last_nonce ≤ state.nonce → next_nonce {E = E} state ≡ panic
unfolding next_nonce
next_nonce-panic state h = ground arith

-- The number that little-endian bytes stand for.
from_le : Bytes → ℕ
from_le [] = 0
from_le (b ∷ bs) = b + 256 * from_le bs

from_le-to_le_bytes : (n : ℕ) → n < u64_mod → from_le (to_le_bytes n) ≡ n
unfolding from_le
from_le-to_le_bytes n h = omega arith

pub nonce_of_injective : (m n : ℕ) → m < u64_mod → n < u64_mod → nonce_of m ≡ nonce_of n → m ≡ n
nonce_of_injective m n p q e =
    sym (from_le-to_le_bytes m p)
    ∙ ap from_le
        (append_injective (replicate 4 0) (replicate 4 0) (to_le_bytes m) (to_le_bytes n) refl e).1
    ∙ from_le-to_le_bytes n q

pub order : (m n : ℕ) → (m < n) ⊎ (n ≤ m)
order m n = elim (Bool-cases (ltb m n)) [ inl h ↦ inl (ltb→lt m n h) | inr h ↦ inr (ground arith) ]

-- The nonces of `k` calls in a row, and the state after them.
unfoldable pub nonces : {E : Type 0} → ℕ → CipherState → Outcome E (CipherState × List Bytes)
nonces zero state = ok (state, [])
nonces (suc k) state = do
  next ← next_nonce state
  rest ← nonces k next.0
  ok (rest.0, next.1 ∷ rest.1)

-- The counters from `n`.
abbrev counters : ℕ → ℕ → List Bytes
counters zero n = []
counters (suc k) n = nonce_of n ∷ counters k (suc n)

advance_twice : (k : ℕ) (state : CipherState) → advance k (advance 1 state) ≡ advance (suc k) state
advance_twice k state = ap (cipher_state state.key) (omega arith)

nonces-ok :
    {E : Type 0} (k : ℕ) (state : CipherState)
    → state.nonce + k ≤ last_nonce
    → nonces {E = E} k state ≡ ok (advance k state, counters k state.nonce)
unfolding nonces
nonces-ok zero state h = ap (λ n. ok (cipher_state state.key n, [])) (omega arith)
nonces-ok {E = E} (suc k) state h =
    let later = nonces-ok {E = E} k (advance 1 state) (omega arith) in
    rw (next_nonce-ok {E = E} state (omega arith)) (
      rw later (
        rw (advance_twice k state) (
          ap (λ n. ok (advance (suc k) state, nonce_of state.nonce ∷ counters k n)) (omega arith))))

nonces-panic :
    {E : Type 0} (k : ℕ) (state : CipherState)
    → state.nonce ≤ last_nonce
    → last_nonce < state.nonce + k
    → nonces {E = E} k state ≡ panic
unfolding nonces
nonces-panic zero state b h = absurd (omega arith)
nonces-panic {E = E} (suc k) state b h = elim (order state.nonce last_nonce) [
  | inl small ↦
      let stops = nonces-panic {E = E} k (advance 1 state) (omega arith) (omega arith) in
      rw (next_nonce-ok {E = E} state small) (rw stops refl)
  | inr large ↦ rw (next_nonce-panic state large) refl
]

length-counters : (k n : ℕ) → length (counters k n) ≡ k
length-counters zero n = refl
length-counters (suc k) n = ap suc (length-counters k (suc n))

counters_above : (k m n : ℕ) → m < n → n + k ≤ u64_mod → All (λ y. y ≢ nonce_of m) (counters k n)
counters_above zero m n h b = tt
counters_above (suc k) m n h b = (
  λ e. let same = nonce_of_injective n m (omega arith) (omega arith) e in absurd (omega arith),
  counters_above k m (suc n) (omega arith) (omega arith),
)

Distinct-counters : (k n : ℕ) → n + k ≤ u64_mod → Distinct (counters k n)
Distinct-counters zero n b = tt
Distinct-counters (suc k) n b = (
  counters_above k n (suc n) (omega arith) (omega arith),
  Distinct-counters k (suc n) (omega arith),
)

-- From a cipher whose counter is not past 2 ^ 64 - 2, `k` calls of `next_nonce` in a row give `k`
-- nonces that all differ, keep the key and raise the counter by `k`, if the counter stays within
-- 2 ^ 64 - 2, and panic otherwise.
pub nonces_cases :
    {E : Type 0} (k : ℕ) (state : CipherState)
    → state.nonce ≤ last_nonce
    → ((state.nonce + k ≤ last_nonce)
        × (drawn : List Bytes) × (nonces {E = E} k state ≡ ok (advance k state, drawn))
        × (length drawn ≡ k)
        × Distinct drawn)
      ⊎ ((last_nonce < state.nonce + k) × (nonces {E = E} k state ≡ panic))
nonces_cases k state b = elim (order (state.nonce + k) (suc last_nonce)) [
  | inl small ↦ inl (
    omega arith,
    counters k state.nonce,
    nonces-ok k state (omega arith),
    length-counters k state.nonce,
    Distinct-counters k state.nonce (omega arith),
  )
  | inr large ↦ inr (omega arith, nonces-panic k state b (omega arith))
]
