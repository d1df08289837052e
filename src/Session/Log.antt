-- ===== src/Session/Log.antt =====
-- What the functions of rust/sdk/src/request.rs send and how long they sleep.
use mathlib.Core.List.{append_assoc, append-nil}
use juicebox_sdk.Prelude.{
  ℕ, suc, ◌+◌, ◌≤◌, ◌≡◌, refl, sym, ap, ◌∙◌, List, [], ◌∷◌, ◌++◌, Outcome, ok, err, panic, All,
  All-append, length, length-append, arith,
}
use juicebox_sdk.Curve.{ScalarField}
use juicebox_sdk.Crypto.{Crypto}
use juicebox_sdk.Realm.{Realm}
use juicebox_sdk.Noise.{Suite}
use juicebox_sdk.Session.{ClientRequest}
use juicebox_sdk.Session.Calls.{
  History, history, Network, Call, continue, ◌>>=◌, lift, convert, ask, deliver,
}

-- From one moment to another at most `calls` requests were sent, all of them good, and at most so many
-- milliseconds were slept.
abbrev pub Logged : (ClientRequest → Type 0) → ℕ → ℕ → History → History → Type 0
Logged Good calls milliseconds h h' =
    (new : List ClientRequest) × (h'.sent ≡ h.sent ++ new)
    × All Good new
    × (length new ≤ calls)
    × (h'.slept ≤ h.slept + milliseconds)

module _ (Good : ClientRequest → Type 0) where
  pub Logged-none : (h h' : History) → h'.sent ≡ h.sent → h'.slept ≡ h.slept → Logged Good 0 0 h h'
  Logged-none h h' e s = ([], e ∙ sym (append-nil h.sent), tt, omega arith, omega (arith, s))

  pub Logged-trans :
      (m n s t : ℕ) (h h' h″ : History)
      → Logged Good m s h h'
      → Logged Good n t h' h″
      → Logged Good (m + n) (s + t) h h″
  Logged-trans m n s t h h' h″ first second = (
    first.0 ++ second.0,
    second.1 ∙ ap (λ xs. xs ++ second.0) first.1 ∙ append_assoc h.sent first.0 second.0,
    All-append Good first.0 second.0 first.2 second.2,
    omega (arith, length-append first.0 second.0, first.3, second.3),
    omega (arith, first.4, second.4),
  )

  pub Logged-mono :
      (m n s t : ℕ) (h h' : History) → m ≤ n → s ≤ t → Logged Good m s h h' → Logged Good n t h h'
  Logged-mono m n s t h h' p q l = (l.0, l.1, l.2, omega (arith, l.3, p), omega (arith, l.4, q))

  -- A call that sends at most so many requests, all good, and does not sleep.
  unfoldable pub Tracks : {E A : Type 0} → ℕ → Call E A → Type 0
  Tracks n call = (h : History) → Logged Good n 0 h (call h).1

  pub Tracks-mono :
      {E A : Type 0} (m n : ℕ) (call : Call E A) → m ≤ n → Tracks m call → Tracks n call
  unfolding Tracks
  Tracks-mono m n call p t h = Logged-mono m n 0 0 h (call h).1 p (omega arith) (t h)

  pub lift-Tracks : {E A : Type 0} (result : Outcome E A) → Tracks 0 (lift result)
  unfolding Tracks lift
  lift-Tracks result h = Logged-none h h refl refl

  pub convert-Tracks :
      {E G A : Type 0} (f : E → G) (n : ℕ) (call : Call E A)
      → Tracks n call
      → Tracks n (convert f call)
  unfolding Tracks convert
  convert-Tracks f n call t h = t h

  pub >>=-Tracks :
      {E A B : Type 0} (m n : ℕ) (call : Call E A) (next : A → Call E B)
      → Tracks m call
      → ((a : A) → Tracks n (next a))
      → Tracks (m + n) (call >>= next)
  unfolding Tracks ◌>>=◌
  >>=-Tracks {E = E} {A = A} {B = B} m n call next t u h = track (call h) (t h)
    where
      track :
          (done : Outcome E A × History)
          → Logged Good m 0 h done.1
          → Logged Good (m + n) 0 h (continue done next).1
      track (ok a, h') l =
          Logged-mono (m + n) (m + n) 0 0 h (next a h').1 (omega arith) (omega arith)
            (Logged-trans m n 0 0 h h' (next a h').1 l (u a h'))
      track (err e, h') l = Logged-mono m (m + n) 0 0 h h' (omega arith) (omega arith) l
      track (panic, h') l = Logged-mono m (m + n) 0 0 h h' (omega arith) (omega arith) l

  pub lift_next-Tracks :
      {E A B : Type 0} (n : ℕ) (result : Outcome E A) (next : A → Call E B)
      → ((a : A) → result ≡ ok a → Tracks n (next a))
      → Tracks n (lift result >>= next)
  unfolding Tracks lift ◌>>=◌
  lift_next-Tracks n (ok a) next u h = u a refl h
  lift_next-Tracks n (err e) next u h =
      Logged-mono 0 n 0 0 h h (omega arith) (omega arith) (Logged-none h h refl refl)
  lift_next-Tracks n panic next u h =
      Logged-mono 0 n 0 0 h h (omega arith) (omega arith) (Logged-none h h refl refl)

  pub ask_next-Tracks :
      {E A B : Type 0} (n : ℕ) (answer : ℕ → A) (next : A → Call E B)
      → ((a : A) → Tracks n (next a))
      → Tracks n (ask answer >>= next)
  unfolding Tracks ask ◌>>=◌
  ask_next-Tracks n answer next u h =
      let h' = history h.sent h.slept (suc h.moment) in
      let later = u (answer h.moment) h' in
      Logged-mono (0 + n) n 0 0 h (next (answer h.moment) h').1 (omega arith) (omega arith)
        (Logged-trans 0 n 0 0 h h' (next (answer h.moment) h').1 (Logged-none h h' refl refl) later)

module _ (F : ScalarField) (K : Crypto F) (S : Suite) (N : Network F K S)
    (Good : ClientRequest → Type 0) where
  pub deliver-Tracks :
      (realm : Realm) (request : ClientRequest)
      → Good request
      → Tracks Good 1 (deliver F K S N realm request)
  unfolding deliver Tracks
  deliver-Tracks realm request good h = (request ∷ [], refl, (good, tt), omega arith, omega arith)
