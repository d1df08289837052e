-- ===== src/Recover/Errors.antt =====
-- rust/sdk/src/recover.rs: `RecoverError` and its derived order.
use juicebox_sdk.Prelude.{ℕ, ◌≡◌, ◌⊎◌, Bool, true, ◌&&◌, ◌||◌, ltb, leb, ◌==◌, arith}
use juicebox_sdk.Join.Order.{Ord}
use juicebox_sdk.Api.{
  RequestError, invalid_auth, upgrade_required, rate_limit_exceeded, transient, assertion,
}

pub data RecoverError : Type 0 where
  invalid_pin : ℕ → RecoverError
  not_registered recover_invalid_auth recover_upgrade_required recover_rate_limit_exceeded
        recover_assertion recover_transient :
      RecoverError

-- The match on the error of a request.
abbrev pub recover_error : RequestError → RecoverError
recover_error upgrade_required = recover_upgrade_required
recover_error invalid_auth = recover_invalid_auth
recover_error assertion = recover_assertion
recover_error transient = recover_transient
recover_error rate_limit_exceeded = recover_rate_limit_exceeded

-- The position of the variant, and its field.
abbrev pub variant : RecoverError → ℕ
variant (invalid_pin _) = 0
variant not_registered = 1
variant recover_invalid_auth = 2
variant recover_upgrade_required = 3
variant recover_rate_limit_exceeded = 4
variant recover_assertion = 5
variant recover_transient = 6

abbrev pub guesses : RecoverError → ℕ
guesses (invalid_pin guesses_remaining) = guesses_remaining
guesses _ = 0

-- The derived `Ord` compares the variants first.
abbrev pub recover_error_le : RecoverError → RecoverError → Bool
recover_error_le a b =
    ltb (variant a) (variant b) || (variant a == variant b) && leb (guesses a) (guesses b)

abbrev pub lex : ℕ → ℕ → ℕ → ℕ → Bool
lex a b x y = ltb a b || (a == b) && leb x y

pub lex_total : (a b x y : ℕ) → (lex a b x y ≡ true) ⊎ (lex b a y x ≡ true)
lex_total a b x y = ground arith

pub lex_trans : (a b c x y z : ℕ) → lex a b x y ≡ true → lex b c y z ≡ true → lex a c x z ≡ true
lex_trans a b c x y z p q = ground arith

instance unfoldable pub RecoverError-Ord : Ord RecoverError
RecoverError-Ord = record {
  le = recover_error_le;
  le_total = λ a b. lex_total (variant a) (variant b) (guesses a) (guesses b);
  le_trans =
      λ a b c. lex_trans (variant a) (variant b) (variant c) (guesses a) (guesses b) (guesses c);
}
