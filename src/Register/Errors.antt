-- ===== src/Register/Errors.antt =====
-- rust/sdk/src/register.rs: `RegisterError` and its derived order.
use juicebox_sdk.Prelude.{ℕ, ◌≡◌, ◌⊎◌, true, leb, arith}
use juicebox_sdk.Join.Order.{Ord}
use juicebox_sdk.Api.{
  RequestError, invalid_auth, upgrade_required, rate_limit_exceeded, transient, assertion,
}

pub data RegisterError : Type 0 where
  register_invalid_auth register_upgrade_required register_rate_limit_exceeded register_assertion
        register_transient :
      RegisterError

-- The match on the error of a request.
abbrev pub register_error : RequestError → RegisterError
register_error upgrade_required = register_upgrade_required
register_error invalid_auth = register_invalid_auth
register_error assertion = register_assertion
register_error transient = register_transient
register_error rate_limit_exceeded = register_rate_limit_exceeded

-- The position of the variant, by which the derived `Ord` compares.
abbrev pub variant : RegisterError → ℕ
variant register_invalid_auth = 0
variant register_upgrade_required = 1
variant register_rate_limit_exceeded = 2
variant register_assertion = 3
variant register_transient = 4

leb_total : (a b : ℕ) → (leb a b ≡ true) ⊎ (leb b a ≡ true)
leb_total a b = ground arith

leb_trans : (a b c : ℕ) → leb a b ≡ true → leb b c ≡ true → leb a c ≡ true
leb_trans a b c p q = ground arith

instance pub RegisterError-Ord : Ord RegisterError
RegisterError-Ord = record {
  le = λ a b. leb (variant a) (variant b);
  le_total = λ a b. leb_total (variant a) (variant b);
  le_trans = λ a b c. leb_trans (variant a) (variant b) (variant c);
}
