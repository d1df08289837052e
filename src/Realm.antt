-- ===== src/Realm.antt =====
-- rust/sdk/src/types.rs: `Realm`; rust/realm/api/src/types.rs: `RealmId`; rust/sdk/src/pin.rs:
-- `PinHashingMode`.
use Prim.Native.String.{String}
use juicebox_sdk.Prelude.{ℕ, zero, suc, Option, Bytes, Outcome, ok, panic}

-- `[u8; 16]`
abbrev pub RealmId : Type 0
RealmId = Bytes

pub record Realm : Type 0 where
  pub id : RealmId
  pub address : String
  pub public_key : Option Bytes

pub data PinHashingMode : Type 0 where
  standard2019 fast_insecure : PinHashingMode

-- `From<u8>` panics on any other value.
unfoldable pub pin_hashing_mode_from : {E : Type 0} → ℕ → Outcome E PinHashingMode
pin_hashing_mode_from zero = ok standard2019
pin_hashing_mode_from (suc zero) = ok fast_insecure
pin_hashing_mode_from (suc (suc n)) = panic
