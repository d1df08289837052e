-- ===== src/Tests.antt =====
-- Concrete runs, and the theorems at inputs that meet their hypotheses.
pub mod Five
pub mod Bench
pub mod Shares
pub mod Functions
pub mod Joins
pub mod Setups
pub mod Messages
pub mod Noise
pub mod Calls
pub mod Sessions
pub mod Jwt
pub mod Tokens
pub mod Flows
pub mod Registered
pub mod Confirmed
