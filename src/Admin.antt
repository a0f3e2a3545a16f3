-- ===== src/Admin.antt =====
-- apps/api/src/services/admin: what operators do to members' balances and points and to merchants'
-- balances, pools and limits, and the helper that makes their submissions idempotent. The audit rows
-- are not part of the state.
mod Idempotency
mod Members
mod Merchants
unfoldable pub use Idempotency.*
unfoldable pub use Members.*
unfoldable pub use Merchants.*
pub mod Once
pub mod MemberBooks
pub mod Submitted
pub mod MerchantBooks
pub mod Races
pub mod Terms
