-- ===== src/PaymentCode.antt =====
-- apps/api/src/services/payment-code.service.ts: codes that reserve a member's money for a commerce
-- merchant, from creation to consumption, cancellation or expiry.
mod Create
mod Consume
mod Expire
pub mod Opening
pub mod Closing
pub mod Cancelled
pub mod Consumed
pub mod Expired
pub mod Cleared
pub mod Outcome
pub mod Total
unfoldable pub use Create.*
unfoldable pub use Consume.*
unfoldable pub use Expire.*
