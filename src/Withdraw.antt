-- ===== src/Withdraw.antt =====
-- apps/api/src/services/withdraw.service.ts: routing, request, callback and timeout of a withdraw.
mod Routing
mod Request
mod Finalize
mod Timeout
pub mod Swept
pub mod Outcome
pub mod Order
pub mod Routed
pub mod Total
pub mod Books
pub mod Closing
pub mod Settled
unfoldable pub use Routing.*
unfoldable pub use Request.*
unfoldable pub use Finalize.*
unfoldable pub use Timeout.*
