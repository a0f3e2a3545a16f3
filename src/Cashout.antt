-- ===== src/Cashout.antt =====
-- apps/api/src/services/merchant-cashout.service.ts: a commerce merchant takes its balance out.
mod Request
mod Callback
pub mod Outcome
unfoldable pub use Request.*
unfoldable pub use Callback.*
