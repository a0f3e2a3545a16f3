-- ===== src/Topup.antt =====
-- apps/api/src/services/topup.service.ts: topup sessions, from creation to the provider's callback.
mod Session
mod Finalize
unfoldable pub use Session.*
unfoldable pub use Finalize.*
pub mod Quiet
pub mod Books
