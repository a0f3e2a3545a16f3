-- ===== src/ProfitShare.antt =====
-- apps/api/src/services/admin/profit-share.service.ts and the claim of member.service.ts: campaigns
-- that share a profit among the members with the largest turnover.
mod Allocate
mod Campaigns
mod Claims
unfoldable pub use Allocate.*
unfoldable pub use Campaigns.*
unfoldable pub use Claims.*
pub mod Exact
pub mod Previewed
pub mod Books
pub mod Claimed
pub mod Overhead
