-- ===== src/Loyalty.antt =====
-- Loyalty: apps/api/src/services/loyalty-scoring.service.ts (points and cooldown),
-- member.service.ts (the withdraw penalty) and loyalty-tier.service.ts (tiers).
mod Scoring
mod Tier
pub mod Penalty
pub mod Keeps
pub mod Manual
unfoldable pub use Scoring.*
unfoldable pub use Tier.*
