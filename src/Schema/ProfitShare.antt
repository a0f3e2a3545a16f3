-- ===== src/Schema/ProfitShare.antt =====
-- apps/api/src/db/schema/profit-share.ts: campaigns and the allocations of their pools.
use c_zdan.Common.{ℕ, Option}
use c_zdan.Common.Int.{ℤ}

pub data CampaignStatus : Type 0 where
  draft published closed cancelled : CampaignStatus

pub data AllocationStatus : Type 0 where
  pending claimed expired : AllocationStatus

-- The columns that hold money, or the state; the period and the authors are left out.
pub record Campaign : Type 0 where
  pub id : ℕ
  pub status : CampaignStatus
  pub distribution_pct : ℕ
  pub platform_revenue : ℤ
  pub platform_cost : ℤ
  pub affiliate_cost : ℤ
  pub carried_overhead : ℤ
  pub net_profit : ℕ
  pub pool_amount : ℕ
  pub eligible_count : ℕ
  pub claim_expires_hours : ℕ
  pub published_at : Option ℕ
  pub closed_at : Option ℕ
  pub cancelled_at : Option ℕ

pub record Allocation : Type 0 where
  pub id : ℕ
  pub campaign_id : ℕ
  pub user_id : ℕ
  pub rank_no : ℕ
  pub turnover_amount : ℕ
  pub allocated_amount : ℕ
  pub status : AllocationStatus
  pub claim_tx_id : Option ℕ
  pub expires_at : ℕ
  pub expired_at : Option ℕ
  pub claimed_at : Option ℕ

abbrev pub campaign_id : Campaign → ℕ
campaign_id c = c.id

abbrev pub allocation_id : Allocation → ℕ
allocation_id a = a.id
