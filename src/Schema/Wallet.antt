-- ===== src/Schema/Wallet.antt =====
-- apps/api/src/db/schema/wallet.ts: member accounts and payment codes; loyalty.ts: tiers.
use c_zdan.Common.{ℕ, Bool, ◌&&◌, Option, String}
use c_zdan.Common.Int.{ℤ, pos, leb_ℤ}
use c_zdan.Schema.Enums.{CodeStatus}

pub record Account : Type 0 where
  pub balance : ℤ
  pub reserved_balance : ℤ
  pub total_points : ℤ
  pub current_tier_id : Option ℕ
  pub cooldown_until : Option ℕ

-- `accounts_balance_nonneg`, `accounts_reserved_nonneg` and `accounts_reserved_lte_balance_chk`.
abbrev pub account_checks : Account → Bool
account_checks a =
    leb_ℤ (pos 0) a.balance
    && (leb_ℤ (pos 0) a.reserved_balance && leb_ℤ a.reserved_balance a.balance)

pub record PaymentCode : Type 0 where
  pub id : ℕ
  pub user_id : ℕ
  pub code : ℕ
  pub amount : ℤ
  pub status : CodeStatus
  pub customer_name_snapshot : Option String
  pub expires_at : ℕ
  pub consumed_at : Option ℕ
  pub cancelled_at : Option ℕ
  pub consumed_by_merchant : Option ℕ
  pub reserved_spend_points : ℤ
  pub reserved_at_tier_id : ℕ

abbrev pub code_id : PaymentCode → ℕ
code_id c = c.id

pub record LoyaltyTier : Type 0 where
  pub id : ℕ
  pub sort_order : ℤ
  pub min_points : ℤ
  pub min_turnover : ℤ
  pub point_multiplier : ℤ
  pub is_archived : Bool

-- The columns of `profiles` that the flows read.
pub record Profile : Type 0 where
  pub id : ℕ
  pub first_name : String
  pub last_name : String
  pub is_frozen : Bool
