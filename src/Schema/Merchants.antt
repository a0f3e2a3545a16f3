-- ===== src/Schema/Merchants.antt =====
-- apps/api/src/db/schema/merchants.ts: merchants, cashout methods and cashout sessions.
use c_zdan.Common.{ℕ, Bool, ◌&&◌, Option, String}
use c_zdan.Common.Int.{ℤ, pos, ◌-ℤ◌, leb_ℤ}
use c_zdan.Schema.Sessions.{PublicNo}
use c_zdan.Schema.Enums.{MerchantType, MerchantScope, CashoutStatus}

pub record Merchant : Type 0 where
  pub is_active : Bool
  pub merchant_type : MerchantType
  pub merchant_scope : MerchantScope
  pub parent_merchant_id : Option ℕ
  pub commission_pct : ℤ
  pub fixed_fee : ℤ
  pub deposit_commission_pct : Option ℤ
  pub deposit_fixed_fee : Option ℤ
  pub withdraw_commission_pct : Option ℤ
  pub withdraw_fixed_fee : Option ℤ
  pub per_tx_limit : Option ℤ
  pub balance : ℤ
  pub credit_limit : ℤ
  pub cash_pool : ℤ
  pub cash_pool_updated_at : Option ℕ
  pub overdraft_enabled : Bool
  pub overdraft_limit : ℤ
  pub avg_withdraw_seconds : Option ℕ
  pub last_failure_at : Option ℕ
  pub failure_rate_pct : Option ℤ
  pub cashout_commission_pct : ℤ
  pub cashout_fixed_fee : ℤ
  pub cashout_reserved_amount : ℤ

-- `merchants_balance_within_credit`, `merchants_credit_limit_nonneg_chk` and
-- `merchants_cashout_reserved_nonneg_chk`.
unfoldable pub merchant_checks : Merchant → Bool
merchant_checks m =
    leb_ℤ (pos 0 -ℤ m.credit_limit) m.balance
    && (leb_ℤ (pos 0) m.credit_limit && leb_ℤ (pos 0) m.cashout_reserved_amount)

pub record CashoutMethod : Type 0 where
  pub code : String
  pub is_active : Bool
  pub min_amount : Option ℤ
  pub max_amount : Option ℤ

-- The columns that identify a session, hold its money and record its end.
pub record CashoutSession : Type 0 where
  pub id : ℕ
  pub public_no : PublicNo
  pub merchant_id : ℕ
  pub method_code : String
  pub requested_by : ℕ
  pub amount : ℤ
  pub fee : ℤ
  pub status : CashoutStatus
  pub finalized_at : Option ℕ

abbrev pub cashout_id : CashoutSession → ℕ
cashout_id s = s.id
