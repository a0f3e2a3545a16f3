-- ===== src/Schema/Ledger.antt =====
-- apps/api/src/db/schema/transactions.ts, and the append-only logs of merchants.ts and loyalty.ts.
use c_zdan.Common.{ℕ, Bool, Option, String}
use c_zdan.Common.Int.{ℤ}
use c_zdan.Schema.Enums.{TxType, TxStatus, LogReason, Reference, PointsReason}
use c_zdan.Schema.Sessions.{PublicNo}

-- The keys of `metadata` that money checks read: the merchant, its fee (`provider_fee` of a topup,
-- nothing where there is none), and the direction of an adjustment.
pub record Transaction : Type 0 where
  pub id : ℕ
  pub public_no : PublicNo
  pub user_id : ℕ
  pub type : TxType
  pub status : TxStatus
  pub amount : ℤ
  pub fee : ℤ
  pub balance_after : ℤ
  pub reference_id : Option ℕ
  pub merchant_ref : Option String
  pub external_tx_id : Option String
  pub merchant_id : ℕ
  pub merchant_fee : ℤ
  pub is_debit : Bool
  pub created_at : ℕ

-- A row of `merchant_settlement_log` or of `merchant_cash_pool_log`.
pub record LogRow : Type 0 where
  pub merchant_id : ℕ
  pub change_amount : ℤ
  pub balance_before : ℤ
  pub balance_after : ℤ
  pub reason : LogReason
  pub reference : Reference

pub record PointsRow : Type 0 where
  pub user_id : ℕ
  pub points : ℤ
  pub reason : PointsReason
  pub reference_id : Option ℕ

-- A row of `merchant_provider_method_map`, with the provider of its method joined in.
pub record ProviderMethod : Type 0 where
  pub merchant_id : ℕ
  pub tx_type : TxType
  pub provider_method_id : ℕ
  pub provider_id : ℕ
  pub is_active : Bool

pub record ProviderRow : Type 0 where
  pub provider_id : ℕ
  pub provider_method_id : ℕ
  pub is_inflow : Bool
  pub amount_gross : ℤ
  pub provider_commission : ℤ
  pub amount_net : ℤ
  pub transaction_id : ℕ
  pub external_ref : Option String
  pub internal_ref : Option String
  pub user_id : ℕ
