-- ===== src/Schema/Sessions.antt =====
-- apps/api/src/db/schema/topup-withdraw.ts: topup sessions, withdraw sessions and routing rules.
use c_zdan.Common.{ℕ, Bool, ◌&&◌, Option, String, ◌==◌}
use c_zdan.Common.Int.{ℤ}
use c_zdan.Schema.Enums.{TopupStatus, WithdrawStatus, is_open_topup, is_open_withdraw}

-- `<PREFIX>-YYYYMMDD-NNNNNN`, by its three parts.
pub record PublicNo : Type 0 where
  pub prefix : String
  pub ymd : ℕ
  pub seq : ℕ

pub data Direction : Type 0 where
  topup withdraw : Direction

pub record RoutingRule : Type 0 where
  pub method_type : String
  pub direction : Direction
  pub merchant_id : ℕ
  pub weight_pct : ℤ
  pub is_active : Bool

pub record TopupSession : Type 0 where
  pub id : ℕ
  pub public_no : PublicNo
  pub user_id : ℕ
  pub merchant_id : ℕ
  pub method_type : String
  pub amount : ℤ
  pub status : TopupStatus
  pub merchant_ref : Option String
  pub redirect_url : Option String
  pub return_url : Option String
  pub iban : Option String
  pub account_holder : Option String
  pub bank_name : Option String
  pub payment_reference : Option String
  pub member_confirmed_at : Option ℕ
  pub callback_received_at : Option ℕ
  pub finalized_at : Option ℕ
  pub expires_at : ℕ

abbrev pub topup_id : TopupSession → ℕ
topup_id s = s.id

pub record WithdrawSession : Type 0 where
  pub id : ℕ
  pub public_no : PublicNo
  pub user_id : ℕ
  pub merchant_id : ℕ
  pub method_type : String
  pub amount : ℤ
  pub fee : ℤ
  pub status : WithdrawStatus
  pub iban : Option String
  pub iban_holder : Option String
  pub crypto_type : Option String
  pub payout_address : Option String
  pub reserved_at : Option ℕ
  pub released_at : Option ℕ
  pub finalized_at : Option ℕ
  pub expires_at : ℕ
  pub transaction_id : Option ℕ
  pub merchant_ref : Option String
  pub external_tx_id : Option String
  pub failure_reason : Option String
  pub callback_received_at : Option ℕ

abbrev pub withdraw_id : WithdrawSession → ℕ
withdraw_id s = s.id

-- An open session of the member.
abbrev pub is_open_for : ℕ → WithdrawSession → Bool
is_open_for u s = s.user_id == u && is_open_withdraw s.status

abbrev pub is_open_topup_for : ℕ → TopupSession → Bool
is_open_topup_for u s = s.user_id == u && is_open_topup s.status
