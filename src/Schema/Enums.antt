-- ===== src/Schema/Enums.antt =====
-- The enumerations of apps/api/src/db/schema/_enums.ts, and the CHECKed text columns.
use c_zdan.Common.{ℕ, Bool, true, false, String}

pub data TxType : Type 0 where
  topup spend refund adjustment bonus merchant_deposit merchant_withdraw merchant_credit : TxType
  referral_bonus affiliate_commission affiliate_payout profit_share : TxType

pub data TxStatus : Type 0 where
  pending completed failed reversed : TxStatus

pub data CodeStatus : Type 0 where
  active consumed expired cancelled : CodeStatus

pub data MerchantType : Type 0 where
  finance commerce : MerchantType

pub data MerchantScope : Type 0 where
  standalone parent child : MerchantScope

pub data TopupStatus : Type 0 where
  pending awaiting_member_action member_confirmed redirected success failed expired cancelled :
      TopupStatus

pub data WithdrawStatus : Type 0 where
  pending sent_to_merchant success failed timeout expired cancelled : WithdrawStatus

pub data CashoutStatus : Type 0 where
  pending sent_to_provider success failed timeout cancelled expired : CashoutStatus

-- `reason` of the two merchant logs. An operator's change of a cash pool has a free text.
pub data LogReason : Type 0 where
  topup_cash_pool merchant_withdraw_cash_pool withdraw_reversal_cash_pool : LogReason
  withdraw_timeout_cash_pool spend merchant_credit merchant_cashout_paid : LogReason
  manual_settlement admin_set_cash_pool : LogReason
  admin_text : String → LogReason

-- `reference_type` and `reference_id` of a log row, where it has them.
pub data Reference : Type 0 where
  manual unreferenced : Reference
  transaction withdraw_session cashout_session : ℕ → Reference

-- `reason` of a points row; `admin:<text>` is an operator's.
pub data PointsReason : Type 0 where
  spend withdraw_penalty tier_upgrade tier_downgrade : PointsReason
  admin : String → PointsReason

-- What a callback reports.
pub data CallbackStatus : Type 0 where
  success failed : CallbackStatus

-- `status IN ('pending','sent_to_merchant')`.
abbrev pub is_open_withdraw : WithdrawStatus → Bool
is_open_withdraw WithdrawStatus.pending = true
is_open_withdraw WithdrawStatus.sent_to_merchant = true
is_open_withdraw _ = false

-- `status IN ('pending','awaiting_member_action','member_confirmed','redirected')`.
abbrev pub is_open_topup : TopupStatus → Bool
is_open_topup TopupStatus.pending = true
is_open_topup TopupStatus.awaiting_member_action = true
is_open_topup TopupStatus.member_confirmed = true
is_open_topup TopupStatus.redirected = true
is_open_topup _ = false

abbrev pub is_active_code : CodeStatus → Bool
is_active_code CodeStatus.active = true
is_active_code _ = false

abbrev pub is_finance : MerchantType → Bool
is_finance finance = true
is_finance commerce = false

abbrev pub is_parent : MerchantScope → Bool
is_parent parent = true
is_parent _ = false

abbrev pub is_completed : TxStatus → Bool
is_completed TxStatus.completed = true
is_completed _ = false
