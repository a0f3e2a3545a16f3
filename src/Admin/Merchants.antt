-- ===== src/Admin/Merchants.antt =====
-- apps/api/src/services/admin/merchants.service.ts: settlements, cash pools, commissions and credit
-- limits. The merchant is read without a lock: `snapshot` is the state that the read sees. The fee
-- of a collection is stored for information only.
use c_zdan.Common.{ℕ, not, Option, none, some, String, str_eq, if◌then◌else◌}
use c_zdan.Common.Int.{ℤ, pos, ◌+ℤ◌, ◌-ℤ◌, ltb_ℤ, eqb_ℤ}
use c_zdan.Schema.{Merchant, is_finance, LogReason, Reference, LogRow, AdminResult}
use c_zdan.Store.{
  Error, Db, Clock, Trx, ◌>>=◌, ◌>>◌, pure, throw_if, or_throw, update_merchant, log_pool,
  log_settlement,
}
use c_zdan.PaymentCode.{Locale}
use c_zdan.Admin.Idempotency.{AdminIdempotencyOpts, AdminOutcome, with_admin_idempotency}

-- The parts of the inputs that the three operations on money share: an amount, or the new pool.
pub record MerchantChange : Type 0 where
  pub actor_id : ℕ
  pub merchant_id : ℕ
  pub amount : ℤ
  pub reason : String
  pub idempotency_key : Option String

abbrev pub change_opts : String → MerchantChange → AdminIdempotencyOpts
change_opts action input = record {
  actor_id = input.actor_id;
  action = action;
  key = input.idempotency_key;
}

abbrev no_id : AdminResult
no_id = record { transaction_id = none }

abbrev pub manual_row : MerchantChange → Merchant → LogRow
manual_row input m = record {
  merchant_id = input.merchant_id;
  change_amount = input.amount;
  balance_before = m.balance;
  balance_after = m.balance +ℤ input.amount;
  reason = LogReason.manual_settlement;
  reference = Reference.manual;
}

unfoldable pub settle_manually : Db → MerchantChange → Trx AdminResult
settle_manually snapshot input = do
  m ← or_throw (snapshot.merchants input.merchant_id) Error.merchant_not_found
  throw_if (ltb_ℤ (m.balance +ℤ input.amount) (pos 0 -ℤ m.credit_limit))
      Error.would_breach_credit_limit
  update_merchant input.merchant_id (λ r. record r { balance = m.balance +ℤ input.amount })
  log_settlement (manual_row input m)
  pure no_id

unfoldable pub record_manual_settlement : Db → Db → MerchantChange → Trx AdminOutcome
record_manual_settlement looked snapshot input = do
  throw_if (eqb_ℤ input.amount (pos 0)) Error.amount_zero
  with_admin_idempotency looked (change_opts "merchant.manual_settlement" input)
      (settle_manually snapshot input)

abbrev pub set_pool : Clock → ℤ → Merchant → Merchant
set_pool clock p r = record r { cash_pool = p; cash_pool_updated_at = some clock.now }

abbrev pub adjusted_row : MerchantChange → Merchant → LogRow
adjusted_row input m = record {
  merchant_id = input.merchant_id;
  change_amount = input.amount;
  balance_before = m.cash_pool;
  balance_after = m.cash_pool +ℤ input.amount;
  reason = LogReason.admin_text input.reason;
  reference = Reference.unreferenced;
}

unfoldable pub adjust_pool : Clock → Db → MerchantChange → Trx AdminResult
adjust_pool clock snapshot input = do
  m ← or_throw (snapshot.merchants input.merchant_id) Error.merchant_not_found
  throw_if (not (is_finance m.merchant_type)) Error.wrong_merchant_type
  throw_if (ltb_ℤ (m.cash_pool +ℤ input.amount) (pos 0)) Error.cash_pool_negative
  update_merchant input.merchant_id (set_pool clock (m.cash_pool +ℤ input.amount))
  log_pool (adjusted_row input m)
  pure no_id

unfoldable pub adjust_cash_pool : Locale → Clock → Db → Db → MerchantChange → Trx AdminOutcome
adjust_cash_pool locale clock looked snapshot input = do
  throw_if (eqb_ℤ input.amount (pos 0)) Error.amount_zero
  throw_if (str_eq (locale.trim input.reason) "") Error.reason_required
  with_admin_idempotency looked (change_opts "merchant.cash_pool_adjust" input)
      (adjust_pool clock snapshot input)

abbrev pub set_row : MerchantChange → Merchant → LogRow
set_row input m = record {
  merchant_id = input.merchant_id;
  change_amount = input.amount -ℤ m.cash_pool;
  balance_before = m.cash_pool;
  balance_after = input.amount;
  reason = LogReason.admin_set_cash_pool;
  reference = Reference.unreferenced;
}

-- A row is logged where the pool changes.
unfoldable pub overwrite_pool : Clock → Db → MerchantChange → Trx AdminResult
overwrite_pool clock snapshot input = do
  m ← or_throw (snapshot.merchants input.merchant_id) Error.merchant_not_found
  update_merchant input.merchant_id (set_pool clock input.amount)
  if eqb_ℤ (input.amount -ℤ m.cash_pool) (pos 0) then pure tt else log_pool (set_row input m)
  pure no_id

-- `amount` is the pool that is to be.
unfoldable pub set_cash_pool : Clock → Db → Db → MerchantChange → Trx AdminOutcome
set_cash_pool clock looked snapshot input = do
  throw_if (ltb_ℤ input.amount (pos 0)) Error.cash_pool_negative
  with_admin_idempotency looked (change_opts "merchant.cash_pool_set" input)
      (overwrite_pool clock snapshot input)

unfoldable pub set_merchant_commission : ℕ → ℤ → ℤ → Trx (Unit {0})
set_merchant_commission m pct fixed =
    update_merchant m (λ r. record r { commission_pct = pct; fixed_fee = fixed })

unfoldable pub set_credit_limit : Locale → Db → ℕ → ℤ → String → Trx (Unit {0})
set_credit_limit locale snapshot merchant_id limit reason = do
  throw_if (ltb_ℤ limit (pos 0)) Error.limit_negative
  throw_if (str_eq (locale.trim reason) "") Error.reason_required
  m ← or_throw (snapshot.merchants merchant_id) Error.merchant_not_found
  throw_if (ltb_ℤ m.balance (pos 0 -ℤ limit)) Error.balance_below_limit
  update_merchant merchant_id (λ r. record r { credit_limit = limit })
