-- ===== src/Topup/Finalize.antt =====
-- `finalizeTopupCallback`.
use c_zdan.Common.{ℕ, Bool, true, false, not, Option, none, some, String, ◌==◌}
use c_zdan.Common.Int.{ℤ, pos, ◌+ℤ◌, ◌-ℤ◌}
use c_zdan.Common.Table.{find}
use c_zdan.Schema.{
  Account, Merchant, CallbackStatus, TopupSession, TopupStatus, topup_id, LogReason, Reference,
  LogRow, TxType, TxStatus, Transaction,
}
use c_zdan.Store.{
  Error, Clock, Trx, ◌>>=◌, ◌>>◌, pure, get, throw_if, or_throw, update_account, insert_transaction,
  update_topup, log_settlement,
}
use c_zdan.Fees.{compute_fee_minor}
use c_zdan.CashPool.{PoolChange, write_cash_pool_delta}
use c_zdan.ProviderLedger.{write_provider_ledger}

pub record TopupCallback : Type 0 where
  pub merchant_id : ℕ
  pub internal_ref : ℕ
  pub merchant_ref : String
  pub amount : ℤ
  pub status : CallbackStatus
  pub external_tx_id : Option String

-- The list in the `ALREADY_FINALIZED` test; `expired` is not in it.
abbrev pub is_final_topup : TopupStatus → Bool
is_final_topup TopupStatus.success = true
is_final_topup TopupStatus.failed = true
is_final_topup TopupStatus.cancelled = true
is_final_topup _ = false

unfoldable pub open_topup_session : TopupCallback → Trx TopupSession
open_topup_session input = do
  db ← get
  s ← or_throw (find topup_id input.internal_ref db.topups) Error.session_not_found
  throw_if (not (s.merchant_id == input.merchant_id)) Error.merchant_mismatch
  throw_if (is_final_topup s.status) Error.already_finalized
  pure s

-- `externalTxId` is no column of the table, so drizzle leaves it out.
abbrev pub received : Clock → TopupCallback → TopupSession → TopupSession
received clock input s = record s {
  callback_received_at = some clock.now;
  merchant_ref = some input.merchant_ref;
}

abbrev pub topup_failed : Clock → TopupSession → TopupSession
topup_failed clock s = record s { status = TopupStatus.failed; finalized_at = some clock.now }

-- The amount that the provider reports replaces the session's.
abbrev pub topup_succeeded : Clock → ℤ → TopupSession → TopupSession
topup_succeeded clock amount s = record s {
  status = TopupStatus.success;
  amount = amount;
  finalized_at = some clock.now;
}

abbrev rate : Option Merchant → (Merchant → Option ℤ) → Option ℤ
rate none f = some (pos 0)
rate (some m) f = f m

-- `providerFee`, on the deposit rates of the merchant, nothing where a rate is missing.
abbrev pub provider_fee : ℤ → Option Merchant → ℤ
provider_fee amount m = compute_fee_minor (record {
  amount = some amount;
  commission_pct = rate m (λ r. r.deposit_commission_pct);
  fixed_fee = rate m (λ r. r.deposit_fixed_fee);
})

abbrev pub topup_transaction : Clock → ℕ → TopupCallback → TopupSession → Account → ℤ → Transaction
topup_transaction clock tx_id input s acc fee = record {
  id = tx_id;
  public_no = s.public_no;
  user_id = s.user_id;
  type = TxType.topup;
  status = TxStatus.completed;
  amount = input.amount;
  fee = pos 0;
  balance_after = acc.balance +ℤ input.amount;
  reference_id = some s.id;
  merchant_ref = some input.merchant_ref;
  external_tx_id = input.external_tx_id;
  merchant_id = s.merchant_id;
  merchant_fee = fee;
  is_debit = false;
  created_at = clock.now;
}

abbrev pub top_up : ℤ → Account → Account
top_up amount a = record a { balance = a.balance +ℤ amount }

-- The settlement row that shadows the row of the pool.
abbrev pub shadow_row : ℕ → TopupSession → ℤ → PoolChange → LogRow
shadow_row tx_id s net c = record {
  merchant_id = s.merchant_id;
  change_amount = net;
  balance_before = c.balance_before;
  balance_after = c.balance_after;
  reason = LogReason.topup_cash_pool;
  reference = Reference.transaction tx_id;
}

unfoldable pub book_topup : Clock → ℕ → TopupCallback → TopupSession → Trx (Option ℕ)
book_topup clock tx_id input s = do
  db ← get
  let fee = provider_fee input.amount (db.merchants s.merchant_id)
  let net = input.amount -ℤ fee
  acc ← or_throw (db.accounts s.user_id) Error.account_not_found
  update_account s.user_id (top_up input.amount)
  insert_transaction (topup_transaction clock tx_id input s acc fee)
  change ← write_cash_pool_delta clock (record {
    merchant_id = s.merchant_id;
    delta = net;
    reason = LogReason.topup_cash_pool;
    reference = Reference.transaction tx_id;
  })
  log_settlement (shadow_row tx_id s net change)
  write_provider_ledger (record {
    merchant_id = s.merchant_id;
    tx_type = TxType.topup;
    is_inflow = true;
    amount_gross = input.amount;
    provider_commission = fee;
    amount_net = net;
    transaction_id = tx_id;
    external_ref = input.external_tx_id;
    internal_ref = some input.merchant_ref;
    user_id = s.user_id;
  })
  update_topup s.id (topup_succeeded clock input.amount)
  pure (some tx_id)

abbrev pub settle_topup : Clock → ℕ → TopupCallback → TopupSession → CallbackStatus → Trx (Option ℕ)
settle_topup clock tx_id input s CallbackStatus.failed =
    update_topup s.id (topup_failed clock) >> pure none
settle_topup clock tx_id input s CallbackStatus.success = book_topup clock tx_id input s

unfoldable pub finalize_topup_callback : Clock → ℕ → TopupCallback → Trx (Option ℕ)
finalize_topup_callback clock tx_id input = do
  s ← open_topup_session input
  update_topup s.id (received clock input)
  settle_topup clock tx_id input s input.status
