-- ===== src/Withdraw/Finalize.antt =====
-- `finalizeWithdrawCallback`.
use c_zdan.Common.{ℕ, Bool, true, false, not, Option, none, some, String, ◌==◌}
use c_zdan.Common.Int.{ℤ, pos, ◌-ℤ◌, greatest}
use c_zdan.Common.Table.{find}
use c_zdan.Schema.{
  Account, CallbackStatus, WithdrawSession, WithdrawStatus, withdraw_id, LogReason, Reference,
  TxType, TxStatus, Transaction,
}
use c_zdan.Store.{
  Error, Clock, Trx, ◌>>=◌, ◌>>◌, pure, get, throw_if, or_throw, release, update_account,
  insert_transaction, update_withdraw,
}
use c_zdan.CashPool.{write_cash_pool_delta}
use c_zdan.ProviderLedger.{write_provider_ledger}
use c_zdan.Loyalty.{apply_withdraw_penalty, maybe_set_withdraw_cooldown}

pub record WithdrawCallback : Type 0 where
  pub merchant_id : ℕ
  pub internal_ref : ℕ
  pub merchant_ref : String
  pub status : CallbackStatus
  pub external_tx_id : Option String
  pub failure_reason : Option String

-- The list in the `ALREADY_FINALIZED` test.
abbrev pub is_final_withdraw : WithdrawStatus → Bool
is_final_withdraw WithdrawStatus.success = true
is_final_withdraw WithdrawStatus.failed = true
is_final_withdraw WithdrawStatus.timeout = true
is_final_withdraw WithdrawStatus.expired = true
is_final_withdraw WithdrawStatus.cancelled = true
is_final_withdraw _ = false

-- The lookup, the ownership test and the status test.
unfoldable pub open_session : WithdrawCallback → Trx WithdrawSession
open_session input = do
  db ← get
  s ← or_throw (find withdraw_id input.internal_ref db.withdraws) Error.session_not_found
  throw_if (not (s.merchant_id == input.merchant_id)) Error.merchant_mismatch
  throw_if (is_final_withdraw s.status) Error.already_finalized
  pure s

abbrev pub mark_failed : Clock → WithdrawCallback → WithdrawSession → WithdrawSession
mark_failed clock input s = record s {
  status = WithdrawStatus.failed;
  finalized_at = some clock.now;
  released_at = some clock.now;
  callback_received_at = some clock.now;
  merchant_ref = some input.merchant_ref;
  external_tx_id = input.external_tx_id;
  failure_reason = input.failure_reason;
}

-- The branch for a failed payout: release the reservation, give the pool back.
unfoldable pub fail_withdraw : Clock → WithdrawCallback → WithdrawSession → Trx (Option ℕ)
fail_withdraw clock input s = do
  update_account s.user_id (release s.amount)
  write_cash_pool_delta clock (record {
    merchant_id = s.merchant_id;
    delta = s.amount -ℤ s.fee;
    reason = LogReason.withdraw_reversal_cash_pool;
    reference = Reference.withdraw_session s.id;
  })
  update_withdraw s.id (mark_failed clock input)
  pure none

abbrev pub mark_success : Clock → ℕ → WithdrawCallback → WithdrawSession → WithdrawSession
mark_success clock tx_id input s = record s {
  status = WithdrawStatus.success;
  finalized_at = some clock.now;
  callback_received_at = some clock.now;
  merchant_ref = some input.merchant_ref;
  external_tx_id = input.external_tx_id;
  transaction_id = some tx_id;
}

abbrev pub withdraw_transaction :
    Clock → ℕ → WithdrawCallback → WithdrawSession → Account → Transaction
withdraw_transaction clock tx_id input s acc = record {
  id = tx_id;
  public_no = s.public_no;
  user_id = s.user_id;
  type = TxType.merchant_withdraw;
  status = TxStatus.completed;
  amount = s.amount;
  fee = pos 0;
  balance_after = acc.balance -ℤ s.amount;
  reference_id = some s.id;
  merchant_ref = some input.merchant_ref;
  external_tx_id = input.external_tx_id;
  merchant_id = s.merchant_id;
  merchant_fee = s.fee;
  is_debit = false;
  created_at = clock.now;
}

-- `balance - amount`, and the reservation released.
abbrev pub pay_out : ℤ → Account → Account
pay_out amount a = record a {
  balance = a.balance -ℤ amount;
  reserved_balance = greatest (a.reserved_balance -ℤ amount) (pos 0);
}

-- The branch for a completed payout: debit the member, record the transaction, the loyalty effects
-- and the provider row. The pool was debited when the request was routed.
unfoldable pub succeed_withdraw : Clock → ℕ → WithdrawCallback → WithdrawSession → Trx (Option ℕ)
succeed_withdraw clock tx_id input s = do
  db ← get
  acc ← or_throw (db.accounts s.user_id) Error.account_not_found
  update_account s.user_id (pay_out s.amount)
  insert_transaction (withdraw_transaction clock tx_id input s acc)
  apply_withdraw_penalty s.user_id s.amount tx_id
  maybe_set_withdraw_cooldown clock s.user_id
  write_provider_ledger (record {
    merchant_id = s.merchant_id;
    tx_type = TxType.merchant_withdraw;
    is_inflow = false;
    amount_gross = s.amount;
    provider_commission = s.fee;
    amount_net = s.amount -ℤ s.fee;
    transaction_id = tx_id;
    external_ref = input.external_tx_id;
    internal_ref = some input.merchant_ref;
    user_id = s.user_id;
  })
  update_withdraw s.id (mark_success clock tx_id input)
  pure (some tx_id)

abbrev pub settle : Clock → ℕ → WithdrawCallback → WithdrawSession → CallbackStatus → Trx (Option ℕ)
settle clock tx_id input s CallbackStatus.failed = fail_withdraw clock input s
settle clock tx_id input s CallbackStatus.success = succeed_withdraw clock tx_id input s

unfoldable pub finalize_withdraw_callback : Clock → ℕ → WithdrawCallback → Trx (Option ℕ)
finalize_withdraw_callback clock tx_id input = do
  s ← open_session input
  settle clock tx_id input s input.status
