-- ===== src/Cashout/Callback.antt =====
-- `finalizeMerchantCashoutCallback`, by public number.
use c_zdan.Common.{Bool, true, false, Option, none, some, List, [], ◌∷◌, if◌then◌else◌}
use c_zdan.Common.Int.{ℤ, pos, ◌+ℤ◌, ◌-ℤ◌, ltb_ℤ, greatest}
use c_zdan.Schema.{
  Merchant, CashoutSession, CashoutStatus, CallbackStatus, LogReason, Reference, PublicNo,
}
use c_zdan.Store.{
  Error, type_error, Clock, Driver, Trx, ◌>>=◌, ◌>>◌, pure, get, throw_if, or_throw,
  update_merchant, update_cashout, log_settlement, same_public_no,
}

unfoldable pub find_cashout : PublicNo → List CashoutSession → Option CashoutSession
find_cashout key [] = none
find_cashout key (s ∷ rows) =
    if same_public_no s.public_no key then some s else find_cashout key rows

abbrev pub is_settled_cashout : CashoutStatus → Bool
is_settled_cashout CashoutStatus.success = true
is_settled_cashout CashoutStatus.failed = true
is_settled_cashout CashoutStatus.cancelled = true
is_settled_cashout _ = false

-- `(m as Array)[0]` of the row `m`.
abbrev pub zero_of_row : Driver → Merchant → Option (ℤ × ℤ)
zero_of_row driver m = driver.zero_of_merchant m.balance m.cashout_reserved_amount

abbrev release_cashout : ℤ → Merchant → Merchant
release_cashout amount r = record r {
  cashout_reserved_amount = greatest (r.cashout_reserved_amount -ℤ amount) (pos 0);
}

abbrev finalized : Clock → CashoutStatus → CashoutSession → CashoutSession
finalized clock status s = record s { status = status; finalized_at = some clock.now }

unfoldable pub pay_cashout : Clock → CashoutSession → ℤ → Trx (Unit {0})
pay_cashout clock s balance_before = do
  let amount = s.amount +ℤ s.fee
  let balance_after = balance_before -ℤ amount
  throw_if (ltb_ℤ balance_after (pos 0)) Error.insufficient_merchant_balance
  update_merchant s.merchant_id (λ r. record (release_cashout amount r) { balance = balance_after })
  log_settlement (record {
    merchant_id = s.merchant_id;
    change_amount = pos 0 -ℤ amount;
    balance_before = balance_before;
    balance_after = balance_after;
    reason = LogReason.merchant_cashout_paid;
    reference = Reference.cashout_session s.id;
  })
  update_cashout s.id (finalized clock CashoutStatus.success)

abbrev settle_cashout : Clock → CashoutSession → ℤ → CallbackStatus → Trx (Unit {0})
settle_cashout clock s balance CallbackStatus.success = pay_cashout clock s balance
settle_cashout clock s balance CallbackStatus.failed =
    update_merchant s.merchant_id (release_cashout (s.amount +ℤ s.fee))
    >> update_cashout s.id (finalized clock CashoutStatus.failed)

-- The merchant's row is taken out of the result by the pattern `[m]`, and indexed once more.
unfoldable pub finish_cashout : Driver → Clock → CashoutSession → CallbackStatus → Trx CashoutStatus
finish_cashout driver clock s status = do
  db ← get
  m ← or_throw (db.merchants s.merchant_id) type_error
  merch ← or_throw (zero_of_row driver m) Error.merchant_not_found
  settle_cashout clock s merch.0 status
  pure (if_success status)
  where
    if_success : CallbackStatus → CashoutStatus
    if_success CallbackStatus.success = CashoutStatus.success
    if_success CallbackStatus.failed = CashoutStatus.failed

-- A session that has ended is answered with its status.
unfoldable pub finalize_merchant_cashout_callback :
    Driver → Clock → Option PublicNo → CallbackStatus → Trx CashoutStatus
finalize_merchant_cashout_callback driver clock key status = do
  k ← or_throw key Error.session_key_required
  db ← get
  s ← or_throw (find_cashout k db.cashouts) Error.cashout_session_not_found
  if is_settled_cashout s.status then pure s.status else finish_cashout driver clock s status
