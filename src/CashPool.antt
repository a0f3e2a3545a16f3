-- ===== src/CashPool.antt =====
-- apps/api/src/services/cash-pool.ts: the one helper that moves a finance merchant's cash pool.
pub mod Rules
use c_zdan.Common.{ℕ, Bool, Option, none, some, if◌then◌else◌}
use c_zdan.Common.Int.{ℤ, pos, ◌+ℤ◌, eqb_ℤ}
use c_zdan.Schema.{Merchant, LogRow, LogReason, Reference}
use c_zdan.Store.{
  Error, type_error, ok, err, Db, Clock, Trx, ◌>>=◌, ◌>>◌, pure, throw, get, update_merchant,
  log_pool,
}

pub record CashPoolDelta : Type 0 where
  pub merchant_id : ℕ
  pub delta : ℤ
  pub reason : LogReason
  pub reference : Reference

pub record PoolChange : Type 0 where
  pub balance_before : ℤ
  pub balance_after : ℤ

-- `Number(row?.cash_pool ?? 0)`.
abbrev pub pool_or_zero : Option Merchant → ℤ
pool_or_zero none = pos 0
pool_or_zero (some m) = m.cash_pool

abbrev pub unmoved : Option Merchant → PoolChange
unmoved locked = record {
  balance_before = pool_or_zero locked;
  balance_after = pool_or_zero locked;
}

abbrev pub moved : Clock → CashPoolDelta → Merchant → Merchant → Merchant
moved clock input m r = record r {
  cash_pool = m.cash_pool +ℤ input.delta;
  cash_pool_updated_at = some clock.now;
}

abbrev pub pool_row : CashPoolDelta → Merchant → LogRow
pool_row input m = record {
  merchant_id = input.merchant_id;
  change_amount = input.delta;
  balance_before = m.cash_pool;
  balance_after = m.cash_pool +ℤ input.delta;
  reason = input.reason;
  reference = input.reference;
}

abbrev move_pool : Clock → CashPoolDelta → Merchant → Trx PoolChange
move_pool clock input m = do
  update_merchant input.merchant_id (moved clock input m)
  log_pool (pool_row input m)
  pure (record { balance_before = m.cash_pool; balance_after = m.cash_pool +ℤ input.delta })

-- `writeCashPoolDelta`. Amounts are finite here, so the first test of the source does not arise.
-- A delta of nothing writes nothing.
unfoldable pub write_cash_pool_delta : Clock → CashPoolDelta → Trx PoolChange
unfolding update_merchant ◌>>=◌
write_cash_pool_delta clock input db =
    let locked = db.merchants input.merchant_id in
    if eqb_ℤ input.delta (pos 0)
    then ok (unmoved locked, db)
    else elim locked [ none ↦ err Error.merchant_not_found | some m ↦ move_pool clock input m db ]
