-- ===== src/CashPool/Rules.antt =====
-- What follows `writeCashPoolDelta`.
use c_zdan.Common.{◌≡◌, refl, true, some, ◌∷◌, arith, Option-cases, Bool-cases, inl, inr}
use c_zdan.Common.Int.{pos, ◌+ℤ◌, eqb_ℤ}
use c_zdan.Common.Table.{put}
use c_zdan.Schema.{Merchant, merchant_checks}
use c_zdan.Store.{merchant_not_found, check_violation, Db, Clock, Trx, ◌>>=◌, Ensures}
use c_zdan.Store.Rules.{step_ok, step_err}
use c_zdan.CashPool.{CashPoolDelta, PoolChange, unmoved, write_cash_pool_delta, moved, pool_row}

-- A delta of nothing leaves the state alone; any other moves the pool and appends a row for it.
pub write_cash_pool_delta_rule :
    {B : Type 0} (Q : B → Db → Type 0) (clock : Clock) (input : CashPoolDelta)
    (k : PoolChange → Trx B) (db : Db)
    → (eqb_ℤ input.delta (pos 0) ≡ true
        → (c : PoolChange) → c.balance_before ≡ c.balance_after
        → Ensures Q (k c db))
    → ((m : Merchant)
        → db.merchants input.merchant_id ≡ some m
        → Ensures Q (
            k
              (record { balance_before = m.cash_pool; balance_after = m.cash_pool +ℤ input.delta })
              (record db {
                merchants = put input.merchant_id (moved clock input m m) db.merchants;
                pool_log = pool_row input m ∷ db.pool_log;
              })))
    → Ensures Q ((write_cash_pool_delta clock input >>= k) db)
unfolding write_cash_pool_delta ◌>>=◌
write_cash_pool_delta_rule Q clock input k db zero move =
    elim (Bool-cases (eqb_ℤ input.delta (pos 0))) [
      | inl z ↦
          step_ok Q (write_cash_pool_delta clock input) k db
            (unmoved (db.merchants input.merchant_id)) db (rw (z, write_cash_pool_delta))
            (zero z _ refl)
      | inr nz ↦ elim (Option-cases (db.merchants input.merchant_id)) [
        | inl e ↦
            step_err Q (write_cash_pool_delta clock input) k db merchant_not_found (ground arith)
        | inr (m, e) ↦ elim (Bool-cases (merchant_checks (moved clock input m m))) [
          | inl c ↦
              step_ok Q (write_cash_pool_delta clock input) k db
                (record {
                  balance_before = m.cash_pool;
                  balance_after = m.cash_pool +ℤ input.delta;
                })
                (record db {
                  merchants = put input.merchant_id (moved clock input m m) db.merchants;
                  pool_log = pool_row input m ∷ db.pool_log;
                })
                (ground arith) (move m e)
          | inr c ↦
              step_err Q (write_cash_pool_delta clock input) k db check_violation (ground arith)
        ]
      ]
    ]
