-- ===== src/Store/Tables.antt =====
-- The statements that the services issue, with the constraints that Postgres checks on each row.
use c_zdan.Common.{
  ℕ, ◌+◌, ◌-◌, Bool, false, not, ◌&&◌, ◌||◌, Option, none, some, List, ◌∷◌, String, str_eq, ◌==◌,
  if◌then◌else◌,
}
use c_zdan.Common.Int.{ℤ, pos, leb_ℤ, greatest, ◌-ℤ◌}
use c_zdan.Common.Table.{put, modify, any}
use c_zdan.Schema.{
  Account, account_checks, PaymentCode, code_id, Merchant, merchant_checks, CashoutSession,
  cashout_id, TopupSession, topup_id, is_open_topup, WithdrawSession, withdraw_id, is_open_withdraw,
  Transaction, PublicNo, LogRow, PointsRow,
}
use c_zdan.Store.Monad.{check_violation, unique_violation, ok, err, Trx}

-- UPDATE accounts SET … WHERE user_id = u. Without a row it changes nothing.
unfoldable pub update_account : ℕ → (Account → Account) → Trx (Unit {0})
update_account u f db = elim (db.accounts u) [
  | none ↦ ok (tt, db)
  | some a ↦
      if account_checks (f a)
      then ok (tt, record db { accounts = put u (f a) db.accounts })
      else err check_violation
]

-- UPDATE merchants SET … WHERE id = m.
unfoldable pub update_merchant : ℕ → (Merchant → Merchant) → Trx (Unit {0})
update_merchant m f db = elim (db.merchants m) [
  | none ↦ ok (tt, db)
  | some r ↦
      if merchant_checks (f r)
      then ok (tt, record db { merchants = put m (f r) db.merchants })
      else err check_violation
]

-- `GREATEST(reserved_balance - amount, 0)`.
abbrev pub release : ℤ → Account → Account
release amount a = record a { reserved_balance = greatest (a.reserved_balance -ℤ amount) (pos 0) }

abbrev pub same_public_no : PublicNo → PublicNo → Bool
same_public_no p q = str_eq p.prefix q.prefix && (p.ymd == q.ymd && p.seq == q.seq)

abbrev same_text : Option String → Option String → Bool
same_text (some s) (some t) = str_eq s t
same_text _ _ = false

-- The checks and unique indexes of `transactions`: the key, `public_no`, and `external_tx_id`
-- where it is present.
unfoldable pub transaction_fits : Transaction → List Transaction → Bool
transaction_fits t rows =
    leb_ℤ (pos 0) t.amount
    && (leb_ℤ (pos 0) t.fee
        && not (
            any
              (λ r.
                r.id == t.id
                || (same_public_no r.public_no t.public_no
                    || same_text r.external_tx_id t.external_tx_id))
              rows))

unfoldable pub insert_transaction : Transaction → Trx (Unit {0})
insert_transaction t db =
    if transaction_fits t db.transactions
    then ok (tt, record db { transactions = t ∷ db.transactions })
    else err unique_violation

-- The key, `public_no`, and one open session for each member.
unfoldable pub withdraw_fits : WithdrawSession → List WithdrawSession → Bool
withdraw_fits s rows = not (
    any
      (λ r.
        r.id == s.id
        || (same_public_no r.public_no s.public_no
            || (is_open_withdraw s.status
                && (is_open_withdraw r.status && r.user_id == s.user_id))))
      rows)

unfoldable pub insert_withdraw : WithdrawSession → Trx (Unit {0})
insert_withdraw s db =
    if withdraw_fits s db.withdraws
    then ok (tt, record db { withdraws = s ∷ db.withdraws })
    else err unique_violation

unfoldable pub topup_fits : TopupSession → List TopupSession → Bool
topup_fits s rows = not (
    any
      (λ r.
        r.id == s.id
        || (same_public_no r.public_no s.public_no
            || (is_open_topup s.status && (is_open_topup r.status && r.user_id == s.user_id))))
      rows)

unfoldable pub insert_topup : TopupSession → Trx (Unit {0})
insert_topup s db =
    if topup_fits s db.topups
    then ok (tt, record db { topups = s ∷ db.topups })
    else err unique_violation

-- The key, and `payment_codes_code_global_unique`.
unfoldable pub code_fits : PaymentCode → List PaymentCode → Bool
code_fits c rows = not (any (λ r. r.id == c.id || r.code == c.code) rows)

unfoldable pub insert_code : PaymentCode → Trx (Unit {0})
insert_code c db =
    if code_fits c db.codes
    then ok (tt, record db { codes = c ∷ db.codes })
    else err unique_violation

abbrev pub update_withdraw : ℕ → (WithdrawSession → WithdrawSession) → Trx (Unit {0})
update_withdraw k f db = ok (tt, record db { withdraws = modify withdraw_id k f db.withdraws })

abbrev pub update_topup : ℕ → (TopupSession → TopupSession) → Trx (Unit {0})
update_topup k f db = ok (tt, record db { topups = modify topup_id k f db.topups })

abbrev pub update_code : ℕ → (PaymentCode → PaymentCode) → Trx (Unit {0})
update_code k f db = ok (tt, record db { codes = modify code_id k f db.codes })

abbrev pub update_cashout : ℕ → (CashoutSession → CashoutSession) → Trx (Unit {0})
update_cashout k f db = ok (tt, record db { cashouts = modify cashout_id k f db.cashouts })

abbrev pub log_pool : LogRow → Trx (Unit {0})
log_pool r db = ok (tt, record db { pool_log = r ∷ db.pool_log })

abbrev pub log_settlement : LogRow → Trx (Unit {0})
log_settlement r db = ok (tt, record db { settlement_log = r ∷ db.settlement_log })

abbrev pub log_points : PointsRow → Trx (Unit {0})
log_points r db = ok (tt, record db { points_log = r ∷ db.points_log })

-- `allocPublicNo` of apps/api/src/lib/public-no.ts: INSERT … ON CONFLICT DO UPDATE … RETURNING.
unfoldable pub alloc_public_no : String → ℕ → Trx PublicNo
alloc_public_no prefix ymd db =
    let next : ℕ = elim (db.counters prefix ymd) [ none ↦ 2 | some n ↦ n + 1 ] in
    ok (
      record { prefix = prefix; ymd = ymd; seq = next - 1 },
      record db {
        counters = λ p d. if str_eq prefix p && ymd == d then some next else db.counters p d;
      },
    )
