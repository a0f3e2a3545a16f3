-- ===== src/Withdraw/Timeout.antt =====
-- `scanWithdrawTimeouts`: the chain of UPDATE … FROM, and the log rows. Where several rows of the
-- FROM list match one row, Postgres uses one of them and does not say which: `join` chooses.
use c_zdan.Common.{
  ℕ, Bool, true, ◌&&◌, Option, none, some, List, [], ◌∷◌, map, ltb, ◌==◌, if◌then◌else◌,
}
use c_zdan.Common.Int.{ℤ, ◌+ℤ◌, ◌-ℤ◌}
use c_zdan.Common.Table.{any, count, filter}
use c_zdan.Schema.{
  Account, account_checks, Merchant, WithdrawSession, WithdrawStatus, is_open_withdraw, LogRow,
  LogReason, Reference,
}
use c_zdan.Store.{check_violation, ok, err, Clock, Trx, release}

abbrev pub Join : Type 0
Join = List WithdrawSession → Option WithdrawSession

-- `status IN ('pending','sent_to_merchant') AND expires_at < now()`.
abbrev pub is_timed_out : Clock → WithdrawSession → Bool
is_timed_out clock s = is_open_withdraw s.status && ltb s.expires_at clock.now

abbrev pub time_out : Clock → WithdrawSession → WithdrawSession
time_out clock s =
    if is_timed_out clock s
    then record s {
      status = WithdrawStatus.timeout;
      finalized_at = some clock.now;
      released_at = some clock.now;
    }
    else s

abbrev pub is_of_user : ℕ → WithdrawSession → Bool
is_of_user u s = s.user_id == u

abbrev pub is_of_merchant : ℕ → WithdrawSession → Bool
is_of_merchant m s = s.merchant_id == m

-- What goes back into the pool for a session.
abbrev pub net_of : WithdrawSession → ℤ
net_of s = s.amount -ℤ s.fee

abbrev pub release_one : Option WithdrawSession → Account → Account
release_one none a = a
release_one (some t) a = release t.amount a

abbrev pub restore_one : Clock → Option WithdrawSession → Merchant → Merchant
restore_one clock none m = m
restore_one clock (some t) m = record m {
  cash_pool = m.cash_pool +ℤ net_of t;
  cash_pool_updated_at = some clock.now;
}

abbrev pub released_row : Option WithdrawSession → Option Account → Option Account
released_row t none = none
released_row t (some a) = some (release_one t a)

abbrev pub restored_row : Clock → Option WithdrawSession → Option Merchant → Option Merchant
restored_row clock t none = none
restored_row clock t (some m) = some (restore_one clock t m)

abbrev row_holds : Option Account → Bool
row_holds none = true
row_holds (some a) = account_checks a

module _ (join : Join) (clock : Clock) where
  -- The CTE `timed_out`, with the rows as they were.
  unfoldable pub timed_out : List WithdrawSession → List WithdrawSession
  timed_out rows = filter (is_timed_out clock) rows

  -- The CTE `released_accounts`.
  unfoldable pub released_accounts :
      List WithdrawSession → (ℕ → Option Account) → ℕ → Option Account
  released_accounts gone accounts u = released_row (join (filter (is_of_user u) gone)) (accounts u)

  -- The CTE `released_pool`.
  unfoldable pub released_pool : List WithdrawSession → (ℕ → Option Merchant) → ℕ → Option Merchant
  released_pool gone merchants m =
      restored_row clock (join (filter (is_of_merchant m) gone)) (merchants m)

  abbrev pub log_row : ℕ → Option Merchant → Option WithdrawSession → List LogRow → List LogRow
  log_row m (some r) (some t) rows =
      (record {
        merchant_id = m;
        change_amount = net_of t;
        balance_before = r.cash_pool;
        balance_after = r.cash_pool +ℤ net_of t;
        reason = LogReason.withdraw_timeout_cash_pool;
        reference = Reference.withdraw_session t.id;
      })
      ∷ rows
  log_row m _ _ rows = rows

  -- The rows that `released_pool` returns, one for each merchant that it updates, as log rows on top
  -- of `log`. `todo` runs over the timed-out sessions; a merchant is logged at its last one.
  unfoldable pub logged :
      List WithdrawSession
      → List WithdrawSession
      → (ℕ → Option Merchant)
      → List LogRow
      → List LogRow
  logged gone [] merchants log = log
  logged gone (t ∷ todo) merchants log =
      let rest = logged gone todo merchants log in
      if any (is_of_merchant t.merchant_id) todo
      then rest
      else log_row t.merchant_id (merchants t.merchant_id)
          (join (filter (is_of_merchant t.merchant_id) gone)) rest

  unfoldable pub all_accounts_hold : List WithdrawSession → (ℕ → Option Account) → Bool
  all_accounts_hold [] accounts = true
  all_accounts_hold (t ∷ gone) accounts =
      row_holds (accounts t.user_id) && all_accounts_hold gone accounts

  unfoldable pub scan_withdraw_timeouts : Trx ℕ
  unfolding timed_out released_accounts released_pool logged count
  scan_withdraw_timeouts db =
      let gone = timed_out db.withdraws in
      let accounts = released_accounts gone db.accounts in
      if all_accounts_hold gone accounts
      then ok (
        count (λ _. true) (logged gone gone db.merchants []),
        record db {
          withdraws = map (time_out clock) db.withdraws;
          accounts = accounts;
          merchants = released_pool gone db.merchants;
          pool_log = logged gone gone db.merchants db.pool_log;
        },
      )
      else err check_violation
