-- ===== src/Ledger.antt =====
-- What the columns of the database stand for, as sums over its rows: the member's ledger of
-- apps/api/src/services/ledger-integrity.service.ts (`MEMBER_TX_DELTA`), the money that open withdraw
-- sessions and active payment codes hold, and the sums of the merchant logs.
pub mod Laws
pub mod Keeps
use c_zdan.Common.{ℕ, ◌≡◌, ◌≤◌, Bool, ◌&&◌, Option, none, some, List, [], ◌∷◌, ◌==◌, if◌then◌else◌}
use c_zdan.Common.Int.{ℤ, pos, ◌+ℤ◌, ◌-ℤ◌, ◌≤ℤ◌}
use c_zdan.Common.Table.{total, count, any}
use c_zdan.Schema.{
  Account, Merchant, PaymentCode, is_active_code, WithdrawSession, is_open_for, TopupSession,
  is_open_topup_for, TxType, is_completed, Transaction, LogRow, LogReason,
}
use c_zdan.Store.{Db}

-- `MEMBER_TX_DELTA`: what a transaction adds to its member's balance.
abbrev pub member_delta : Transaction → ℤ
member_delta t = signed t.type
  where
    signed : TxType → ℤ
    signed TxType.spend = pos 0 -ℤ t.amount
    signed TxType.merchant_withdraw = pos 0 -ℤ t.amount
    signed TxType.adjustment = if t.is_debit then pos 0 -ℤ t.amount else t.amount
    signed _ = t.amount

-- The join condition of `member_balance_vs_tx_sum`.
abbrev pub delta_for : ℕ → Transaction → ℤ
delta_for u t = if t.user_id == u && is_completed t.status then member_delta t else pos 0

abbrev pub open_for : ℕ → WithdrawSession → ℤ
open_for u s = if is_open_for u s then s.amount else pos 0

abbrev pub active_for : ℕ → PaymentCode → ℤ
active_for u c = if c.user_id == u && is_active_code c.status then c.amount else pos 0

abbrev pub change_for : ℕ → LogRow → ℤ
change_for m r = if r.merchant_id == m then r.change_amount else pos 0

-- A topup leaves a row in the settlement log that shadows the pool's; it is no settlement.
abbrev pub is_settlement : LogReason → Bool
is_settlement LogReason.topup_cash_pool = Bool.false
is_settlement _ = Bool.true

abbrev pub settlement_for : ℕ → LogRow → ℤ
settlement_for m r = if r.merchant_id == m && is_settlement r.reason then r.change_amount else pos 0

abbrev pub balance_or_zero : Option Account → ℤ
balance_or_zero none = pos 0
balance_or_zero (some a) = a.balance

abbrev pub reserved_or_zero : Option Account → ℤ
reserved_or_zero none = pos 0
reserved_or_zero (some a) = a.reserved_balance

abbrev pub pool_or_zero : Option Merchant → ℤ
pool_or_zero none = pos 0
pool_or_zero (some m) = m.cash_pool

abbrev pub settled_or_zero : Option Merchant → ℤ
settled_or_zero none = pos 0
settled_or_zero (some m) = m.balance

abbrev pub balance_of : Db → ℕ → ℤ
balance_of db u = balance_or_zero (db.accounts u)

abbrev pub reserved_of : Db → ℕ → ℤ
reserved_of db u = reserved_or_zero (db.accounts u)

abbrev pub pool_of : Db → ℕ → ℤ
pool_of db m = pool_or_zero (db.merchants m)

abbrev pub settled_of : Db → ℕ → ℤ
settled_of db m = settled_or_zero (db.merchants m)

-- What is reserved for a member: open withdraws and active codes.
abbrev pub held : Db → ℕ → ℤ
held db u = total (open_for u) db.withdraws +ℤ total (active_for u) db.codes

-- `member_balance_vs_tx_sum` finds nothing.
abbrev pub BalanceIsLedger : Db → Type 0
BalanceIsLedger db = (u : ℕ) → balance_of db u ≡ total (delta_for u) db.transactions

-- Every reserved kuruş belongs to one open withdraw or one active code.
abbrev pub ReservedIsHeld : Db → Type 0
ReservedIsHeld db = (u : ℕ) → reserved_of db u ≡ held db u

-- `sum(merchant_cash_pool_log.change_amount) == merchant.cash_pool`.
abbrev pub PoolIsLogged : Db → Type 0
PoolIsLogged db = (m : ℕ) → pool_of db m ≡ total (change_for m) db.pool_log

-- A merchant's balance is the sum of its settlements.
abbrev pub BalanceIsSettled : Db → Type 0
BalanceIsSettled db = (m : ℕ) → settled_of db m ≡ total (settlement_for m) db.settlement_log

-- `cash_pool_log_chain` and `settlement_log_chain`: before plus change is after.
abbrev pub IsChained : List LogRow → Type 0
IsChained [] = Unit {0}
IsChained (r ∷ rows) = (r.balance_before +ℤ r.change_amount ≡ r.balance_after) × IsChained rows

-- No session and no code is for a negative amount.
abbrev pub AmountsNonneg : List WithdrawSession → Type 0
AmountsNonneg [] = Unit {0}
AmountsNonneg (s ∷ rows) = (pos 0 ≤ℤ s.amount) × AmountsNonneg rows

abbrev pub CodesNonneg : List PaymentCode → Type 0
CodesNonneg [] = Unit {0}
CodesNonneg (c ∷ rows) = (pos 0 ≤ℤ c.amount) × CodesNonneg rows

-- The key of `payment_codes`: no later row has the row's id.
abbrev pub has_code_id : ℕ → PaymentCode → Bool
has_code_id k c = c.id == k

abbrev pub CodesKeyed : List PaymentCode → Type 0
CodesKeyed [] = Unit {0}
CodesKeyed (c ∷ rows) = (any (has_code_id c.id) rows ≡ Bool.false) × CodesKeyed rows

-- `withdraw_sessions_one_open_per_user_unique` and its like for topups.
abbrev pub OneOpenWithdraw : Db → Type 0
OneOpenWithdraw db = (u : ℕ) → count (is_open_for u) db.withdraws ≤ 1

abbrev pub OneOpenTopup : Db → Type 0
OneOpenTopup db = (u : ℕ) → count (is_open_topup_for u) db.topups ≤ 1

-- The books of the whole database agree.
pub record IsConsistent (db : Db) : Type 0 where
  pub ledger : BalanceIsLedger db
  pub held_back : ReservedIsHeld db
  pub pooled : PoolIsLogged db
  pub settled : BalanceIsSettled db
  pub pool_chain : IsChained db.pool_log
  pub settlement_chain : IsChained db.settlement_log
  pub withdraws_nonneg : AmountsNonneg db.withdraws
  pub codes_nonneg : CodesNonneg db.codes
  pub codes_keyed : CodesKeyed db.codes
  pub one_withdraw : OneOpenWithdraw db
  pub one_topup : OneOpenTopup db
