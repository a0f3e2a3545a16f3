-- ===== src/MerchantCredit.antt =====
-- apps/api/src/services/merchant-credit.service.ts: a commerce merchant credits a member's wallet from
-- its own balance and credit limit.
pub mod Books
use c_zdan.Common.{ℕ, Bool, not, ◌&&◌, Option, none, some, String, str_eq, ◌==◌, if◌then◌else◌}
use c_zdan.Common.Int.{ℤ, pos, ◌+ℤ◌, ◌-ℤ◌, leb_ℤ, ltb_ℤ}
use c_zdan.Schema.{
  Account, Merchant, Profile, is_finance, is_parent, TxType, TxStatus, Transaction, PublicNo,
  LogReason, Reference, LogRow,
}
use c_zdan.Store.{
  Error, Db, Clock, Trx, ◌>>=◌, ◌>>◌, pure, get, throw_if, or_throw, update_account,
  update_merchant, insert_transaction, alloc_public_no, log_settlement,
}
use c_zdan.Fees.{compute_fee_minor}
use c_zdan.PaymentCode.{Locale, normalize}

pub record CreditMemberInput : Type 0 where
  pub merchant_id : ℕ
  pub wallet_no : String
  pub customer_name : String
  pub amount : ℤ
  pub merchant_ref : Option String

pub record CreditMemberResult : Type 0 where
  pub transaction_id : ℕ
  pub wallet_tx_no : PublicNo
  pub new_member_balance : ℤ
  pub merchant_outstanding : ℤ

abbrev pub full_name : Profile → String
full_name p = Prim.Native.String.◌++◌ p.first_name (Prim.Native.String.◌++◌ " " p.last_name)

-- `fee`, `totalDebit` and what is left of the merchant's balance.
abbrev pub credit_fee : ℤ → Merchant → ℤ
credit_fee amount m = compute_fee_minor (record {
  amount = some amount;
  commission_pct = some m.commission_pct;
  fixed_fee = some m.fixed_fee;
})

abbrev pub total_debit : ℤ → Merchant → ℤ
total_debit amount m = amount +ℤ credit_fee amount m

abbrev pub balance_left : ℤ → Merchant → ℤ
balance_left amount m = m.balance -ℤ total_debit amount m

-- The tests on the input and on the locked merchant.
unfoldable pub crediting_merchant : Locale → CreditMemberInput → Trx Merchant
crediting_merchant locale input = do
  throw_if (str_eq input.wallet_no "") Error.wallet_no_required
  throw_if (str_eq (locale.trim input.customer_name) "") Error.name_required
  throw_if (leb_ℤ input.amount (pos 0)) Error.amount_invalid
  db ← get
  m ← or_throw (db.merchants input.merchant_id) Error.merchant_not_found
  throw_if (is_finance m.merchant_type) Error.wrong_merchant_type
  throw_if (is_parent m.merchant_scope) Error.parent_merchant_not_allowed
  throw_if (ltb_ℤ (m.balance +ℤ m.credit_limit) (total_debit input.amount m))
      Error.insufficient_merchant_balance
  pure m

-- The member of the wallet number, by name.
unfoldable pub credited_member : Locale → CreditMemberInput → Trx Profile
credited_member locale input = do
  db ← get
  p ← or_throw (db.profiles input.wallet_no) Error.member_not_found
  throw_if p.is_frozen Error.member_frozen
  throw_if (not (str_eq (normalize locale (full_name p)) (normalize locale input.customer_name)))
      Error.name_mismatch
  pure p

abbrev pub credit : ℤ → Account → Account
credit amount a = record a { balance = a.balance +ℤ amount }

abbrev pub credit_transaction :
    Clock → ℕ → CreditMemberInput → Profile → Merchant → Account → PublicNo → Transaction
credit_transaction clock tx_id input p m acc public_no = record {
  id = tx_id;
  public_no = public_no;
  user_id = p.id;
  type = TxType.merchant_credit;
  status = TxStatus.completed;
  amount = input.amount;
  fee = pos 0;
  balance_after = acc.balance +ℤ input.amount;
  reference_id = none;
  merchant_ref = input.merchant_ref;
  external_tx_id = none;
  merchant_id = input.merchant_id;
  merchant_fee = credit_fee input.amount m;
  is_debit = Bool.false;
  created_at = clock.now;
}

abbrev pub credit_row : ℕ → CreditMemberInput → Merchant → LogRow
credit_row tx_id input m = record {
  merchant_id = input.merchant_id;
  change_amount = pos 0 -ℤ total_debit input.amount m;
  balance_before = m.balance;
  balance_after = balance_left input.amount m;
  reason = LogReason.merchant_credit;
  reference = Reference.transaction tx_id;
}

-- The balance that the response reads afresh.
abbrev fresh_balance : Option Account → ℤ
fresh_balance none = pos 0
fresh_balance (some a) = a.balance

-- The writes. The merchant's new balance was computed from the locked row.
unfoldable pub book_credit :
    Clock → ℕ → CreditMemberInput → Merchant → Profile → Trx CreditMemberResult
book_credit clock tx_id input m p = do
  db ← get
  acc ← or_throw (db.accounts p.id) Error.account_not_found
  update_merchant input.merchant_id (λ r. record r { balance = balance_left input.amount m })
  update_account p.id (credit input.amount)
  public_no ← alloc_public_no "C" clock.ymd
  insert_transaction (credit_transaction clock tx_id input p m acc public_no)
  log_settlement (credit_row tx_id input m)
  fresh ← get
  pure (record {
    transaction_id = tx_id;
    wallet_tx_no = public_no;
    new_member_balance = fresh_balance (fresh.accounts p.id);
    merchant_outstanding =
        if ltb_ℤ (balance_left input.amount m) (pos 0)
        then pos 0 -ℤ balance_left input.amount m
        else pos 0;
  })

unfoldable pub credit_member : Locale → Clock → ℕ → CreditMemberInput → Trx CreditMemberResult
credit_member locale clock tx_id input = do
  m ← crediting_merchant locale input
  p ← credited_member locale input
  book_credit clock tx_id input m p
