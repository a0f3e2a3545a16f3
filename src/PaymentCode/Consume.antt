-- ===== src/PaymentCode/Consume.antt =====
-- `consumePaymentCode`.
use c_zdan.Common.{
  ℕ, Bool, true, false, not, ◌&&◌, ◌||◌, Option, none, some, String, str_eq, ltb, if◌then◌else◌,
}
use c_zdan.Common.Int.{ℤ, pos, ◌+ℤ◌, ◌-ℤ◌, leb_ℤ, ltb_ℤ, eqb_ℤ, greatest}
use c_zdan.Common.Table.{find}
use c_zdan.Schema.{
  Account, Merchant, PaymentCode, CodeStatus, is_active_code, is_finance, is_parent, TxType,
  TxStatus, Transaction, PublicNo, LogReason, Reference, LogRow, PointsReason,
}
use c_zdan.Store.{
  Error, Clock, Driver, Trx, ◌>>=◌, ◌>>◌, pure, get, throw_if, or_throw, update_account,
  update_merchant, insert_transaction, alloc_public_no, update_code, log_settlement, log_points,
}
use c_zdan.Fees.{compute_fee_minor}
use c_zdan.Loyalty.{maybe_upgrade_tier}

-- `trim` and `toLocaleLowerCase("tr-TR")` of the JavaScript runtime.
pub record Locale : Type 0 where
  pub trim : String → String
  pub lower : String → String

abbrev pub normalize : Locale → String → String
normalize l s = l.lower (l.trim s)

pub record ConsumeInput : Type 0 where
  pub code : Option ℕ
  pub amount : ℤ
  pub customer_name : String
  pub merchant_id : ℕ
  pub merchant_ref : Option String

pub record ConsumeOutput : Type 0 where
  pub transaction_id : ℕ
  pub wallet_tx_no : PublicNo
  pub points_awarded : ℤ

abbrev is_expired : CodeStatus → Bool
is_expired CodeStatus.expired = true
is_expired _ = false

abbrev is_consumed : CodeStatus → Bool
is_consumed CodeStatus.consumed = true
is_consumed _ = false

abbrev is_cancelled : CodeStatus → Bool
is_cancelled CodeStatus.cancelled = true
is_cancelled _ = false

-- `if (pc.customer_name_snapshot) { … }`: an absent or empty snapshot is not compared.
abbrev pub name_differs : Locale → Option String → String → Bool
name_differs l none name = false
name_differs l (some s) name = not (str_eq s "") && not (str_eq (normalize l s) (normalize l name))

abbrev pub code_key : PaymentCode → ℕ
code_key c = c.code

-- The lookup under lock and the tests on the code.
unfoldable pub usable_code : Locale → Clock → ConsumeInput → Trx PaymentCode
usable_code locale clock input = do
  code ← or_throw input.code Error.code_required
  throw_if (leb_ℤ input.amount (pos 0)) Error.amount_invalid
  throw_if (str_eq (locale.trim input.customer_name) "") Error.name_required
  db ← get
  c ← or_throw (find code_key code db.codes) Error.code_not_found
  throw_if (is_expired c.status || ltb c.expires_at clock.now) Error.code_expired
  throw_if (is_consumed c.status) Error.code_used
  throw_if (is_cancelled c.status) Error.code_cancelled
  throw_if (not (is_active_code c.status)) Error.code_not_active
  throw_if (not (eqb_ℤ c.amount input.amount)) Error.amount_mismatch
  throw_if (name_differs locale c.customer_name_snapshot input.customer_name) Error.name_mismatch
  pure c

abbrev pub spend_fee : ℤ → Merchant → ℤ
spend_fee amount m = compute_fee_minor (record {
  amount = some amount;
  commission_pct = some m.commission_pct;
  fixed_fee = some m.fixed_fee;
})

-- The tests on the merchant; `net` is what it receives.
unfoldable pub paying_merchant : ConsumeInput → Trx Merchant
paying_merchant input = do
  db ← get
  m ← or_throw (db.merchants input.merchant_id) Error.merchant_not_found
  throw_if (is_finance m.merchant_type) Error.wrong_merchant_type
  throw_if (is_parent m.merchant_scope) Error.parent_merchant_not_allowed
  throw_if (ltb_ℤ (input.amount -ℤ spend_fee input.amount m) (pos 0)) Error.fee_exceeds_amount
  pure m

abbrev pub spend : ℤ → ℤ → Account → Account
spend amount points a = record a {
  balance = a.balance -ℤ amount;
  reserved_balance = greatest (a.reserved_balance -ℤ amount) (pos 0);
  total_points = a.total_points +ℤ points;
}

abbrev pub spend_transaction :
    Clock → ℕ → ConsumeInput → PaymentCode → Merchant → Account → PublicNo → Transaction
spend_transaction clock tx_id input c m acc public_no = record {
  id = tx_id;
  public_no = public_no;
  user_id = c.user_id;
  type = TxType.spend;
  status = TxStatus.completed;
  amount = input.amount;
  fee = spend_fee input.amount m;
  balance_after = acc.balance -ℤ input.amount;
  reference_id = some c.id;
  merchant_ref = input.merchant_ref;
  external_tx_id = none;
  merchant_id = input.merchant_id;
  merchant_fee = pos 0;
  is_debit = false;
  created_at = clock.now;
}

abbrev pub mark_consumed : Clock → ℕ → PaymentCode → PaymentCode
mark_consumed clock m c = record c {
  status = CodeStatus.consumed;
  consumed_at = some clock.now;
  consumed_by_merchant = some m;
}

abbrev pub spend_row : ℕ → ConsumeInput → Merchant → LogRow
spend_row tx_id input m =
    let net = input.amount -ℤ spend_fee input.amount m in
    record {
      merchant_id = input.merchant_id;
      change_amount = net;
      balance_before = m.balance;
      balance_after = m.balance +ℤ net;
      reason = LogReason.spend;
      reference = Reference.transaction tx_id;
    }

-- The loyalty part: the points row, if there are points, and the tier.
unfoldable pub award_points : Driver → ℕ → PaymentCode → Trx Bool
award_points driver tx_id c = do
  if ltb_ℤ (pos 0) c.reserved_spend_points
      then log_points (record {
        user_id = c.user_id;
        points = c.reserved_spend_points;
        reason = PointsReason.spend;
        reference_id = some tx_id;
      })
      else pure tt
  maybe_upgrade_tier driver c.user_id

unfoldable pub book_spend :
    Driver → Clock → ℕ → ConsumeInput → PaymentCode → Merchant → Trx ConsumeOutput
book_spend driver clock tx_id input c m = do
  db ← get
  acc ← or_throw (db.accounts c.user_id) Error.account_not_found
  update_account c.user_id (spend input.amount c.reserved_spend_points)
  public_no ← alloc_public_no "P" clock.ymd
  insert_transaction (spend_transaction clock tx_id input c m acc public_no)
  update_code c.id (mark_consumed clock input.merchant_id)
  update_merchant input.merchant_id
      (λ r. record r { balance = r.balance +ℤ (input.amount -ℤ spend_fee input.amount m) })
  log_settlement (spend_row tx_id input m)
  award_points driver tx_id c
  pure (record {
    transaction_id = tx_id;
    wallet_tx_no = public_no;
    points_awarded = c.reserved_spend_points;
  })

unfoldable pub consume_payment_code : Locale → Driver → Clock → ℕ → ConsumeInput → Trx ConsumeOutput
consume_payment_code locale driver clock tx_id input = do
  c ← usable_code locale clock input
  m ← paying_merchant input
  book_spend driver clock tx_id input c m
