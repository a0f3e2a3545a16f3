-- ===== src/Withdraw/Request.antt =====
-- `requestWithdrawV3`.
use c_zdan.Common.{
  ℕ, ◌+◌, ◌*◌, Bool, true, ◌&&◌, ◌||◌, Option, none, some, String, str_eq, if◌then◌else◌,
}
use c_zdan.Common.Int.{ℤ, pos, ◌+ℤ◌, ◌-ℤ◌, leb_ℤ, ltb_ℤ}
use c_zdan.Common.Table.{any}
use c_zdan.Schema.{
  PublicNo, Merchant, is_finance, WithdrawSession, WithdrawStatus, is_open_for, LogReason,
  Reference,
}
use c_zdan.Store.{
  Error, err, Db, Clock, Trx, ◌>>=◌, ◌>>◌, pure, get, throw_if, or_throw, update_account,
  update_merchant, alloc_public_no, insert_withdraw, log_pool,
}
use c_zdan.Withdraw.Routing.{capacity, Picked, pick_finance_merchant}

pub record WithdrawRequest : Type 0 where
  pub user_id : ℕ
  pub method_type : String
  pub amount : ℤ
  pub iban : Option String
  pub iban_holder : Option String
  pub crypto_type : Option String
  pub payout_address : Option String

-- `SESSION_TTL_SEC`, in milliseconds.
abbrev pub session_ttl : ℕ
session_ttl = 30 * 60 * 1000

abbrev pub take_pool : Clock → ℤ → Merchant → Merchant
take_pool clock net r = record r {
  cash_pool = r.cash_pool -ℤ net;
  cash_pool_updated_at = some clock.now;
}

abbrev pub may_reserve : ℤ → Merchant → Bool
may_reserve net m = m.is_active && (is_finance m.merchant_type && leb_ℤ net (capacity m))

-- The conditional UPDATE of the pool, with RETURNING cash_pool.
unfoldable pub reserve_pool : Clock → ℕ → ℤ → Trx ℤ
unfolding update_merchant capacity ◌>>=◌
reserve_pool clock id net db = elim (db.merchants id) [
  | none ↦ err Error.no_available_provider
  | some m ↦
      if may_reserve net m
      then (update_merchant id (take_pool clock net) >> pure (m.cash_pool -ℤ net)) db
      else err Error.no_available_provider
]

-- `!value` of a text: absent or empty.
abbrev pub is_missing : Option String → Bool
is_missing none = true
is_missing (some s) = str_eq s ""

-- "Method-specific field validation".
unfoldable pub validate_fields : WithdrawRequest → Trx (Unit {0})
validate_fields input = do
  let bank = str_eq input.method_type "havale" || str_eq input.method_type "papara"
  let crypto = str_eq input.method_type "kripto"
  throw_if (bank && is_missing input.iban) Error.iban_required
  throw_if (bank && is_missing input.iban_holder) Error.iban_holder_required
  throw_if (crypto && is_missing input.crypto_type) Error.crypto_type_required
  throw_if (crypto && is_missing input.payout_address) Error.payout_address_required

abbrev pub new_session : Clock → ℕ → WithdrawRequest → Picked → PublicNo → WithdrawSession
new_session clock id input picked public_no = record {
  id = id;
  public_no = public_no;
  user_id = input.user_id;
  merchant_id = picked.id;
  method_type = input.method_type;
  amount = input.amount;
  fee = picked.fee;
  status = WithdrawStatus.pending;
  iban = input.iban;
  iban_holder = input.iban_holder;
  crypto_type = input.crypto_type;
  payout_address = input.payout_address;
  reserved_at = some clock.now;
  released_at = none;
  finalized_at = none;
  expires_at = clock.now + session_ttl;
  transaction_id = none;
  merchant_ref = none;
  external_tx_id = none;
  failure_reason = none;
  callback_received_at = none;
}

-- The checks before the reservation; the routing query runs on another connection, so it reads a
-- state of its own, `snapshot`.
unfoldable pub accept_withdraw : Clock → Db → WithdrawRequest → Trx Picked
accept_withdraw clock snapshot input = do
  throw_if (leb_ℤ input.amount (pos 0)) Error.amount_invalid
  db ← get
  throw_if (any (is_open_for input.user_id) db.withdraws) Error.withdraw_in_progress
  acc ← or_throw (db.accounts input.user_id) Error.account_not_found
  throw_if (ltb_ℤ (acc.balance -ℤ acc.reserved_balance) input.amount) Error.insufficient_funds
  or_throw (pick_finance_merchant clock snapshot input.method_type input.amount)
      Error.no_available_provider

-- The writes: pool, member reservation, number, session, log row.
unfoldable pub book_withdraw : Clock → ℕ → WithdrawRequest → Picked → Trx WithdrawSession
book_withdraw clock id input picked = do
  let net = input.amount -ℤ picked.fee
  after ← reserve_pool clock picked.id net
  validate_fields input
  update_account input.user_id
      (λ a. record a { reserved_balance = a.reserved_balance +ℤ input.amount })
  public_no ← alloc_public_no "W" clock.ymd
  let session = new_session clock id input picked public_no
  insert_withdraw session
  log_pool (record {
    merchant_id = picked.id;
    change_amount = pos 0 -ℤ net;
    balance_before = after +ℤ net;
    balance_after = after;
    reason = LogReason.merchant_withdraw_cash_pool;
    reference = Reference.withdraw_session id;
  })
  pure session

unfoldable pub request_withdraw : Clock → ℕ → Db → WithdrawRequest → Trx WithdrawSession
request_withdraw clock id snapshot input = do
  picked ← accept_withdraw clock snapshot input
  book_withdraw clock id input picked
