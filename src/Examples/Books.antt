-- ===== src/Examples/Books.antt =====
-- Two members, a finance and a commerce merchant, an open withdraw, an active code and an open topup.
use c_zdan.Common.{
  Bool, ℕ, ◌+◌, ◌==◌, refl, true, false, Option, none, some, [], ◌∷◌, String, str_eq, arith,
  if◌then◌else◌,
}
use c_zdan.Common.Int.{ℤ, pos, negsuc, ◌+ℤ◌}
use c_zdan.Common.Table.{put, total, any, count}
use c_zdan.Schema.{
  CashoutStatus, Account, PaymentCode, CodeStatus, Merchant, MerchantType, MerchantScope,
  RoutingRule, Direction, TopupSession, TopupStatus, WithdrawSession, WithdrawStatus, Transaction,
  TxType, TxStatus, PublicNo, LogRow, LogReason, Reference, CallbackStatus,
}
use c_zdan.Cashout.{CashoutRequest}
use c_zdan.Store.{IsColumnKeyed, Db, Clock, Driver}
use c_zdan.Loyalty.{Score}
use c_zdan.Ledger.{IsConsistent}
use c_zdan.Withdraw.{WithdrawRequest, WithdrawCallback, Join}
use c_zdan.Withdraw.Swept.{IsJoin}
use c_zdan.PaymentCode.{CodeRequest, Locale, ConsumeInput}
use c_zdan.MerchantCredit.{CreditMemberInput}
use c_zdan.Topup.{CreateTopup, TopupCallback}

abbrev pub noon : Clock
noon = record { now = 5000000; ymd = 20250101 }

abbrev pub midnight : Clock
midnight = record { now = 99000000; ymd = 20250102 }

abbrev pub account : ℤ → ℤ → Account
account b r = record {
  balance = b;
  reserved_balance = r;
  total_points = pos 0;
  current_tier_id = none;
  cooldown_until = none;
}

abbrev accounts : ℕ → Option Account
accounts u =
    if u == 1
    then some (account (pos 100000) (pos 8000))
    else if u == 2
    then some (account (pos 50000) (pos 0))
    else none

abbrev pub merchant : MerchantType → ℤ → ℤ → Merchant
merchant t pool limit = record {
  is_active = true;
  merchant_type = t;
  merchant_scope = MerchantScope.standalone;
  parent_merchant_id = none;
  commission_pct = pos 250;
  fixed_fee = pos 0;
  deposit_commission_pct = some (pos 200);
  deposit_fixed_fee = none;
  withdraw_commission_pct = some (pos 200);
  withdraw_fixed_fee = none;
  per_tx_limit = none;
  balance = pos 0;
  credit_limit = limit;
  cash_pool = pool;
  cash_pool_updated_at = none;
  overdraft_enabled = false;
  overdraft_limit = pos 0;
  avg_withdraw_seconds = none;
  last_failure_at = none;
  failure_rate_pct = none;
  cashout_commission_pct = pos 0;
  cashout_fixed_fee = pos 0;
  cashout_reserved_amount = pos 0;
}

abbrev merchants : ℕ → Option Merchant
merchants m =
    if m == 10
    then some (merchant MerchantType.finance (pos 145100) (pos 0))
    else if m == 20
    then some (merchant MerchantType.commerce (pos 0) (pos 90000))
    else none

abbrev number : String → ℕ → PublicNo
number p n = record { prefix = p; ymd = 20250101; seq = n }

abbrev paid_in : ℕ → ℕ → ℤ → Transaction
paid_in id u amount = record {
  id = id;
  public_no = number "T" id;
  user_id = u;
  type = TxType.topup;
  status = TxStatus.completed;
  amount = amount;
  fee = pos 0;
  balance_after = amount;
  reference_id = none;
  merchant_ref = none;
  external_tx_id = none;
  merchant_id = 10;
  merchant_fee = pos 0;
  is_debit = false;
  created_at = 1000;
}

abbrev pub open_withdraw : WithdrawSession
open_withdraw = record {
  id = 1;
  public_no = number "W" 1;
  user_id = 1;
  merchant_id = 10;
  method_type = "havale";
  amount = pos 5000;
  fee = pos 100;
  status = WithdrawStatus.pending;
  iban = some "TR1";
  iban_holder = some "ada";
  crypto_type = none;
  payout_address = none;
  reserved_at = some 1000;
  released_at = none;
  finalized_at = none;
  expires_at = 6000000;
  transaction_id = none;
  merchant_ref = none;
  external_tx_id = none;
  failure_reason = none;
  callback_received_at = none;
}

abbrev pub active_code : PaymentCode
active_code = record {
  id = 1;
  user_id = 1;
  code = 123456;
  amount = pos 3000;
  status = CodeStatus.active;
  customer_name_snapshot = none;
  expires_at = 6000000;
  consumed_at = none;
  cancelled_at = none;
  consumed_by_merchant = none;
  reserved_spend_points = pos 3;
  reserved_at_tier_id = 1;
}

abbrev pub open_topup : TopupSession
open_topup = record {
  id = 1;
  public_no = number "T" 9;
  user_id = 1;
  merchant_id = 10;
  method_type = "havale";
  amount = pos 7000;
  status = TopupStatus.awaiting_member_action;
  merchant_ref = none;
  redirect_url = none;
  return_url = none;
  iban = none;
  account_holder = none;
  bank_name = none;
  payment_reference = none;
  member_confirmed_at = none;
  callback_received_at = none;
  finalized_at = none;
  expires_at = 6000000;
}

abbrev pool_row : ℤ → ℤ → ℤ → LogRow
pool_row change before after = record {
  merchant_id = 10;
  change_amount = change;
  balance_before = before;
  balance_after = after;
  reason = LogReason.topup_cash_pool;
  reference = Reference.transaction 1;
}

abbrev rule : Direction → RoutingRule
rule d = record {
  method_type = "havale";
  direction = d;
  merchant_id = 10;
  weight_pct = pos 10000;
  is_active = true;
}

abbrev pub books : Db
books = record {
  accounts = accounts;
  profiles = λ w.
      if str_eq w "M2"
      then some (record { id = 2; first_name = "ada"; last_name = "can"; is_frozen = false })
      else none;
  merchants = merchants;
  routing = rule Direction.topup ∷ rule Direction.withdraw ∷ [];
  withdraws = open_withdraw ∷ [];
  topups = open_topup ∷ [];
  codes = active_code ∷ [];
  cashouts = [];
  cashout_methods = λ c. none;
  transactions = paid_in 2 2 (pos 50000) ∷ paid_in 1 1 (pos 100000) ∷ [];
  pool_log =
      pool_row (negsuc 4899) (pos 150000) (pos 145100)
      ∷ pool_row (pos 150000) (pos 0) (pos 150000)
      ∷ [];
  settlement_log = [];
  points_log = [];
  provider_methods = [];
  provider_ledger = [];
  tiers =
      (record {
        id = 1;
        sort_order = pos 1;
        min_points = pos 0;
        min_turnover = pos 0;
        point_multiplier = pos 100;
        is_archived = false;
      })
      ∷ [];
  admin_idempotency = [];
  campaigns = [];
  allocations = [];
  cumulative_overhead = 0;
  users = λ u. none;
  refresh_tokens = [];
  reset_tokens = [];
  user_ids = λ e. none;
  mfa_factors = [];
  backup_codes = [];
  counters = λ p d. if str_eq p "W" then some 50 else none;
}

pub books-IsConsistent : IsConsistent books
unfolding total count any ◌+ℤ◌
books-IsConsistent = record {
  ledger = λ u. ground arith;
  held_back = λ u. ground arith;
  pooled = λ m. ground arith;
  settled = λ m. ground arith;
  pool_chain = (refl, (refl, tt));
  settlement_chain = tt;
  withdraws_nonneg = (omega arith, tt);
  codes_nonneg = (omega arith, tt);
  codes_keyed = (refl, tt);
  one_withdraw = λ u. ground arith;
  one_topup = λ u. ground arith;
}

abbrev pub request : WithdrawRequest
request = record {
  user_id = 2;
  method_type = "havale";
  amount = pos 20000;
  iban = some "TR2";
  iban_holder = some "can";
  crypto_type = none;
  payout_address = none;
}

abbrev pub payout : CallbackStatus → WithdrawCallback
payout status = record {
  merchant_id = 10;
  internal_ref = 1;
  merchant_ref = "r1";
  status = status;
  external_tx_id = none;
  failure_reason = none;
}

abbrev pub first_row : Join
first_row [] = none
first_row (s ∷ rows) = some s

pub first_row-IsJoin : IsJoin first_row
first_row-IsJoin = record { nothing = refl; single = λ s. refl }

abbrev pub score : Score
score tens multiplier context = pos tens

abbrev pub draws : ℕ → ℕ
draws i = 123456 + i

abbrev pub code_request : CodeRequest
code_request = record { user_id = 2; amount = pos 4000; ttl_seconds = 600; customer_name = none }

abbrev pub locale : Locale
locale = record { trim = λ s. s; lower = λ s. s }

abbrev pub driver : Driver
driver = record { zero_of_sum = λ s. none; zero_of_merchant = λ b r. none }

abbrev pub consume_input : ConsumeInput
consume_input = record {
  code = some 123456;
  amount = pos 3000;
  customer_name = "ada";
  merchant_id = 20;
  merchant_ref = none;
}

abbrev pub credit_input : CreditMemberInput
credit_input = record {
  merchant_id = 20;
  wallet_no = "M2";
  customer_name = "ada can";
  amount = pos 40000;
  merchant_ref = none;
}

abbrev pub topup_request : CreateTopup
topup_request = record { user_id = 2; method_type = "havale"; amount = pos 9000; return_url = none }

abbrev pub deposit : CallbackStatus → TopupCallback
deposit status = record {
  merchant_id = 10;
  internal_ref = 1;
  merchant_ref = "t1";
  amount = pos 7500;
  status = status;
  external_tx_id = none;
}

abbrev pub whole : ℤ → ℤ
whole t = t

pub driver-IsColumnKeyed : IsColumnKeyed driver
driver-IsColumnKeyed = record { no_zero_of_sum = λ s. refl; no_zero_of_merchant = λ b r. refl }

abbrev pub is_usdt : String → Bool
is_usdt code = str_eq code "USDT_TRC20"

abbrev pub cashout_input : CashoutRequest
cashout_input = record {
  actor_user_id = 5;
  role = "owner";
  is_allowed = none;
  context_merchant_id = 30;
  merchant_id = 30;
  method_code = "USDT_TRC20";
  amount = pos 10000;
  commission = some (pos 500);
}

-- The same books with a commerce merchant that has earned something, a method and an ended session.
abbrev pub earned : Db
earned = record books {
  merchants =
      put 30 (record (merchant MerchantType.commerce (pos 0) (pos 0)) { balance = pos 60000 })
        books.merchants;
  settlement_log =
      (record {
        merchant_id = 30;
        change_amount = pos 60000;
        balance_before = pos 0;
        balance_after = pos 60000;
        reason = LogReason.spend;
        reference = Reference.transaction 3;
      })
      ∷ [];
  cashout_methods = λ c.
      some
        (record { code = c; is_active = true; min_amount = none; max_amount = some (pos 50000) });
  cashouts =
      (record {
        id = 1;
        public_no = number "MC" 9;
        merchant_id = 30;
        method_code = "USDT_TRC20";
        requested_by = 5;
        amount = pos 100;
        fee = pos 5;
        status = CashoutStatus.failed;
        finalized_at = some 100;
      })
      ∷ [];
}

pub earned-IsConsistent : IsConsistent earned
unfolding total ◌+ℤ◌
earned-IsConsistent =
    let b = books-IsConsistent in
    record {
      ledger = b.ledger;
      held_back = b.held_back;
      pooled = λ m. ground (arith, b.pooled m);
      settled = λ m. ground arith;
      pool_chain = b.pool_chain;
      settlement_chain = (refl, tt);
      withdraws_nonneg = b.withdraws_nonneg;
      codes_nonneg = b.codes_nonneg;
      codes_keyed = b.codes_keyed;
      one_withdraw = b.one_withdraw;
      one_topup = b.one_topup;
    }
