-- ===== src/Admin/Members.antt =====
-- apps/api/src/services/admin/members.service.ts: `adjustBalance` and `awardPoints`. An amount is a
-- whole number of kuruş, and points are an integer, as the code tests.
use c_zdan.Common.{ℕ, Bool, Option, none, some, String, str_eq}
use c_zdan.Common.Int.{ℤ, pos, negsuc, ◌+ℤ◌, leb_ℤ, ltb_ℤ, eqb_ℤ}
use c_zdan.Schema.{Account, TxType, TxStatus, Transaction, PublicNo, PointsReason, AdminResult}
use c_zdan.Store.{
  Error, Db, Clock, Driver, Trx, ◌>>=◌, ◌>>◌, pure, get, throw_if, or_throw, update_account,
  insert_transaction, alloc_public_no, log_points,
}
use c_zdan.Loyalty.{maybe_upgrade_tier}
use c_zdan.PaymentCode.{Locale}
use c_zdan.Admin.Idempotency.{AdminIdempotencyOpts, AdminOutcome, with_admin_idempotency}

pub record AdjustBalance : Type 0 where
  pub actor_id : ℕ
  pub user_id : ℕ
  pub amount : ℤ
  pub reason : String
  pub idempotency_key : Option String

-- `Math.abs`.
abbrev pub abs_ℤ : ℤ → ℤ
abs_ℤ (pos n) = pos n
abs_ℤ (negsuc n) = pos (Prim.Native.Nat.suc n)

abbrev pub adjust : ℤ → Account → Account
adjust amount a = record a { balance = a.balance +ℤ amount }

-- The metadata names no merchant.
abbrev pub adjustment : Clock → ℕ → AdjustBalance → Account → PublicNo → Transaction
adjustment clock tx_id input acc public_no = record {
  id = tx_id;
  public_no = public_no;
  user_id = input.user_id;
  type = TxType.adjustment;
  status = TxStatus.completed;
  amount = abs_ℤ input.amount;
  fee = pos 0;
  balance_after = acc.balance +ℤ input.amount;
  reference_id = none;
  merchant_ref = none;
  external_tx_id = none;
  merchant_id = 0;
  merchant_fee = pos 0;
  is_debit = leb_ℤ input.amount (pos 0);
  created_at = clock.now;
}

unfoldable pub adjust_balance_inner : Clock → ℕ → AdjustBalance → Trx AdminResult
adjust_balance_inner clock tx_id input = do
  db ← get
  acc ← or_throw (db.accounts input.user_id) Error.account_not_found
  update_account input.user_id (adjust input.amount)
  public_no ← alloc_public_no "X" clock.ymd
  insert_transaction (adjustment clock tx_id input acc public_no)
  pure (record { transaction_id = some tx_id })

abbrev pub adjust_opts : AdjustBalance → AdminIdempotencyOpts
adjust_opts input = record {
  actor_id = input.actor_id;
  action = "member.balance_adjust";
  key = input.idempotency_key;
}

unfoldable pub adjust_balance : Locale → Clock → ℕ → Db → AdjustBalance → Trx AdminOutcome
adjust_balance locale clock tx_id looked input = do
  throw_if (str_eq (locale.trim input.reason) "") Error.reason_required
  throw_if (eqb_ℤ input.amount (pos 0)) Error.amount_zero
  with_admin_idempotency looked (adjust_opts input) (adjust_balance_inner clock tx_id input)

pub record AwardPoints : Type 0 where
  pub user_id : ℕ
  pub points : ℤ
  pub reason : String

-- The writes of an award; the upgrade of the tier is the last.
unfoldable pub credit_points : Driver → AwardPoints → Trx Bool
credit_points driver input = do
  update_account input.user_id (λ a. record a { total_points = a.total_points +ℤ input.points })
  log_points (record {
    user_id = input.user_id;
    points = input.points;
    reason = PointsReason.admin input.reason;
    reference_id = none;
  })
  maybe_upgrade_tier driver input.user_id

unfoldable pub award_member_points : Locale → Driver → AwardPoints → Trx Bool
award_member_points locale driver input = do
  throw_if (str_eq (locale.trim input.reason) "") Error.reason_required
  throw_if (eqb_ℤ input.points (pos 0)) Error.points_zero
  throw_if (ltb_ℤ input.points (pos 0)) Error.points_negative_not_allowed
  db ← get
  or_throw (db.accounts input.user_id) Error.account_not_found
  credit_points driver input
