-- ===== src/Cashout/Request.antt =====
-- `requestMerchantCashout`.
use c_zdan.Common.{
  ℕ, Bool, false, not, ◌&&◌, ◌||◌, ◌∷◌, Option, none, some, String, str_eq, ◌==◌, if◌then◌else◌,
}
use c_zdan.Common.Int.{ℤ, pos, ◌+ℤ◌, ◌-ℤ◌, ltb_ℤ}
use c_zdan.Common.Table.{any}
use c_zdan.Schema.{Merchant, CashoutMethod, CashoutSession, CashoutStatus, is_finance, is_parent}
use c_zdan.Store.{
  Error, unique_violation, ok, err, same_public_no, Db, Clock, Trx, ◌>>=◌, ◌>>◌, pure, throw, get,
  throw_if, or_throw, update_merchant, alloc_public_no,
}
use c_zdan.Fees.{compute_fee_minor}

pub record CashoutRequest : Type 0 where
  pub actor_user_id : ℕ
  pub role : String
  -- The override of the user's permission, where there is a row for it.
  pub is_allowed : Option Bool
  pub context_merchant_id : ℕ
  pub merchant_id : ℕ
  pub method_code : String
  pub amount : ℤ
  pub commission : Option ℤ

abbrev allows : Option Bool → Bool
allows none = false
allows (some b) = b

-- `assertMerchantCashoutPermission`.
unfoldable pub assert_permission : CashoutRequest → Trx (Unit {0})
assert_permission opts =
    throw_if (not (str_eq opts.role "owner") && not (allows opts.is_allowed))
      Error.cashout_permission_denied

abbrev is_active_method : Option CashoutMethod → Option CashoutMethod
is_active_method none = none
is_active_method (some m) = if m.is_active then some m else none

abbrev is_above : Option ℤ → ℤ → Bool
is_above none amount = false
is_above (some max) amount = ltb_ℤ max amount

abbrev or_nothing : Option ℤ → ℤ
or_nothing none = pos 0
or_nothing (some n) = n

-- The method and its bounds.
unfoldable pub check_method : CashoutRequest → Trx (Unit {0})
check_method opts = do
  db ← get
  method ←
      or_throw (is_active_method (db.cashout_methods opts.method_code))
        Error.cashout_method_inactive
  throw_if (ltb_ℤ opts.amount (or_nothing method.min_amount)) Error.amount_below_min
  throw_if (is_above method.max_amount opts.amount) Error.amount_above_max

abbrev is_child_of : ℕ → Option Merchant → Bool
is_child_of p none = false
is_child_of p (some m) = belongs m.parent_merchant_id
  where
    belongs : Option ℕ → Bool
    belongs none = false
    belongs (some k) = k == p

-- The context may act for the target: its child where it is a parent, else itself.
abbrev scope_check : ℕ → Merchant → CashoutRequest → Db → Trx (Unit {0})
scope_check ctx_id ctx opts db =
    if is_parent ctx.merchant_scope
    then throw_if (not (is_child_of ctx_id (db.merchants opts.merchant_id)))
        Error.child_merchant_required
    else throw_if (not (opts.merchant_id == ctx_id)) Error.merchant_scope_mismatch

-- `resolveTargetMerchant`.
unfoldable pub resolve_target_merchant : CashoutRequest → Trx Merchant
resolve_target_merchant opts = do
  db ← get
  ctx ← or_throw (db.merchants opts.context_merchant_id) Error.merchant_not_found
  throw_if (is_finance ctx.merchant_type) Error.commerce_only
  scope_check opts.context_merchant_id ctx opts db
  m ← or_throw (db.merchants opts.merchant_id) Error.merchant_not_found
  throw_if (is_parent m.merchant_scope) Error.parent_aggregate_cashout_denied
  pure m

abbrev usdt_commission : Option ℤ → Trx ℤ
usdt_commission none = throw Error.commission_required
usdt_commission (some c) = throw_if (ltb_ℤ c (pos 0)) Error.commission_required >> pure c

-- The commission of a USDT method is given; any other method has the merchant's rates. `is_usdt` is
-- the test of the upper-cased prefix.
unfoldable pub cashout_fee : (String → Bool) → CashoutRequest → Merchant → Trx ℤ
cashout_fee is_usdt opts m =
    if is_usdt opts.method_code
    then usdt_commission opts.commission
    else pure (
        compute_fee_minor (record {
          amount = some opts.amount;
          commission_pct = some m.cashout_commission_pct;
          fixed_fee = some m.cashout_fixed_fee;
        }))

abbrev pub free_balance : Merchant → ℤ
free_balance m = m.balance -ℤ m.cashout_reserved_amount

abbrev pub reserve_cashout : ℤ → Merchant → Merchant
reserve_cashout amount r = record r {
  cashout_reserved_amount = r.cashout_reserved_amount +ℤ amount;
}

-- The key and `public_no`.
unfoldable pub insert_cashout : CashoutSession → Trx (Unit {0})
insert_cashout s db =
    if any (λ r. r.id == s.id || same_public_no r.public_no s.public_no) db.cashouts
    then err unique_violation
    else ok (tt, record db { cashouts = s ∷ db.cashouts })

-- The transaction: the balance is tested again on the locked row.
unfoldable pub book_cashout : Clock → ℕ → CashoutRequest → ℤ → Trx CashoutSession
book_cashout clock id opts fee = do
  let amount = opts.amount +ℤ fee
  db ← get
  locked ← or_throw (db.merchants opts.merchant_id) Error.merchant_not_found
  throw_if (ltb_ℤ (free_balance locked) amount) Error.insufficient_merchant_balance
  public_no ← alloc_public_no "MC" clock.ymd
  let session : CashoutSession = record {
    id = id;
    public_no = public_no;
    merchant_id = opts.merchant_id;
    method_code = opts.method_code;
    requested_by = opts.actor_user_id;
    amount = opts.amount;
    fee = fee;
    status = CashoutStatus.pending;
    finalized_at = none;
  }
  insert_cashout session
  update_merchant opts.merchant_id (reserve_cashout amount)
  pure session

-- The checks before the transaction, and the fee.
unfoldable pub prepare_cashout : (String → Bool) → CashoutRequest → Trx ℤ
prepare_cashout is_usdt opts = do
  assert_permission opts
  check_method opts
  m ← resolve_target_merchant opts
  fee ← cashout_fee is_usdt opts m
  throw_if (ltb_ℤ (free_balance m) (opts.amount +ℤ fee)) Error.insufficient_merchant_balance
  pure fee

-- The checks read a state of their own, `snapshot`.
unfoldable pub request_merchant_cashout :
    (String → Bool) → Clock → ℕ → Db → CashoutRequest → Trx CashoutSession
request_merchant_cashout is_usdt clock id snapshot opts db =
    elim (prepare_cashout is_usdt opts snapshot) [
      | ok (fee, d) ↦ book_cashout clock id opts fee db
      | err e ↦ err e
    ]
