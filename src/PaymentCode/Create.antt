-- ===== src/PaymentCode/Create.antt =====
-- `createPaymentCode` and `cancelPaymentCode`.
use c_zdan.Common.{
  ℕ, zero, suc, ◌+◌, ◌*◌, Bool, not, ◌&&◌, ◌||◌, Option, none, some, List, String, ltb, leb, ◌==◌,
  if◌then◌else◌,
}
use c_zdan.Common.Int.{ℤ, pos, ◌+ℤ◌, ◌-ℤ◌, leb_ℤ, ltb_ℤ}
use c_zdan.Common.Table.{any, count, find}
use c_zdan.Schema.{PaymentCode, code_id, CodeStatus, is_active_code}
use c_zdan.Store.{
  Error, Db, Clock, Trx, ◌>>=◌, ◌>>◌, pure, get, throw_if, or_throw, update_account, release,
  insert_code, update_code,
}
use c_zdan.Loyalty.{
  Score, compute_spend_points, load_spend_context, load_active_tiers, first_tier, current_tier,
}

abbrev pub active_codes_cap : ℕ
active_codes_cap = 5

abbrev pub is_active_for : ℕ → PaymentCode → Bool
is_active_for u c = c.user_id == u && is_active_code c.status

abbrev pub is_taken : ℕ → PaymentCode → Bool
is_taken code c = c.code == code && is_active_code c.status

-- The retry loop: `n` draws left, the next one is number `i`.
unfoldable pub allocate_code : (ℕ → ℕ) → List PaymentCode → ℕ → ℕ → Option ℕ
allocate_code draws codes zero i = none
allocate_code draws codes (suc n) i =
    let rest = allocate_code draws codes n (i + 1) in
    if any (is_taken (draws i)) codes then rest else some (draws i)

pub record CodeRequest : Type 0 where
  pub user_id : ℕ
  pub amount : ℤ
  pub ttl_seconds : ℕ
  pub customer_name : Option String

abbrev pub new_code : Clock → ℕ → CodeRequest → ℕ → ℤ → ℕ → PaymentCode
new_code clock id input code points tier = record {
  id = id;
  user_id = input.user_id;
  code = code;
  amount = input.amount;
  status = CodeStatus.active;
  customer_name_snapshot = input.customer_name;
  expires_at = clock.now + input.ttl_seconds * 1000;
  consumed_at = none;
  cancelled_at = none;
  consumed_by_merchant = none;
  reserved_spend_points = points;
  reserved_at_tier_id = tier;
}

-- `draws` are the random codes, and `score` is the floating-point part of the points. The member's
-- active codes are counted before the account is locked, in the state `snapshot`.
unfoldable pub create_payment_code :
    Score → (ℕ → ℕ) → Clock → ℕ → Db → CodeRequest → Trx PaymentCode
create_payment_code score draws clock id snapshot input = do
  throw_if (leb_ℤ input.amount (pos 0)) Error.amount_invalid
  throw_if (ltb input.ttl_seconds 60 || ltb 3600 input.ttl_seconds) Error.ttl_invalid
  throw_if (leb active_codes_cap (count (is_active_for input.user_id) snapshot.codes))
      Error.too_many_active_codes
  db ← get
  acc ← or_throw (db.accounts input.user_id) Error.account_not_found
  throw_if (ltb_ℤ (acc.balance -ℤ acc.reserved_balance) input.amount) Error.insufficient_funds
  let tiers = load_active_tiers db.tiers
  first ← or_throw (first_tier tiers) Error.loyalty_tier_not_found
  let tier = current_tier acc.current_tier_id first tiers
  let context = load_spend_context clock input.user_id acc.cooldown_until db.transactions
  code ← or_throw (allocate_code draws db.codes 10 0) Error.code_not_allocated
  let pc =
      new_code clock id input code
        (compute_spend_points score input.amount tier.point_multiplier context) tier.id
  insert_code pc
  update_account input.user_id
      (λ a. record a { reserved_balance = a.reserved_balance +ℤ input.amount })
  pure pc

abbrev owned : ℕ → Option PaymentCode → Option PaymentCode
owned u none = none
owned u (some c) = if c.user_id == u then some c else none

-- `WHERE id = … AND user_id = …`.
unfoldable pub find_owned_code : ℕ → ℕ → List PaymentCode → Option PaymentCode
find_owned_code u id rows = owned u (find code_id id rows)

abbrev pub mark_cancelled : Clock → PaymentCode → PaymentCode
mark_cancelled clock c = record c { status = CodeStatus.cancelled; cancelled_at = some clock.now }

-- The second test is that of the conditional UPDATE, on the row that the first one locked.
unfoldable pub cancel_payment_code : Clock → ℕ → ℕ → Trx (Unit {0})
cancel_payment_code clock u id = do
  db ← get
  c ← or_throw (find_owned_code u id db.codes) Error.code_not_found
  throw_if (not (is_active_code c.status)) Error.code_not_active
  throw_if (not (is_active_code c.status)) Error.code_not_active
  update_code id (mark_cancelled clock)
  update_account u (release c.amount)
