-- ===== src/Store/Monad.antt =====
-- The state, the errors, and a transaction: a function of the state that fails, or returns a value
-- and the new state. A failed transaction has no new state, since Postgres rolls it back.
use c_zdan.Common.{ℕ, ◌≡◌, Bool, true, false, Option, none, some, List, String}
use c_zdan.Common.Int.{ℤ}
use c_zdan.Schema.{
  Account, PaymentCode, LoyaltyTier, Profile, Merchant, CashoutMethod, CashoutSession, RoutingRule,
  TopupSession, WithdrawSession, Transaction, LogRow, PointsRow, ProviderMethod, ProviderRow,
  AdminIdempotencyRow, Campaign, Allocation, User, RefreshToken, ResetToken, MfaFactor, BackupCode,
}

-- The error codes that the services throw, then those of the database's constraints and of the
-- JavaScript runtime.
pub data Error : Type 0 where
  amount_invalid withdraw_in_progress account_not_found insufficient_funds : Error
  no_available_provider iban_required iban_holder_required crypto_type_required : Error
  payout_address_required session_not_found merchant_mismatch already_finalized : Error
  topup_in_progress wrong_status merchant_not_found code_required name_required : Error
  ttl_invalid too_many_active_codes code_not_allocated code_not_found code_not_active : Error
  code_expired code_used code_cancelled amount_mismatch name_mismatch wrong_merchant_type : Error
  parent_merchant_not_allowed fee_exceeds_amount loyalty_tier_not_found : Error
  wallet_no_required insufficient_merchant_balance member_not_found member_frozen : Error
  cashout_permission_denied cashout_method_inactive amount_below_min amount_above_max : Error
  commerce_only child_merchant_required merchant_scope_mismatch : Error
  parent_aggregate_cashout_denied commission_required session_key_required : Error
  cashout_session_not_found reason_required return_base_invalid : Error
  amount_zero points_zero points_negative_not_allowed cash_pool_negative limit_negative : Error
  would_breach_credit_limit balance_below_limit : Error
  campaign_not_found allocation_not_found already_claimed distribution_pct_out_of_range : Error
  max_recipients_invalid expired refresh_invalid refresh_revoked user_disabled : Error
  token_invalid not_found bad_current_password bad_credentials account_frozen : Error
  mfa_not_enrolled code_reused bad_code factor_not_found : Error
  mfa_step_up_required aal2_required : Error
  check_violation unique_violation type_error : Error

pub data Result {ℓ} (A : Type ℓ) : Type ℓ where
  ok : A → Result A
  err : Error → Result A

-- `cumulative_overhead` is the row of `settings` of that key, in kuruş, or 0 without one.
-- `user_ids` is the unique index on `lower(email)`.
-- The newest row of a log or of a table stands first.
pub record Db : Type 0 where
  pub accounts : ℕ → Option Account
  pub profiles : String → Option Profile
  pub merchants : ℕ → Option Merchant
  pub routing : List RoutingRule
  pub withdraws : List WithdrawSession
  pub topups : List TopupSession
  pub codes : List PaymentCode
  pub cashouts : List CashoutSession
  pub cashout_methods : String → Option CashoutMethod
  pub transactions : List Transaction
  pub pool_log : List LogRow
  pub settlement_log : List LogRow
  pub points_log : List PointsRow
  pub provider_methods : List ProviderMethod
  pub provider_ledger : List ProviderRow
  pub tiers : List LoyaltyTier
  pub admin_idempotency : List AdminIdempotencyRow
  pub campaigns : List Campaign
  pub allocations : List Allocation
  pub cumulative_overhead : ℕ
  pub users : ℕ → Option User
  pub refresh_tokens : List RefreshToken
  pub reset_tokens : List ResetToken
  pub user_ids : String → Option ℕ
  pub mfa_factors : List MfaFactor
  pub backup_codes : List BackupCode
  pub counters : String → ℕ → Option ℕ

-- The time of a call, and its UTC date as `YYYYMMDD`.
pub record Clock : Type 0 where
  pub now : ℕ
  pub ymd : ℕ

-- What JavaScript reads as property `0` of a row object of the database driver: of the row of a sum,
-- and of the row of a merchant's `balance` and `cashout_reserved_amount`.
pub record Driver : Type 0 where
  pub zero_of_sum : ℤ → Option ℤ
  pub zero_of_merchant : ℤ → ℤ → Option (ℤ × ℤ)

-- The driver's rows have their column names for keys, and no key `0`.
pub record IsColumnKeyed (d : Driver) : Type 0 where
  pub no_zero_of_sum : (s : ℤ) → d.zero_of_sum s ≡ none
  pub no_zero_of_merchant : (b r : ℤ) → d.zero_of_merchant b r ≡ none

abbrev pub Trx : Type 0 → Type 0
Trx A = Db → Result (A × Db)

infixl 5 ◌>>=◌ ◌>>◌
unfoldable pub ◌>>=◌ : {A B : Type 0} → Trx A → (A → Trx B) → Trx B
◌>>=◌ m f db = elim (m db) [ ok (a, db') ↦ f a db' | err e ↦ err e ]

abbrev pub ◌>>◌ : {A B : Type 0} → Trx A → Trx B → Trx B
m >> k = m >>= λ _. k

abbrev pub pure : {A : Type 0} → A → Trx A
pure a db = ok (a, db)

abbrev pub throw : {A : Type 0} → Error → Trx A
throw e db = err e

unfoldable pub get : Trx Db
get db = ok (db, db)

-- `if (c) throw e`.
unfoldable pub throw_if : Bool → Error → Trx (Unit {0})
throw_if true e db = err e
throw_if false e db = ok (tt, db)

-- `if (!row) throw e`.
unfoldable pub or_throw : {A : Type 0} → Option A → Error → Trx A
or_throw none e db = err e
or_throw (some a) e db = ok (a, db)

-- What the caller of `tx` sees: the value, or the error with the state from before the call.
abbrev pub run_tx : {A : Type 0} → Trx A → Db → Result A × Db
run_tx m db = elim (m db) [ ok (a, db') ↦ (ok a, db') | err e ↦ (err e, db) ]

-- A service outside `tx`: each statement commits, so an error leaves what was written before it.
abbrev pub Auto : Type 0 → Type 0
Auto A = Db → Result A × Db

-- What holds of every successful end.
abbrev pub Ensures : {A : Type 0} → (A → Db → Type 0) → Result (A × Db) → Type 0
Ensures P (ok (a, db)) = P a db
Ensures P (err e) = Unit {0}

pub Ensures-ok :
    {A : Type 0} (P : A → Db → Type 0) (r : Result (A × Db)) {a : A} {db : Db}
    → Ensures P r
    → r ≡ ok (a, db)
    → P a db
Ensures-ok P r {a} {db} h e = rw e at h

pub Ensures-map :
    {A : Type 0} (P Q : A → Db → Type 0) (r : Result (A × Db))
    → ((a : A) (db : Db) → P a db → Q a db)
    → Ensures P r
    → Ensures Q r
Ensures-map P Q (ok (a, db)) f h = f a db h
Ensures-map P Q (err e) f h = tt

abbrev pub is_ok : {A : Type 0} → Result A → Bool
is_ok (ok a) = true
is_ok (err e) = false
