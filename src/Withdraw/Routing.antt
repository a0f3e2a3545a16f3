-- ===== src/Withdraw/Routing.antt =====
-- `pickFinanceMerchantForWithdraw`: the query over merchants and routing rules.
use c_zdan.Common.{
  ℕ, ◌+◌, Bool, true, false, ◌&&◌, ◌||◌, Option, none, some, List, [], ◌∷◌, String, str_eq, ltb,
  leb, if◌then◌else◌,
}
use c_zdan.Common.Int.{ℤ, pos, ◌+ℤ◌, leb_ℤ, ltb_ℤ}
use c_zdan.Schema.{Merchant, is_finance, RoutingRule, Direction}
use c_zdan.Store.{Db, Clock}
use c_zdan.Fees.{compute_fee_minor}

-- `cash_pool + (CASE WHEN overdraft_enabled THEN overdraft_limit ELSE 0 END)`.
unfoldable pub capacity : Merchant → ℤ
capacity m = m.cash_pool +ℤ (if m.overdraft_enabled then m.overdraft_limit else pos 0)

-- `cash_pool_updated_at IS NULL OR cash_pool_updated_at >= now() - interval '15 minutes'`.
abbrev pub is_fresh : Clock → Option ℕ → Bool
is_fresh clock none = true
is_fresh clock (some t) = leb clock.now (t + 900000)

-- `failure_rate_pct IS NULL OR failure_rate_pct < 5`.
abbrev pub is_reliable : Option ℤ → Bool
is_reliable none = true
is_reliable (some r) = ltb_ℤ r (pos 500)

-- `per_tx_limit IS NULL OR per_tx_limit >= amount`.
abbrev pub is_within_limit : ℤ → Option ℤ → Bool
is_within_limit amount none = true
is_within_limit amount (some l) = leb_ℤ amount l

abbrev pub is_withdraw_rule : String → RoutingRule → Bool
is_withdraw_rule method r = is_withdraw r.direction && (r.is_active && str_eq r.method_type method)
  where
    is_withdraw : Direction → Bool
    is_withdraw Direction.withdraw = true
    is_withdraw Direction.topup = false

-- The WHERE clause on the merchant.
unfoldable pub can_pay : Clock → ℤ → Merchant → Bool
unfolding capacity
can_pay clock amount m =
    m.is_active
    && (is_finance m.merchant_type
        && (leb_ℤ amount (capacity m)
            && (is_fresh clock m.cash_pool_updated_at
                && (is_reliable m.failure_rate_pct && is_within_limit amount m.per_tx_limit))))

pub record Candidate : Type 0 where
  pub id : ℕ
  pub row : Merchant

abbrev pub keep_if : Bool → Candidate → Option Candidate
keep_if true c = some c
keep_if false c = none

-- The join of one rule with its merchant.
unfoldable pub candidate : Clock → Db → String → ℤ → RoutingRule → Option Candidate
unfolding can_pay
candidate clock db method amount r = elim (db.merchants r.merchant_id) [
  | none ↦ none
  | some m ↦
      keep_if (is_withdraw_rule method r && can_pay clock amount m)
        (record { id = r.merchant_id; row = m })
]

-- `avg_withdraw_seconds NULLS LAST`.
abbrev pub faster : Option ℕ → Option ℕ → Bool
faster none _ = false
faster (some a) none = true
faster (some a) (some b) = ltb a b

-- `last_failure_at NULLS FIRST`.
abbrev pub failed_before : Option ℕ → Option ℕ → Bool
failed_before _ none = false
failed_before none (some b) = true
failed_before (some a) (some b) = ltb a b

-- The order of `ORDER BY`, strictly.
unfoldable pub comes_before : Merchant → Merchant → Bool
comes_before a b =
    faster a.avg_withdraw_seconds b.avg_withdraw_seconds
    || (if faster b.avg_withdraw_seconds a.avg_withdraw_seconds
        then false
        else failed_before a.last_failure_at b.last_failure_at)

abbrev pub better : Candidate → Option Candidate → Candidate
better c none = c
better c (some b) = if comes_before b.row c.row then b else c

abbrev pub choose : Option Candidate → Option Candidate → Option Candidate
choose none best = best
choose (some c) best = some (better c best)

-- `ORDER BY … LIMIT 1`. Of rows that tie, Postgres may return any; this is the first.
unfoldable pub pick_candidate : Clock → Db → String → ℤ → List RoutingRule → Option Candidate
pick_candidate clock db method amount [] = none
pick_candidate clock db method amount (r ∷ rs) =
    choose (candidate clock db method amount r) (pick_candidate clock db method amount rs)

pub record Picked : Type 0 where
  pub id : ℕ
  pub fee : ℤ

-- The fee of the picked merchant; `COALESCE(…, 0)` is `to_minor_units`.
unfoldable pub withdraw_fee : ℤ → Merchant → ℤ
withdraw_fee amount m = compute_fee_minor (record {
  amount = some amount;
  commission_pct = m.withdraw_commission_pct;
  fixed_fee = m.withdraw_fixed_fee;
})

unfoldable pub pick_finance_merchant : Clock → Db → String → ℤ → Option Picked
pick_finance_merchant clock db method amount =
    elim (pick_candidate clock db method amount db.routing) [
      | none ↦ none
      | some c ↦ some (record { id = c.id; fee = withdraw_fee amount c.row })
    ]
