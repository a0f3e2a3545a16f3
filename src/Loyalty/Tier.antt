-- ===== src/Loyalty/Tier.antt =====
-- apps/api/src/services/loyalty-tier.service.ts: which tier a member has earned, and the upgrade.
use c_zdan.Common.{
  ℕ, Bool, true, false, not, ◌&&◌, Option, none, some, List, [], ◌∷◌, ◌==◌, if◌then◌else◌,
}
use c_zdan.Common.Int.{ℤ, pos, leb_ℤ, eqb_ℤ}
use c_zdan.Common.Table.{filter, total}
use c_zdan.Schema.{LoyaltyTier, is_completed, Transaction, PointsReason}
use c_zdan.Store.{Error, Driver, Trx, ◌>>=◌, ◌>>◌, pure, get, or_throw, update_account, log_points}
use c_zdan.Loyalty.Scoring.{is_spend}

abbrev pub tier_id : LoyaltyTier → ℕ
tier_id t = t.id

-- The comparison of the sort: rank, then points, then turnover.
abbrev pub tier_leb : LoyaltyTier → LoyaltyTier → Bool
tier_leb a b =
    if eqb_ℤ a.sort_order b.sort_order
    then if eqb_ℤ a.min_points b.min_points
      then leb_ℤ a.min_turnover b.min_turnover
      else leb_ℤ a.min_points b.min_points
    else leb_ℤ a.sort_order b.sort_order

-- A stable sort by a comparison, as `Array.prototype.sort` and `ORDER BY` are used here.
module _ (le : LoyaltyTier → LoyaltyTier → Bool) where
  unfoldable pub insert_tier : LoyaltyTier → List LoyaltyTier → List LoyaltyTier
  insert_tier t [] = t ∷ []
  insert_tier t (x ∷ xs) = if le t x then t ∷ x ∷ xs else x ∷ insert_tier t xs

  unfoldable pub sort_tiers : List LoyaltyTier → List LoyaltyTier
  sort_tiers [] = []
  sort_tiers (t ∷ ts) = insert_tier t (sort_tiers ts)

abbrev pub meets : ℤ → ℤ → LoyaltyTier → Bool
meets points turnover t = leb_ℤ t.min_points points && leb_ℤ t.min_turnover turnover

-- The loop over the sorted tiers: the last one that is met.
unfoldable pub last_met : ℤ → ℤ → LoyaltyTier → List LoyaltyTier → LoyaltyTier
last_met points turnover best [] = best
last_met points turnover best (t ∷ ts) =
    last_met points turnover (if meets points turnover t then t else best) ts

-- `pickHighestEligibleTier`; `none` is its error on an empty list.
unfoldable pub pick_highest_eligible_tier : List LoyaltyTier → ℤ → ℤ → Option LoyaltyTier
pick_highest_eligible_tier tiers points turnover = elim (sort_tiers tier_leb tiers) [
  | [] ↦ none
  | t ∷ ts ↦ some (last_met points turnover t (t ∷ ts))
]

-- `loadActiveTiers`.
unfoldable pub load_active_tiers : List LoyaltyTier → List LoyaltyTier
load_active_tiers tiers =
    sort_tiers (λ a b. leb_ℤ a.sort_order b.sort_order) (filter (λ t. not t.is_archived) tiers)

abbrev spend_amount : ℕ → Transaction → ℤ
spend_amount u t =
    if t.user_id == u && (is_spend t.type && is_completed t.status) then t.amount else pos 0

-- `SELECT SUM(amount)` of the completed spends.
unfoldable pub lifetime_spend : ℕ → List Transaction → ℤ
lifetime_spend u rows = total (spend_amount u) rows

-- `queryLifetimeSpendTurnover`: the row of the sum is taken out of the result by the pattern `[row]`,
-- and indexed once more: `row[0]?.sum ?? 0`.
unfoldable pub query_lifetime_spend_turnover : Driver → ℕ → List Transaction → ℤ
query_lifetime_spend_turnover driver u rows = elim (driver.zero_of_sum (lifetime_spend u rows)) [
  | none ↦ pos 0
  | some s ↦ s
]

abbrev is_tier : Option ℕ → LoyaltyTier → Bool
is_tier none t = false
is_tier (some k) t = t.id == k

-- `tiers.find((t) => t.id === acc.currentTierId) ?? tiers[0]`.
unfoldable pub current_tier : Option ℕ → LoyaltyTier → List LoyaltyTier → LoyaltyTier
current_tier id first [] = first
current_tier id first (t ∷ ts) = if is_tier id t then t else current_tier id first ts

abbrev pub record_upgrade : ℕ → LoyaltyTier → Trx Bool
record_upgrade u eligible = do
  update_account u (λ a. record a { current_tier_id = some eligible.id })
  log_points (record {
    user_id = u;
    points = pos 0;
    reason = PointsReason.tier_upgrade;
    reference_id = none;
  })
  pure true

abbrev pub first_tier : List LoyaltyTier → Option LoyaltyTier
first_tier [] = none
first_tier (t ∷ ts) = some t

-- `maybeUpgradeTier`: up only, and only past the rank of the current tier.
unfoldable pub maybe_upgrade_tier : Driver → ℕ → Trx Bool
maybe_upgrade_tier driver u = do
  db ← get
  acc ← or_throw (db.accounts u) Error.account_not_found
  let tiers = load_active_tiers db.tiers
  first ← or_throw (first_tier tiers) Error.loyalty_tier_not_found
  let turnover = query_lifetime_spend_turnover driver u db.transactions
  eligible ←
      or_throw (pick_highest_eligible_tier tiers acc.total_points turnover)
        Error.loyalty_tier_not_found
  let current = current_tier acc.current_tier_id first tiers
  if leb_ℤ eligible.sort_order current.sort_order then pure false else record_upgrade u eligible
