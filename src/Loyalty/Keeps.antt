-- ===== src/Loyalty/Keeps.antt =====
-- The loyalty effects of a flow move no money.
use c_zdan.Common.{ℕ, refl, Bool, true, false, ◌||◌, ltb, Bool-cases, inl, inr, if◌then◌else◌}
use c_zdan.Common.Int.{ℤ, pos, eqb_ℤ, leb_ℤ}
use c_zdan.Common.Table.{any}
use c_zdan.Schema.{PointsRow, LoyaltyTier}
use c_zdan.Store.{Clock, Driver, Ensures, log_points, pure}
use c_zdan.Store.Rules.{get_rule, or_throw_rule}
use c_zdan.Ledger.Keeps.{KeepsMoney, KeepsMoney-refl, Keeps, bind-Keeps, update_account-Keeps}
use c_zdan.Loyalty.Scoring.{
  compute_withdraw_penalty, is_penalty_for, apply_withdraw_penalty, withdraw_count,
  withdraw_cooldown_threshold, maybe_set_withdraw_cooldown,
}
use c_zdan.Loyalty.Tier.{record_upgrade, current_tier, load_active_tiers, maybe_upgrade_tier}

pub log_points-Keeps : (r : PointsRow) → Keeps (log_points r)
log_points-Keeps r db = record {
  balances = λ u. refl;
  reserves = λ u. refl;
  merchants_kept = refl;
  withdraws_kept = refl;
  topups_kept = refl;
  codes_kept = refl;
  transactions_kept = refl;
  pool_log_kept = refl;
  settlement_log_kept = refl;
}

pub apply_withdraw_penalty-Keeps :
    (u : ℕ) (amount : ℤ) (t : ℕ) → Keeps (apply_withdraw_penalty u amount t)
unfolding apply_withdraw_penalty
apply_withdraw_penalty-Keeps u amount t db =
    elim (Bool-cases
      (eqb_ℤ (compute_withdraw_penalty amount) (pos 0) || any (is_penalty_for u t) db.points_log)) [
        | inl e ↦ rw (e, Ensures) (KeepsMoney-refl db)
        | inr e ↦
            rw (e, Ensures)
              (bind-Keeps _ _ (update_account-Keeps u _ (λ a. (refl, refl)))
                (λ _. bind-Keeps _ _ (log_points-Keeps _) (λ _ d. KeepsMoney-refl d)) db)
      ]

pub maybe_set_withdraw_cooldown-Keeps :
    (clock : Clock) (u : ℕ) → Keeps (maybe_set_withdraw_cooldown clock u)
unfolding maybe_set_withdraw_cooldown
maybe_set_withdraw_cooldown-Keeps clock u db =
    elim (Bool-cases (ltb (withdraw_count clock u db.transactions) withdraw_cooldown_threshold)) [
      | inl e ↦ rw (e, Ensures) (KeepsMoney-refl db)
      | inr e ↦
          rw (e, Ensures)
            (bind-Keeps _ _ (update_account-Keeps u _ (λ a. (refl, refl)))
              (λ _ d. KeepsMoney-refl d) db)
    ]

record_upgrade-Keeps : (u : ℕ) (t : LoyaltyTier) → Keeps (record_upgrade u t)
record_upgrade-Keeps u t =
    bind-Keeps _ _ (update_account-Keeps u _ (λ a. (refl, refl)))
      (λ _. bind-Keeps _ _ (log_points-Keeps _) (λ _ d. KeepsMoney-refl d))

pub maybe_upgrade_tier-Keeps : (driver : Driver) (u : ℕ) → Keeps (maybe_upgrade_tier driver u)
unfolding maybe_upgrade_tier
maybe_upgrade_tier-Keeps driver u db = get_rule _ _ db (
    or_throw_rule _ _ _ _ db λ acc _. or_throw_rule _ _ _ _ db λ first _.
      or_throw_rule _ _ _ _ db λ eligible _. branch eligible (
        leb_ℤ eligible.sort_order
          (current_tier acc.current_tier_id first (load_active_tiers db.tiers)).sort_order))
  where
    branch :
        (t : LoyaltyTier) (b : Bool)
        → Ensures (λ _ d. KeepsMoney db d) ((if b then pure false else record_upgrade u t) db)
    branch t true = KeepsMoney-refl db
    branch t false = record_upgrade-Keeps u t db
