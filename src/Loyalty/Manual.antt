-- ===== src/Loyalty/Manual.antt =====
-- apps/api/src/services/loyalty-tier.service.ts: `setMemberTier`, an operator's change of a tier. The
-- turnover goes into the metadata only, and is left out.
use c_zdan.Common.{
  ℕ, inl, inr, Bool-cases, Bool, refl, true, false, none, some, String, str_eq, ◌==◌, if◌then◌else◌,
}
use c_zdan.Common.Int.{pos, ltb_ℤ}
use c_zdan.Common.Table.{find}
use c_zdan.Schema.{LoyaltyTier, PointsReason}
use c_zdan.Store.{
  Error, Ensures, Trx, ◌>>=◌, ◌>>◌, pure, get, throw_if, or_throw, update_account, log_points,
}
use c_zdan.Store.Rules.{throw_if_rule, get_rule, or_throw_rule}
use c_zdan.Ledger.{IsConsistent}
use c_zdan.Ledger.Keeps.{
  KeepsMoney-refl, Keeps, bind-Keeps, update_account-Keeps, Keeps-IsConsistent,
}
use c_zdan.Loyalty.{tier_id, load_active_tiers, current_tier, first_tier}
use c_zdan.Loyalty.Keeps.{log_points-Keeps}

abbrev pub tier_reason : LoyaltyTier → LoyaltyTier → PointsReason
tier_reason new current =
    if ltb_ℤ new.sort_order current.sort_order
    then PointsReason.tier_downgrade
    else PointsReason.tier_upgrade

abbrev pub record_tier : ℕ → LoyaltyTier → LoyaltyTier → Trx Bool
record_tier u new current = do
  update_account u (λ a. record a { current_tier_id = some new.id })
  log_points (record {
    user_id = u;
    points = pos 0;
    reason = tier_reason new current;
    reference_id = none;
  })
  pure true

-- The writes; `true` where the tier changed.
unfoldable pub move_tier : ℕ → LoyaltyTier → LoyaltyTier → Trx Bool
move_tier u new current = if new.id == current.id then pure false else record_tier u new current

unfoldable pub set_member_tier : (String → String) → ℕ → ℕ → String → Trx Bool
set_member_tier trim u tier reason = do
  throw_if (str_eq (trim reason) "") Error.reason_required
  db ← get
  acc ← or_throw (db.accounts u) Error.account_not_found
  let tiers = load_active_tiers db.tiers
  new ← or_throw (find tier_id tier tiers) Error.loyalty_tier_not_found
  first ← or_throw (first_tier tiers) Error.type_error
  move_tier u new (current_tier acc.current_tier_id first tiers)

move_tier-Keeps : (u : ℕ) (new current : LoyaltyTier) → Keeps (move_tier u new current)
unfolding move_tier
move_tier-Keeps u new current db = elim (Bool-cases (new.id == current.id)) [
  | inl e ↦ rw (e, Ensures) (KeepsMoney-refl db)
  | inr e ↦
      rw (e, Ensures)
        (bind-Keeps _ _ (update_account-Keeps u _ (λ a. (refl, refl)))
          (λ _. bind-Keeps _ _ (log_points-Keeps _) (λ _ d. KeepsMoney-refl d)) db)
]

-- A change of tier moves no money.
pub set_member_tier-IsConsistent :
    (trim : String → String) (u tier : ℕ) (reason : String) (db : _)
    → IsConsistent db
    → Ensures (λ _ d. IsConsistent d) (set_member_tier trim u tier reason db)
unfolding set_member_tier
set_member_tier-IsConsistent trim u tier reason db h = throw_if_rule _ _ _ _ db λ _.
    get_rule _ _ db (
      or_throw_rule _ _ _ _ db λ acc _. or_throw_rule _ _ _ _ db λ new _.
        or_throw_rule _ _ _ _ db
          λ first _. Keeps-IsConsistent (move_tier u new _) (move_tier-Keeps u new _) db h)
