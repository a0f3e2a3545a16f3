-- ===== src/Loyalty/Penalty.antt =====
-- The withdraw penalty is taken once for each transaction.
use c_zdan.Common.{ℕ, ◌≡◌, refl, true, arith, ◌||◌, Bool-cases, inl, inr}
use c_zdan.Common.Int.{ℤ, pos, eqb_ℤ}
use c_zdan.Common.Table.{any}
use c_zdan.Store.{ok, Db, Ensures, Ensures-ok}
use c_zdan.Store.Rules.{step_ok, update_account_rule_any}
use c_zdan.Loyalty.Scoring.{compute_withdraw_penalty, is_penalty_for, apply_withdraw_penalty}

IsSpent : ℕ → ℕ → ℤ → Db → Type 0
IsSpent u t amount db =
    (eqb_ℤ (compute_withdraw_penalty amount) (pos 0) || any (is_penalty_for u t) db.points_log)
    ≡ true

apply_withdraw_penalty-IsSpent :
    (u : ℕ) (amount : ℤ) (t : ℕ) (db : Db)
    → Ensures
        (λ p d. (p ≡ compute_withdraw_penalty amount) × IsSpent u t amount d)
        (apply_withdraw_penalty u amount t db)
unfolding apply_withdraw_penalty IsSpent any
apply_withdraw_penalty-IsSpent u amount t db =
    elim (Bool-cases
      (eqb_ℤ (compute_withdraw_penalty amount) (pos 0) || any (is_penalty_for u t) db.points_log)) [
        | inl e ↦ rw (e, Ensures) (refl, e)
        | inr e ↦
            rw (e, Ensures)
              (update_account_rule_any _ _ _ _ db
                (λ _. step_ok _ _ _ _ _ _ refl (refl, ground arith))
                (λ a _. step_ok _ _ _ _ _ _ refl (refl, ground arith)))
      ]

-- After a penalty is applied for a transaction, applying it again for the same member, amount and
-- transaction changes nothing and returns the same penalty.
pub apply_withdraw_penalty_once :
    (u : ℕ) (amount : ℤ) (t : ℕ) (db db' : Db) (p : ℤ)
    → apply_withdraw_penalty u amount t db ≡ ok (p, db')
    → apply_withdraw_penalty u amount t db' ≡ ok (p, db')
apply_withdraw_penalty_once u amount t db db' p e =
    let (same, spent) = Ensures-ok _ _ (apply_withdraw_penalty-IsSpent u amount t db) e in
    unfold apply_withdraw_penalty IsSpent in rw (spent, same) refl
