-- ===== src/Admin/MemberBooks.antt =====
-- The books under an operator's adjustment of a balance, and what a repeated submission does.
use c_zdan.Common.{ℕ, ◌≡◌, refl, arith, if◌then◌else◌}
use c_zdan.Common.Int.{ℤ, pos, negsuc, ◌+ℤ◌, ◌-ℤ◌, leb_ℤ, int_laws, zero_+ℤ}
use c_zdan.Common.Table.{total}
use c_zdan.Store.{Db, Clock, Driver, Ensures}
use c_zdan.Store.Rules.{
  get_rule, throw_if_rule, or_throw_rule, update_account_rule, insert_transaction_rule,
  alloc_public_no_rule,
}
use c_zdan.Ledger.{delta_for, IsConsistent}
use c_zdan.Ledger.Keeps.{Keeps, bind-Keeps, update_account-Keeps, Keeps-IsConsistent}
use c_zdan.Loyalty.Keeps.{log_points-Keeps, maybe_upgrade_tier-Keeps}
use c_zdan.PaymentCode.{Locale}
use c_zdan.Admin.{
  AdjustBalance, abs_ℤ, adjust_balance_inner, adjust_opts, adjust_balance, AwardPoints,
  credit_points, award_member_points,
}
use c_zdan.Admin.Once.{with_admin_idempotency_keeps}

-- The direction and the absolute amount make up the signed one.
signed_abs : (x : ℤ) → (if leb_ℤ x (pos 0) then pos 0 -ℤ abs_ℤ x else abs_ℤ x) ≡ x
unfolding ◌-ℤ◌
signed_abs (pos n) = ground arith
signed_abs (negsuc n) = ground arith

add_signed : (b x t : ℤ) → b ≡ t → b +ℤ x ≡ x +ℤ t
add_signed b x t e = rw e (omega int_laws)

pub remember-IsConsistent :
    (d : Db) (rows : _) → IsConsistent d → IsConsistent (record d { admin_idempotency = rows })
remember-IsConsistent d rows h = record {
  ledger = h.ledger;
  held_back = h.held_back;
  pooled = h.pooled;
  settled = h.settled;
  pool_chain = h.pool_chain;
  settlement_chain = h.settlement_chain;
  withdraws_nonneg = h.withdraws_nonneg;
  codes_nonneg = h.codes_nonneg;
  codes_keyed = h.codes_keyed;
  one_withdraw = h.one_withdraw;
  one_topup = h.one_topup;
}

adjust_balance_inner-IsConsistent :
    (clock : Clock) (tx_id : ℕ) (input : AdjustBalance) (db : Db)
    → IsConsistent db
    → Ensures (λ _ d. IsConsistent d) (adjust_balance_inner clock tx_id input db)
unfolding adjust_balance_inner total
adjust_balance_inner-IsConsistent clock tx_id input db h = get_rule _ _ db (
    or_throw_rule _ _ _ _ db λ acc ea. update_account_rule _ _ _ _ db acc ea λ _.
      alloc_public_no_rule _ _ _ _ _ λ public_no counters. insert_transaction_rule _ _ _ _ λ _.
        record {
          ledger = λ u. ground (
            arith,
            ea,
            h.ledger u,
            zero_+ℤ (total (delta_for u) db.transactions),
            signed_abs input.amount,
            add_signed acc.balance input.amount (total (delta_for u) db.transactions),
          );
          held_back = λ u. ground (arith, ea, h.held_back u);
          pooled = h.pooled;
          settled = h.settled;
          pool_chain = h.pool_chain;
          settlement_chain = h.settlement_chain;
          withdraws_nonneg = h.withdraws_nonneg;
          codes_nonneg = h.codes_nonneg;
          codes_keyed = h.codes_keyed;
          one_withdraw = h.one_withdraw;
          one_topup = h.one_topup;
        })

-- An adjustment that succeeds keeps the books consistent, whatever its lookup saw.
pub adjust_balance-IsConsistent :
    (locale : Locale) (clock : Clock) (tx_id : ℕ) (looked : Db) (input : AdjustBalance) (db : Db)
    → IsConsistent db
    → Ensures (λ _ d. IsConsistent d) (adjust_balance locale clock tx_id looked input db)
unfolding adjust_balance
adjust_balance-IsConsistent locale clock tx_id looked input db h = throw_if_rule _ _ _ _ db λ _.
    throw_if_rule _ _ _ _ db λ _.
      with_admin_idempotency_keeps IsConsistent looked (adjust_opts input) _ db
        remember-IsConsistent h (adjust_balance_inner-IsConsistent clock tx_id input db h)

credit_points-Keeps : (driver : Driver) (input : AwardPoints) → Keeps (credit_points driver input)
unfolding credit_points
credit_points-Keeps driver input =
    bind-Keeps _ _ (update_account-Keeps input.user_id _ (λ a. (refl, refl))) (λ _.
      bind-Keeps _ _ (log_points-Keeps _) (λ _. maybe_upgrade_tier-Keeps driver input.user_id))

-- An award of points moves no money.
pub award_member_points-IsConsistent :
    (locale : Locale) (driver : Driver) (input : AwardPoints) (db : Db)
    → IsConsistent db
    → Ensures (λ _ d. IsConsistent d) (award_member_points locale driver input db)
unfolding award_member_points
award_member_points-IsConsistent locale driver input db h = throw_if_rule _ _ _ _ db λ _.
    throw_if_rule _ _ _ _ db λ _. throw_if_rule _ _ _ _ db λ _. get_rule _ _ db (
      or_throw_rule _ _ _ _ db λ acc ea.
        Keeps-IsConsistent (credit_points driver input) (credit_points-Keeps driver input) db h)
