-- ===== src/Admin/MerchantBooks.antt =====
-- The books under an operator's settlements and changes of cash pools: kept where the unlocked read
-- saw the current row, and broken where another transaction changed the pool in between.
use c_zdan.Common.{◌+◌, ◌≡◌, refl, true, arith, Bool-cases, inl, inr, sym, ◌∙◌}
use c_zdan.Common.Int.{
  ℤ, pos, ◌+ℤ◌, ◌-ℤ◌, eqb_ℤ, int_laws, zero_+ℤ, pos_part, neg_part, eq_of_parts,
}
use c_zdan.Common.Table.{total}
use c_zdan.Store.{Db, Clock, Ensures}
use c_zdan.Store.Rules.{throw_if_rule, or_throw_rule, step_ok, update_merchant_rule}
use c_zdan.Ledger.{change_for, settlement_for, IsConsistent}
use c_zdan.PaymentCode.{Locale}
use c_zdan.Admin.{
  MerchantChange, settle_manually, record_manual_settlement, change_opts, adjust_pool,
  adjust_cash_pool, overwrite_pool, set_cash_pool,
}
use c_zdan.Admin.Once.{with_admin_idempotency_keeps}
use c_zdan.Admin.MemberBooks.{remember-IsConsistent}

add_change : (b x t : ℤ) → b ≡ t → b +ℤ x ≡ x +ℤ t
add_change b x t e = rw e (omega int_laws)

set_change : (b x t : ℤ) → b ≡ t → x ≡ x -ℤ b +ℤ t
set_change b x t e = rw e (omega int_laws)

set_chained : (b x : ℤ) → b +ℤ (x -ℤ b) ≡ x
set_chained b x = omega int_laws

no_change_parts :
    (b x : ℤ)
    → pos_part (x -ℤ b) + 0 ≡ 0 + neg_part (x -ℤ b)
    → pos_part x + neg_part b ≡ pos_part b + neg_part x
no_change_parts b x h = omega int_laws

no_change : (b x : ℤ) → eqb_ℤ (x -ℤ b) (pos 0) ≡ true → x ≡ b
no_change b x e = eq_of_parts x b (no_change_parts b x (ground (arith, e)))

module _ (snapshot : Db) (input : MerchantChange) (db : Db)
    (current : snapshot.merchants input.merchant_id ≡ db.merchants input.merchant_id) where
  settle_manually-IsConsistent :
      IsConsistent db → Ensures (λ _ d. IsConsistent d) (settle_manually snapshot input db)
  unfolding settle_manually total
  settle_manually-IsConsistent h = or_throw_rule _ _ _ _ db λ m em. throw_if_rule _ _ _ _ db λ _.
      update_merchant_rule _ _ _ _ db m (sym current ∙ em) λ _. step_ok _ _ _ _ _ _ refl (record {
        ledger = h.ledger;
        held_back = h.held_back;
        pooled = λ n. ground (arith, sym current ∙ em, h.pooled n);
        settled = λ n. ground (
          arith,
          sym current ∙ em,
          h.settled n,
          zero_+ℤ (total (settlement_for n) db.settlement_log),
          add_change m.balance input.amount (total (settlement_for n) db.settlement_log),
        );
        pool_chain = h.pool_chain;
        settlement_chain = (refl, h.settlement_chain);
        withdraws_nonneg = h.withdraws_nonneg;
        codes_nonneg = h.codes_nonneg;
        codes_keyed = h.codes_keyed;
        one_withdraw = h.one_withdraw;
        one_topup = h.one_topup;
      })

  adjust_pool-IsConsistent :
      (clock : Clock)
      → IsConsistent db
      → Ensures (λ _ d. IsConsistent d) (adjust_pool clock snapshot input db)
  unfolding adjust_pool total
  adjust_pool-IsConsistent clock h = or_throw_rule _ _ _ _ db λ m em. throw_if_rule _ _ _ _ db λ _.
      throw_if_rule _ _ _ _ db λ _. update_merchant_rule _ _ _ _ db m (sym current ∙ em) λ _.
        step_ok _ _ _ _ _ _ refl (record {
          ledger = h.ledger;
          held_back = h.held_back;
          pooled = λ n. ground (
            arith,
            sym current ∙ em,
            h.pooled n,
            zero_+ℤ (total (change_for n) db.pool_log),
            add_change m.cash_pool input.amount (total (change_for n) db.pool_log),
          );
          settled = λ n. ground (arith, sym current ∙ em, h.settled n);
          pool_chain = (refl, h.pool_chain);
          settlement_chain = h.settlement_chain;
          withdraws_nonneg = h.withdraws_nonneg;
          codes_nonneg = h.codes_nonneg;
          codes_keyed = h.codes_keyed;
          one_withdraw = h.one_withdraw;
          one_topup = h.one_topup;
        })

  overwrite_pool-IsConsistent :
      (clock : Clock)
      → IsConsistent db
      → Ensures (λ _ d. IsConsistent d) (overwrite_pool clock snapshot input db)
  unfolding overwrite_pool total
  overwrite_pool-IsConsistent clock h = or_throw_rule _ _ _ _ db λ m em.
      update_merchant_rule _ _ _ _ db m (sym current ∙ em) λ _.
        elim (Bool-cases (eqb_ℤ (input.amount -ℤ m.cash_pool) (pos 0))) [
          | inl z ↦ rw z (
              step_ok _ _ _ _ _ _ refl (record {
                ledger = h.ledger;
                held_back = h.held_back;
                pooled = λ n.
                    ground
                      (arith, sym current ∙ em, h.pooled n, no_change m.cash_pool input.amount z);
                settled = λ n. ground (arith, sym current ∙ em, h.settled n);
                pool_chain = h.pool_chain;
                settlement_chain = h.settlement_chain;
                withdraws_nonneg = h.withdraws_nonneg;
                codes_nonneg = h.codes_nonneg;
                codes_keyed = h.codes_keyed;
                one_withdraw = h.one_withdraw;
                one_topup = h.one_topup;
              }))
          | inr nz ↦ rw nz (
              step_ok _ _ _ _ _ _ refl (record {
                ledger = h.ledger;
                held_back = h.held_back;
                pooled = λ n. ground (
                  arith,
                  sym current ∙ em,
                  h.pooled n,
                  zero_+ℤ (total (change_for n) db.pool_log),
                  set_change m.cash_pool input.amount (total (change_for n) db.pool_log),
                );
                settled = λ n. ground (arith, sym current ∙ em, h.settled n);
                pool_chain = (set_chained m.cash_pool input.amount, h.pool_chain);
                settlement_chain = h.settlement_chain;
                withdraws_nonneg = h.withdraws_nonneg;
                codes_nonneg = h.codes_nonneg;
                codes_keyed = h.codes_keyed;
                one_withdraw = h.one_withdraw;
                one_topup = h.one_topup;
              }))
        ]

  -- A settlement that succeeds keeps the books consistent, whatever its lookup saw, if its unlocked
  -- read saw the merchant as it is.
  pub record_manual_settlement-IsConsistent :
      (looked : Db)
      → IsConsistent db
      → Ensures (λ _ d. IsConsistent d) (record_manual_settlement looked snapshot input db)
  unfolding record_manual_settlement
  record_manual_settlement-IsConsistent looked h = throw_if_rule _ _ _ _ db λ _.
      with_admin_idempotency_keeps IsConsistent looked
        (change_opts "merchant.manual_settlement" input) _ db remember-IsConsistent h
        (settle_manually-IsConsistent h)

  pub adjust_cash_pool-IsConsistent :
      (locale : Locale) (clock : Clock) (looked : Db)
      → IsConsistent db
      → Ensures (λ _ d. IsConsistent d) (adjust_cash_pool locale clock looked snapshot input db)
  unfolding adjust_cash_pool
  adjust_cash_pool-IsConsistent locale clock looked h = throw_if_rule _ _ _ _ db λ _.
      throw_if_rule _ _ _ _ db λ _.
        with_admin_idempotency_keeps IsConsistent looked
          (change_opts "merchant.cash_pool_adjust" input) _ db remember-IsConsistent h
          (adjust_pool-IsConsistent clock h)

  pub set_cash_pool-IsConsistent :
      (clock : Clock) (looked : Db)
      → IsConsistent db
      → Ensures (λ _ d. IsConsistent d) (set_cash_pool clock looked snapshot input db)
  unfolding set_cash_pool
  set_cash_pool-IsConsistent clock looked h = throw_if_rule _ _ _ _ db λ _.
      with_admin_idempotency_keeps IsConsistent looked (change_opts "merchant.cash_pool_set" input)
        _ db remember-IsConsistent h (overwrite_pool-IsConsistent clock h)
