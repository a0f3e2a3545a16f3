-- ===== src/PaymentCode/Opening.antt =====
-- The books stay balanced when a payment code is created.
use c_zdan.Common.{ℕ, List, [], ◌∷◌, not, ◌||◌, ◌==◌, ◌≡◌, refl, true, false, arith}
use c_zdan.Common.Int.{zero_+ℤ}
use c_zdan.Common.Table.{total, any}
use c_zdan.Schema.{PaymentCode}
use c_zdan.Store.{code_fits, Db, Clock, Ensures}
use c_zdan.Store.Rules.{
  get_rule, throw_if_rule, or_throw_rule, update_account_rule, insert_code_rule,
}
use c_zdan.Loyalty.{Score}
use c_zdan.Ledger.{open_for, active_for, has_code_id, reserved_of, IsConsistent}
use c_zdan.Ledger.Laws.{hold_second}
use c_zdan.PaymentCode.Create.{CodeRequest, create_payment_code}

fresh_key :
    (rows : List PaymentCode) (id code : ℕ)
    → not (any (λ r. r.id == id || r.code == code) rows) ≡ true
    → any (has_code_id id) rows ≡ false
unfolding any
fresh_key [] id code h = refl
fresh_key (c ∷ rows) id code h = ground (arith, fresh_key rows id code)

-- A code that is created keeps the books consistent, whatever the draws, the score and the
-- state that the count of active codes saw.
pub create_payment_code-IsConsistent :
    (score : Score) (draws : ℕ → ℕ) (clock : Clock) (id : ℕ) (snapshot : Db) (input : CodeRequest)
    (db : Db)
    → IsConsistent db
    → Ensures
        (λ _ db'. IsConsistent db')
        (create_payment_code score draws clock id snapshot input db)
unfolding create_payment_code total code_fits
create_payment_code-IsConsistent score draws clock id snapshot input db h =
    throw_if_rule _ _ _ _ db λ positive. throw_if_rule _ _ _ _ db λ _. throw_if_rule _ _ _ _ db λ _.
      get_rule _ _ db (
        or_throw_rule _ _ _ _ db λ acc ea. throw_if_rule _ _ _ _ db λ _.
          or_throw_rule _ _ _ _ db λ first _. or_throw_rule _ _ _ _ db λ code _.
            insert_code_rule _ _ _ _ λ fits. update_account_rule _ _ _ _ _ acc ea λ _. record {
              ledger = λ u. ground (arith, h.ledger u, ea);
              held_back = λ u. ground (
                arith,
                h.held_back u,
                ea,
                zero_+ℤ (total (active_for u) db.codes),
                hold_second (reserved_of db u) input.amount (total (open_for u) db.withdraws)
                    (total (active_for u) db.codes),
              );
              pooled = h.pooled;
              settled = h.settled;
              pool_chain = h.pool_chain;
              settlement_chain = h.settlement_chain;
              withdraws_nonneg = h.withdraws_nonneg;
              codes_nonneg = (ground (arith, positive), h.codes_nonneg);
              codes_keyed = (fresh_key db.codes id code fits, h.codes_keyed);
              one_withdraw = h.one_withdraw;
              one_topup = h.one_topup;
            })
