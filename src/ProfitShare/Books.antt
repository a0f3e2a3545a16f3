-- ===== src/ProfitShare/Books.antt =====
-- The books under the campaigns and the claims.
use c_zdan.Common.{ℕ, refl, List, arith, ◌==◌, Bool-cases, inl, inr}
use c_zdan.Common.Int.{pos, zero_+ℤ}
use c_zdan.Common.Table.{total}
use c_zdan.Schema.{Allocation, Campaign}
use c_zdan.Store.{Db, Clock, Ensures}
use c_zdan.Store.Rules.{
  get_rule, throw_if_rule, or_throw_rule, read_rule, step_ok, update_account_rule,
  insert_transaction_rule, alloc_public_no_rule,
}
use c_zdan.Ledger.{delta_for, IsConsistent}
use c_zdan.Ledger.Laws.{add_logged}
use c_zdan.ProfitShare.{
  create_campaign, publish_campaign, close_campaign, cancel_campaign, pay_share,
  claim_profit_share_reward, Preview, PreviewInput,
}
use c_zdan.ProfitShare.Claimed.{claimable_checks}

pay_share-IsConsistent :
    (clock : Clock) (tx_id : ℕ) (a : Allocation) (db : Db)
    → IsConsistent db
    → Ensures (λ _ d. IsConsistent d) (pay_share clock tx_id a db)
unfolding pay_share total
pay_share-IsConsistent clock tx_id a db h = get_rule _ _ db (
    or_throw_rule _ _ _ _ db λ acc ea. alloc_public_no_rule _ _ _ _ _ λ public_no counters.
      insert_transaction_rule _ _ _ _ λ _. update_account_rule _ _ _ _ _ acc ea λ _.
        step_ok _ _ _ _ _ _ refl (record {
          ledger = λ u. ground (
            arith,
            ea,
            h.ledger u,
            zero_+ℤ (total (delta_for u) db.transactions),
            add_logged acc.balance (pos a.allocated_amount) (total (delta_for u) db.transactions),
          );
          held_back = λ u. ground (arith, ea, h.held_back u);
          pooled = h.pooled;
          settled = h.settled;
          pool_chain = h.pool_chain;
          settlement_chain = h.settlement_chain;
          withdraws_nonneg = h.withdraws_nonneg;
          codes_nonneg = h.codes_nonneg;
          codes_keyed = h.codes_keyed;
          one_withdraw = h.one_withdraw;
          one_topup = h.one_topup;
        }))

-- A claim that succeeds keeps the books consistent.
pub claim_profit_share_reward-IsConsistent :
    (clock : Clock) (tx_id u id : ℕ) (db : Db)
    → IsConsistent db
    → Ensures (λ _ d. IsConsistent d) (claim_profit_share_reward clock tx_id u id db)
unfolding claim_profit_share_reward
claim_profit_share_reward-IsConsistent clock tx_id u id db h =
    read_rule _ _ _ _ _ (claimable_checks clock u id db)
      λ a _. pay_share-IsConsistent clock tx_id a db h

-- The tables of the campaigns are none of the books.
with_campaigns-IsConsistent :
    (db : Db) (campaigns : List Campaign) (allocations : List Allocation) (overhead : ℕ)
    → IsConsistent db
    → IsConsistent (record db {
      campaigns = campaigns;
      allocations = allocations;
      cumulative_overhead = overhead;
    })
with_campaigns-IsConsistent db campaigns allocations overhead h = record {
  ledger = h.ledger;
  held_back = h.held_back;
  pooled = h.pooled;
  settled = h.settled;
  pool_chain = h.pool_chain;
  settlement_chain = h.settlement_chain;
  withdraws_nonneg = h.withdraws_nonneg;
  codes_nonneg = h.codes_nonneg;
  codes_keyed = h.codes_keyed;
  one_withdraw = h.one_withdraw;
  one_topup = h.one_topup;
}

pub create_campaign-IsConsistent :
    (clock : Clock) (id : ℕ) (id_of : ℕ → ℕ) (input : PreviewInput) (p : Preview) (db : Db)
    → IsConsistent db
    → Ensures (λ _ d. IsConsistent d) (create_campaign clock id id_of input p db)
unfolding create_campaign
create_campaign-IsConsistent clock id id_of input p db h =
    with_campaigns-IsConsistent db _ _ db.cumulative_overhead h

pub publish_campaign-IsConsistent :
    (clock : Clock) (snapshot counted : Db) (id : ℕ) (db : Db)
    → IsConsistent db
    → Ensures (λ _ d. IsConsistent d) (publish_campaign clock snapshot counted id db)
unfolding publish_campaign
publish_campaign-IsConsistent clock snapshot counted id db h = or_throw_rule _ _ _ _ db λ c _.
    throw_if_rule _ _ _ _ db λ _. step_ok _ _ _ _ _ _ refl (
      step_ok _ _ _ _ _ _ refl (elim (Bool-cases (c.pool_amount == 0)) [
        | inl e ↦ rw e (with_campaigns-IsConsistent db _ _ db.cumulative_overhead h)
        | inr e ↦ rw e (with_campaigns-IsConsistent db _ _ _ h)
      ]))

pub close_campaign-IsConsistent :
    (clock : Clock) (snapshot : Db) (id : ℕ) (db : Db)
    → IsConsistent db
    → Ensures (λ _ d. IsConsistent d) (close_campaign clock snapshot id db)
unfolding close_campaign
close_campaign-IsConsistent clock snapshot id db h = or_throw_rule _ _ _ _ db λ c _.
    throw_if_rule _ _ _ _ db
      λ _. step_ok _ _ _ _ _ _ refl (with_campaigns-IsConsistent db _ _ db.cumulative_overhead h)

pub cancel_campaign-IsConsistent :
    (clock : Clock) (snapshot : Db) (id : ℕ) (db : Db)
    → IsConsistent db
    → Ensures (λ _ d. IsConsistent d) (cancel_campaign clock snapshot id db)
unfolding cancel_campaign
cancel_campaign-IsConsistent clock snapshot id db h = or_throw_rule _ _ _ _ db λ c _.
    throw_if_rule _ _ _ _ db
      λ _. with_campaigns-IsConsistent db _ db.allocations db.cumulative_overhead h
