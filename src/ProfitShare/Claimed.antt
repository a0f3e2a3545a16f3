-- ===== src/ProfitShare/Claimed.antt =====
-- What a claim requires and leaves, and that no allocation is paid twice.
use c_zdan.Common.{
  ℕ, ◌+◌, ◌≤◌, ◌≡◌, ◌≢◌, refl, sym, ◌∙◌, subst, true, false, some, arith, ltb, Bool-cases, inl, inr,
}
use c_zdan.Common.Int.{pos, ◌+ℤ◌}
use c_zdan.Common.Table.{find, find-modify_self, find-key}
use c_zdan.Schema.{Allocation, allocation_id, Campaign, campaign_id}
use c_zdan.Store.{
  Error, ok, err, run_tx, Db, Clock, Ensures, Ensures-ok, Ensures-map, get, throw_if, or_throw,
  ◌>>=◌, Trx,
}
use c_zdan.Store.Rules.{
  get_rule, throw_if_rule, or_throw_rule, read_rule, step_ok, step_err, update_account_rule,
  insert_transaction_rule, alloc_public_no_rule,
}
use c_zdan.Ledger.{balance_of}
use c_zdan.ProfitShare.{
  is_published, is_claimed, is_expired, check_expiry, claimable, mark_claimed, pay_share,
  claim_profit_share_reward, ClaimOutput,
}

-- What `claimable` has checked.
pub record IsClaimable (clock : Clock) (u id : ℕ) (db : Db) (a : Allocation) : Type 0 where
  pub there : find allocation_id id db.allocations ≡ some a
  pub campaign : Campaign
  pub shared : find campaign_id a.campaign_id db.campaigns ≡ some campaign
  pub own : a.user_id ≡ u
  pub published : is_published campaign.status ≡ true
  pub unclaimed : is_claimed a.status ≡ false
  pub unexpired : is_expired a.status ≡ false
  pub in_time : clock.now ≤ a.expires_at
  pub of_worth : a.allocated_amount ≢ 0

check_expiry_rule :
    {B : Type 0} (Q : B → Db → Type 0) (clock : Clock) (a : Allocation) (f : Unit {0} → Trx B)
    (db : Db)
    → (clock.now ≤ a.expires_at → Ensures Q (f tt db))
    → Ensures Q ((check_expiry clock a >>= f) db)
unfolding check_expiry ◌>>=◌
check_expiry_rule Q clock a f db h = elim (Bool-cases (ltb a.expires_at clock.now)) [
  | inl late ↦ step_err Q (check_expiry clock a) f db Error.expired (rw (late, check_expiry))
  | inr in_time ↦
      step_ok Q (check_expiry clock a) f db tt db (rw (in_time, check_expiry)) (h (ground arith))
]

pub claimable_checks :
    (clock : Clock) (u id : ℕ) (db : Db)
    → Ensures (λ a d. (d ≡ db) × IsClaimable clock u id db a) (claimable clock u id db)
unfolding claimable
claimable_checks clock u id db = get_rule _ _ db (
    or_throw_rule _ _ _ _ db λ a there. or_throw_rule _ _ _ _ db λ c shared.
      throw_if_rule _ _ _ _ db λ own. throw_if_rule _ _ _ _ db λ published.
        throw_if_rule _ _ _ _ db λ unclaimed. throw_if_rule _ _ _ _ db λ unexpired.
          check_expiry_rule _ clock a _ db λ in_time. throw_if_rule _ _ _ _ db λ worth. (
            refl,
            record {
              there = there;
              campaign = c;
              shared = shared;
              own = ground arith;
              published = ground arith;
              unclaimed = unclaimed;
              unexpired = unexpired;
              in_time = in_time;
              of_worth = ground arith;
            },
          ))

claim_again :
    (clock : Clock) (tx_id u id : ℕ) (db : Db) (a : Allocation) (c : Campaign)
    → find allocation_id id db.allocations ≡ some a
    → find campaign_id a.campaign_id db.campaigns ≡ some c
    → a.user_id ≡ u
    → is_published c.status ≡ true
    → is_claimed a.status ≡ true
    → claim_profit_share_reward clock tx_id u id db ≡ err Error.already_claimed
unfolding claim_profit_share_reward claimable get or_throw throw_if ◌>>=◌
claim_again clock tx_id u id db a c there shared own published done = ground arith

-- What a payment leaves.
record IsPaid (a : Allocation) (db : Db) (r : ClaimOutput) (d : Db) : Type 0 where
  amount : r.amount ≡ a.allocated_amount
  credited : balance_of d a.user_id ≡ balance_of db a.user_id +ℤ pos a.allocated_amount
  marked :
      (b : Allocation) × ((find allocation_id a.id d.allocations ≡ some b)
        × ((b.campaign_id ≡ a.campaign_id)
            × ((b.user_id ≡ a.user_id) × (is_claimed b.status ≡ true))))
  campaigns : d.campaigns ≡ db.campaigns

module _ (clock : Clock) (tx_id : ℕ) (a : Allocation) (db : Db) where
  pay_share-IsPaid :
      find allocation_id a.id db.allocations ≡ some a
      → Ensures (λ r d. IsPaid a db r d) (pay_share clock tx_id a db)
  unfolding pay_share
  pay_share-IsPaid there = get_rule _ _ db (
      or_throw_rule _ _ _ _ db λ acc ea. alloc_public_no_rule _ _ _ _ _ λ public_no counters.
        insert_transaction_rule _ _ _ _ λ _. update_account_rule _ _ _ _ _ acc ea λ _.
          step_ok _ _ _ _ _ _ refl (record {
            amount = refl;
            credited = ground (arith, ea);
            marked = (
              mark_claimed clock tx_id a,
              (
                find-modify_self allocation_id a.id (mark_claimed clock tx_id) db.allocations a
                    there refl,
                (refl, (refl, refl)),
              ),
            );
            campaigns = refl;
          }))

claim_pays :
    (clock : Clock) (tx_id u id : ℕ) (db : Db)
    → Ensures
        (λ r d. (a : Allocation) × (IsClaimable clock u id db a × IsPaid a db r d))
        (claim_profit_share_reward clock tx_id u id db)
unfolding claim_profit_share_reward
claim_pays clock tx_id u id db = read_rule _ _ _ _ _ (claimable_checks clock u id db) λ a c.
    Ensures-map _ _ (pay_share clock tx_id a db) (λ r d p. (a, (c, p)))
      (pay_share-IsPaid clock tx_id a db (
        subst (λ k. find allocation_id k db.allocations ≡ some a)
          (sym (find-key allocation_id id db.allocations a c.there)) c.there))

-- A claim that succeeds is for a pending allocation of the member in a published campaign that has not
-- run out; it pays exactly the allocated amount, more than nothing, to the member's balance; and
-- every later claim of the allocation by the member, in that state, is refused as already claimed.
pub claim_profit_share_reward_once :
    (clock : Clock) (tx_id u id : ℕ) (db : Db) (r : ClaimOutput) (d : Db) (clock' : Clock)
    (tx_id' : ℕ)
    → claim_profit_share_reward clock tx_id u id db ≡ ok (r, d)
    → (a : Allocation) × (IsClaimable clock u id db a
        × ((r.amount ≡ a.allocated_amount)
            × ((balance_of d u ≡ balance_of db u +ℤ pos r.amount)
                × (claim_profit_share_reward clock' tx_id' u id d ≡ err Error.already_claimed))))
claim_profit_share_reward_once clock tx_id u id db r d clock' tx_id' e =
    let (a, (c, p)) = Ensures-ok _ _ (claim_pays clock tx_id u id db) e in
    let (b, (there, (campaign, (owner, done)))) = p.marked in
    (
      a,
      (
        c,
        (
          p.amount,
          (
            rw (p.amount, ← c.own) p.credited,
            claim_again clock' tx_id' u id d b c.campaign
                (rw (← find-key allocation_id id db.allocations a c.there) there)
                (rw (campaign, p.campaigns) c.shared) (owner ∙ c.own) c.published done,
          ),
        ),
      ),
    )

-- A claim after the expiry of an allocation that is otherwise the member's to claim is refused as
-- expired and leaves the state as it was: the allocation stays pending.
pub claim_late_unmarked :
    (clock : Clock) (tx_id u id : ℕ) (db : Db) (a : Allocation) (c : Campaign)
    → find allocation_id id db.allocations ≡ some a
    → find campaign_id a.campaign_id db.campaigns ≡ some c
    → a.user_id ≡ u
    → is_published c.status ≡ true
    → is_claimed a.status ≡ false
    → is_expired a.status ≡ false
    → a.expires_at + 1 ≤ clock.now
    → run_tx (claim_profit_share_reward clock tx_id u id) db ≡ (err Error.expired, db)
unfolding claim_profit_share_reward claimable check_expiry get or_throw throw_if ◌>>=◌
claim_late_unmarked clock tx_id u id db a c there shared own published unclaimed unexpired late =
    ground arith
