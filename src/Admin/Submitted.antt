-- ===== src/Admin/Submitted.antt =====
-- What a repeated submission of an adjustment does: answered before, or still being answered.
use c_zdan.Common.{ℕ, ◌≡◌, refl, ap, ◌∙◌, true, false, none, some, String, str_eq, arith}
use c_zdan.Common.Int.{pos, ◌+ℤ◌, eqb_ℤ}
use c_zdan.Store.{ok, Db, Clock, Ensures, Ensures-ok, throw_if, ◌>>=◌}
use c_zdan.Store.Rules.{
  get_rule, throw_if_rule, or_throw_rule, update_account_rule, insert_transaction_rule,
  alloc_public_no_rule,
}
use c_zdan.Ledger.{balance_of}
use c_zdan.PaymentCode.{Locale}
use c_zdan.Admin.{
  AdjustBalance, adjust_balance_inner, adjust_opts, adjust_balance, given_key, stored_result,
  AdminOutcome,
}
use c_zdan.Admin.Once.{
  with_admin_idempotency_replay, with_admin_idempotency_stores, with_admin_idempotency_runs,
}

adjust_balance_inner_quiet :
    (clock : Clock) (tx_id : ℕ) (input : AdjustBalance) (db : Db)
    → Ensures
        (λ _ d. d.admin_idempotency ≡ db.admin_idempotency)
        (adjust_balance_inner clock tx_id input db)
unfolding adjust_balance_inner
adjust_balance_inner_quiet clock tx_id input db = get_rule _ _ db (
    or_throw_rule _ _ _ _ db λ acc ea. update_account_rule _ _ _ _ db acc ea λ _.
      alloc_public_no_rule _ _ _ _ _
        λ public_no counters. insert_transaction_rule _ _ _ _ λ _. refl)

adjust_balance_stores :
    (locale : Locale) (clock : Clock) (tx_id : ℕ) (looked : Db) (input : AdjustBalance) (db : Db)
    (k : String)
    → given_key input.idempotency_key ≡ some k
    → looked.admin_idempotency ≡ db.admin_idempotency
    → Ensures
        (λ o d.
          stored_result input.actor_id "member.balance_adjust" k d.admin_idempotency
          ≡ some o.result)
        (adjust_balance locale clock tx_id looked input db)
unfolding adjust_balance
adjust_balance_stores locale clock tx_id looked input db k given fresh =
    throw_if_rule _ _ _ _ db λ _. throw_if_rule _ _ _ _ db λ _.
      with_admin_idempotency_stores (adjust_opts input) k given looked _ db fresh
        (adjust_balance_inner_quiet clock tx_id input db)

-- After an adjustment with a key succeeded, whose lookup saw the current table, a submission of the
-- same operator with the same key, whatever else it asks with a reason and an amount, changes
-- nothing and returns the first result, marked as a repetition; its lookup sees the table as the
-- first submission left it.
pub adjust_balance_once :
    (locale : Locale) (clock : Clock) (tx_id : ℕ) (looked : Db) (input : AdjustBalance) (db : Db)
    (k : String) (o : AdminOutcome) (d : Db)
    → given_key input.idempotency_key ≡ some k
    → looked.admin_idempotency ≡ db.admin_idempotency
    → adjust_balance locale clock tx_id looked input db ≡ ok (o, d)
    → (locale' : Locale) (clock' : Clock) (tx_id' : ℕ) (looked' : Db) (input' : AdjustBalance)
      (db' : Db)
    → input'.actor_id ≡ input.actor_id
    → input'.idempotency_key ≡ input.idempotency_key
    → str_eq (locale'.trim input'.reason) "" ≡ false
    → eqb_ℤ input'.amount (pos 0) ≡ false
    → looked'.admin_idempotency ≡ d.admin_idempotency
    → adjust_balance locale' clock' tx_id' looked' input' db'
      ≡ ok (record { result = o.result; idempotent = true }, db')
unfolding adjust_balance throw_if ◌>>=◌
adjust_balance_once locale clock tx_id looked input db k o d given fresh e locale' clock' tx_id'
      looked' input' db' same_actor same_key reason amount after =
    rw (reason, amount)
      (with_admin_idempotency_replay (adjust_opts input') k (ap given_key same_key ∙ given) looked'
        _ o.result db' (rw (after, same_actor) stored))
  where
    stored :
        stored_result input.actor_id "member.balance_adjust" k d.admin_idempotency ≡ some o.result
    stored =
        Ensures-ok _ _ (adjust_balance_stores locale clock tx_id looked input db k given fresh) e

adjust_balance_inner_adds :
    (clock : Clock) (tx_id : ℕ) (input : AdjustBalance) (db : Db)
    → Ensures
        (λ _ d. balance_of d input.user_id ≡ balance_of db input.user_id +ℤ input.amount)
        (adjust_balance_inner clock tx_id input db)
unfolding adjust_balance_inner
adjust_balance_inner_adds clock tx_id input db = get_rule _ _ db (
    or_throw_rule _ _ _ _ db λ acc ea. update_account_rule _ _ _ _ db acc ea λ _.
      alloc_public_no_rule _ _ _ _ _
        λ public_no counters. insert_transaction_rule _ _ _ _ λ _. ground (arith, ea))

-- An adjustment whose lookup misses its key is made.
adjust_balance_adds :
    (locale : Locale) (clock : Clock) (tx_id : ℕ) (looked : Db) (input : AdjustBalance) (db : Db)
    (k : String)
    → given_key input.idempotency_key ≡ some k
    → stored_result input.actor_id "member.balance_adjust" k looked.admin_idempotency ≡ none
    → Ensures
        (λ _ d. balance_of d input.user_id ≡ balance_of db input.user_id +ℤ input.amount)
        (adjust_balance locale clock tx_id looked input db)
unfolding adjust_balance
adjust_balance_adds locale clock tx_id looked input db k given miss = throw_if_rule _ _ _ _ db λ _.
    throw_if_rule _ _ _ _ db λ _.
      with_admin_idempotency_runs (adjust_opts input) k given
        (λ d. balance_of d input.user_id ≡ balance_of db input.user_id +ℤ input.amount) looked _ db
        miss (λ d rows q. q) (adjust_balance_inner_adds clock tx_id input db)

-- Two submissions with one key whose lookups both miss it, since neither had committed, are both
-- made where both succeed: the member's balance moves by twice the amount.
pub adjust_balance_races :
    (locale : Locale) (clock clock' : Clock) (tx_id tx_id' : ℕ) (looked : Db)
    (input : AdjustBalance) (db : Db) (k : String) (o o' : AdminOutcome) (d d' : Db)
    → given_key input.idempotency_key ≡ some k
    → stored_result input.actor_id "member.balance_adjust" k looked.admin_idempotency ≡ none
    → adjust_balance locale clock tx_id looked input db ≡ ok (o, d)
    → adjust_balance locale clock' tx_id' looked input d ≡ ok (o', d')
    → balance_of d' input.user_id ≡ balance_of db input.user_id +ℤ input.amount +ℤ input.amount
adjust_balance_races locale clock clock' tx_id tx_id' looked input db k o o' d d' given miss e e' =
    Ensures-ok _ _ (adjust_balance_adds locale clock' tx_id' looked input d k given miss) e'
    ∙ ap (λ b. b +ℤ input.amount)
        (Ensures-ok _ _ (adjust_balance_adds locale clock tx_id looked input db k given miss) e)
