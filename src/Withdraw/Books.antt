-- ===== src/Withdraw/Books.antt =====
-- The books stay balanced under a withdraw.
use c_zdan.Common.{ℕ, ◌≡◌, refl, arith, some, false, Option-cases, Bool-cases, true, inl, inr}
use c_zdan.Common.Int.{ℤ, pos, ◌-ℤ◌, zero_+ℤ, ltb_ℤ, leb_ℤ}
use c_zdan.Common.Table.{put, total, any, count}
use c_zdan.Schema.{merchant_checks, Account, Merchant, is_open_for}
use c_zdan.Store.{no_available_provider, check_violation, Db, Clock, Ensures, Trx, ◌>>=◌}
use c_zdan.Store.Rules.{
  step_ok, step_err, or_throw_end, throw_if_end, get_rule, throw_if_rule, or_throw_rule, read_rule,
  update_account_rule, insert_withdraw_rule, alloc_public_no_rule,
}
use c_zdan.Ledger.{change_for, open_for, active_for, reserved_of, IsConsistent}
use c_zdan.Ledger.Laws.{take_logged, take_chained, hold_first, count-none}
use c_zdan.Withdraw.Request.{
  take_pool, may_reserve, WithdrawRequest, reserve_pool, validate_fields, request_withdraw,
  book_withdraw, accept_withdraw,
}
use c_zdan.Withdraw.Routing.{Picked}

-- What `accept_withdraw` has checked.
pub record IsAccepted (db : Db) (input : WithdrawRequest) : Type 0 where
  pub positive : leb_ℤ input.amount (pos 0) ≡ false
  pub none_open : any (is_open_for input.user_id) db.withdraws ≡ false
  pub acc : Account
  pub found : db.accounts input.user_id ≡ some acc
  pub covered : ltb_ℤ (acc.balance -ℤ acc.reserved_balance) input.amount ≡ false

pub accept_withdraw_checks :
    (clock : Clock) (snapshot : Db) (input : WithdrawRequest) (db : Db)
    → Ensures (λ p db'. (db' ≡ db) × IsAccepted db input) (accept_withdraw clock snapshot input db)
unfolding accept_withdraw
accept_withdraw_checks clock snapshot input db = throw_if_rule _ _ _ _ db λ positive.
    get_rule _ _ db (
      throw_if_rule _ _ _ _ db λ none_open. or_throw_rule _ _ _ _ db λ acc found.
        throw_if_rule _ _ _ _ db λ covered. or_throw_end _ _ _ db λ picked e. (
          refl,
          record {
            positive = positive;
            none_open = none_open;
            acc = acc;
            found = found;
            covered = covered;
          },
        ))

pub validate_fields_reads :
    (input : WithdrawRequest) (db : Db)
    → Ensures (λ _ db'. (db' ≡ db) × Unit {0}) (validate_fields input db)
unfolding validate_fields
validate_fields_reads input db = throw_if_rule _ _ _ _ db λ _.
    throw_if_rule _ _ _ _ db
      λ _. throw_if_rule _ _ _ _ db λ _. throw_if_end _ _ _ db λ _. (refl, tt)

pub reserve_pool_rule :
    {B : Type 0} (Q : B → Db → Type 0) (clock : Clock) (id : ℕ) (net : ℤ) (k : ℤ → Trx B) (db : Db)
    → ((m : Merchant)
        → db.merchants id ≡ some m
        → may_reserve net m ≡ true
        → Ensures Q (
            k
              (m.cash_pool -ℤ net)
              (record db { merchants = put id (take_pool clock net m) db.merchants })))
    → Ensures Q ((reserve_pool clock id net >>= k) db)
unfolding reserve_pool
reserve_pool_rule Q clock id net k db h = elim (Option-cases (db.merchants id)) [
  | inl e ↦ step_err Q (reserve_pool clock id net) k db no_available_provider (rw (e, reserve_pool))
  | inr (m, e) ↦ elim (Bool-cases (may_reserve net m)) [
    | inr f ↦ step_err Q (reserve_pool clock id net) k db no_available_provider (ground arith)
    | inl t ↦ elim (Bool-cases (merchant_checks (take_pool clock net m))) [
      | inl c ↦
          step_ok Q (reserve_pool clock id net) k db (m.cash_pool -ℤ net)
            (record db { merchants = put id (take_pool clock net m) db.merchants }) (ground arith)
            (h m e t)
      | inr c ↦ step_err Q (reserve_pool clock id net) k db check_violation (ground arith)
    ]
  ]
]

book_withdraw-IsConsistent :
    (clock : Clock) (id : ℕ) (input : WithdrawRequest) (picked : Picked) (db : Db)
    → IsConsistent db
    → IsAccepted db input
    → Ensures (λ _ db'. IsConsistent db') (book_withdraw clock id input picked db)
unfolding book_withdraw total count
book_withdraw-IsConsistent clock id input picked db h ok =
    reserve_pool_rule _ _ _ _ _ db λ m em free.
      read_rule _ _ _ _ _ (validate_fields_reads input _) λ _ _.
        update_account_rule _ _ _ _ _ ok.acc ok.found λ _.
          alloc_public_no_rule _ _ _ _ _ λ no counters. insert_withdraw_rule _ _ _ _ λ _.
            step_ok _ _ _ _ _ _ refl (record {
              ledger = λ u. ground (arith, h.ledger u, ok.found);
              held_back = λ u. ground (
                arith,
                h.held_back u,
                ok.found,
                zero_+ℤ (total (open_for u) db.withdraws),
                hold_first (reserved_of db u) input.amount (total (open_for u) db.withdraws)
                    (total (active_for u) db.codes),
              );
              pooled = λ n. ground (
                arith,
                h.pooled n,
                em,
                zero_+ℤ (total (change_for n) db.pool_log),
                take_logged m.cash_pool (input.amount -ℤ picked.fee)
                    (total (change_for n) db.pool_log),
              );
              settled = λ n. ground (arith, h.settled n, em);
              pool_chain = (take_chained m.cash_pool (input.amount -ℤ picked.fee), h.pool_chain);
              settlement_chain = h.settlement_chain;
              withdraws_nonneg = (ground (arith, ok.positive), h.withdraws_nonneg);
              codes_nonneg = h.codes_nonneg;
              codes_keyed = h.codes_keyed;
              one_withdraw = λ u.
                  ground (
                    arith,
                    h.one_withdraw u,
                    ok.none_open,
                    count-none (is_open_for u) db.withdraws,
                  );
              one_topup = h.one_topup;
            })

-- A request that succeeds keeps the books consistent, whatever state the routing query read.
pub request_withdraw-IsConsistent :
    (clock : Clock) (id : ℕ) (snapshot : Db) (input : WithdrawRequest) (db : Db)
    → IsConsistent db
    → Ensures (λ _ db'. IsConsistent db') (request_withdraw clock id snapshot input db)
unfolding request_withdraw
request_withdraw-IsConsistent clock id snapshot input db h =
    read_rule _ _ _ _ _ (accept_withdraw_checks clock snapshot input db)
      λ picked ok. book_withdraw-IsConsistent clock id input picked db h ok
