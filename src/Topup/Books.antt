-- ===== src/Topup/Books.antt =====
-- The books stay balanced when a topup's callback arrives.
use c_zdan.Common.{ℕ, ◌≡◌, refl, sym, subst, true, false, Option, some, List, ◌∷◌, arith}
use c_zdan.Common.Int.{ℤ, pos, ◌+ℤ◌, ◌-ℤ◌, int_laws, zero_+ℤ, eqb_ℤ, eq_of_parts}
use c_zdan.Common.Table.{put, find, find-key, find-modify_self, total}
use c_zdan.Schema.{Account, Merchant, CallbackStatus, TopupSession, topup_id, LogRow}
use c_zdan.Store.{Db, Clock, Ensures, update_topup, pure, ◌>>=◌, ◌>>◌}
use c_zdan.Store.Rules.{
  get_rule, throw_if_rule, or_throw_rule, step_ok, read_rule, bind_rule, update_account_rule,
  insert_transaction_rule,
}
use c_zdan.CashPool.Rules.{write_cash_pool_delta_rule}
use c_zdan.CashPool.{PoolChange}
use c_zdan.Ledger.{
  settlement_for, pool_or_zero, settled_or_zero, delta_for, change_for, IsConsistent, IsChained,
}
use c_zdan.ProviderLedger.{ProviderLedgerWrite, write_provider_ledger}
use c_zdan.Ledger.Keeps.{KeepsMoney, KeepsMoney-IsConsistent}
use c_zdan.Ledger.Laws.{add_logged}
use c_zdan.ProviderLedger.Keeps.{write_provider_ledger-Keeps}
use c_zdan.Topup.Finalize.{
  TopupCallback, is_final_topup, open_topup_session, received, topup_failed, topup_succeeded,
  provider_fee, top_up, topup_transaction, shadow_row, book_topup, settle_topup,
  finalize_topup_callback,
}
use c_zdan.Topup.Quiet.{changed-IsConsistent}

-- What `open_topup_session` has checked.
record IsOpen (db : Db) (input : TopupCallback) (s : TopupSession) : Type 0 where
  found : find topup_id s.id db.topups ≡ some s
  not_final : is_final_topup s.status ≡ false

open_topup_session_checks :
    (input : TopupCallback) (db : Db)
    → Ensures (λ s db'. (db' ≡ db) × IsOpen db input s) (open_topup_session input db)
unfolding open_topup_session
open_topup_session_checks input db = get_rule _ _ db (
    or_throw_rule _ _ _ _ db λ s found. throw_if_rule _ _ _ _ db λ _.
      throw_if_rule _ _ _ _ db λ open_still. (
        refl,
        record {
          found =
              subst (λ k. find topup_id k db.topups ≡ some s)
                (sym (find-key topup_id input.internal_ref db.topups s found)) found;
          not_final = open_still;
        },
      ))

still_level : (b a x : ℤ) → b ≡ a → eqb_ℤ x (pos 0) ≡ true → b +ℤ x ≡ a
still_level b a x e z = rw (eq_of_parts x (pos 0) (ground arith), e) (omega int_laws)

module _ (clock : Clock) (tx_id : ℕ) (input : TopupCallback) (s r : TopupSession) (db : Db)
    (h : IsConsistent db) (found : find topup_id s.id db.topups ≡ some r) where
  -- The account credited and the transaction recorded.
  abbrev credited : Account → Db
  credited acc = record db {
    accounts = put s.user_id (top_up input.amount acc) db.accounts;
    transactions =
        topup_transaction clock tx_id input s acc
          (provider_fee input.amount (db.merchants s.merchant_id))
        ∷ db.transactions;
  }

  credited-IsConsistent :
      (acc : Account) → db.accounts s.user_id ≡ some acc → IsConsistent (credited acc)
  unfolding total
  credited-IsConsistent acc ea = record {
    ledger = λ u. ground (
      arith,
      ea,
      h.ledger u,
      zero_+ℤ (total (delta_for u) db.transactions),
      add_logged acc.balance input.amount (total (delta_for u) db.transactions),
    );
    held_back = λ u. ground (arith, ea, h.held_back u);
    pooled = h.pooled;
    settled = h.settled;
    pool_chain = h.pool_chain;
    settlement_chain = h.settlement_chain;
    withdraws_nonneg = h.withdraws_nonneg;
    codes_nonneg = h.codes_nonneg;
    codes_keyed = h.codes_keyed;
    one_withdraw = h.one_withdraw;
    one_topup = h.one_topup;
  }

  -- The rest of the branch, from books that agree: the provider row and the session's end.
  finish :
      (d : Db) (row : ProviderLedgerWrite)
      → IsConsistent d
      → d.topups ≡ db.topups
      → Ensures
          (λ _ db'. IsConsistent db')
          ((write_provider_ledger row >>= λ _.
              update_topup s.id (topup_succeeded clock input.amount) >> pure (some tx_id))
            d)
  finish d row hd same =
      bind_rule _ (λ _ e. KeepsMoney d e) _ _ d (write_provider_ledger-Keeps row d)
        λ l e k. step_ok _ _ _ _ _ _ refl (
          changed-IsConsistent e s.id (topup_succeeded clock input.amount) r
            (KeepsMoney-IsConsistent k hd) (rw (k.topups_kept, same) found)
            (λ u o. ground (arith, o)))

  book_topup-IsConsistent : Ensures (λ _ db'. IsConsistent db') (book_topup clock tx_id input s db)
  unfolding book_topup total
  book_topup-IsConsistent = get_rule _ _ db (
      or_throw_rule _ _ _ _ db λ acc ea. update_account_rule _ _ _ _ db acc ea λ _.
        insert_transaction_rule _ _ _ _ λ _.
          write_cash_pool_delta_rule _ _ _ _ _
            (λ z c level. step_ok _ _ _ _ _ _ refl (
              finish _ _
                (shadowed acc ea db.merchants db.pool_log c (credited-IsConsistent acc ea).pooled
                  (credited-IsConsistent acc ea).settled h.pool_chain
                  (still_level c.balance_before c.balance_after _ level z))
                refl))
            (λ m em. step_ok _ _ _ _ _ _ refl (
              finish _ _
                (shadowed acc ea _ _ _
                  (λ n. ground (
                    arith,
                    h.pooled n,
                    em,
                    zero_+ℤ (total (change_for n) db.pool_log),
                    add_logged m.cash_pool
                        (input.amount -ℤ provider_fee input.amount (db.merchants s.merchant_id))
                        (total (change_for n) db.pool_log),
                  ))
                  (λ n. ground (arith, h.settled n, em)) (refl, h.pool_chain) refl)
                refl)))
    where
      -- The credited state with this pool and this log, once the shadow row is written.
      shadowed :
          (acc : Account)
          → db.accounts s.user_id ≡ some acc
          → (merchants : ℕ → Option Merchant) (pool_log : List LogRow) (c : PoolChange)
          → ((n : ℕ) → pool_or_zero (merchants n) ≡ total (change_for n) pool_log)
          → ((n : ℕ) → settled_or_zero (merchants n) ≡ total (settlement_for n) db.settlement_log)
          → IsChained pool_log
          → c.balance_before
              +ℤ (input.amount -ℤ provider_fee input.amount (db.merchants s.merchant_id))
            ≡ c.balance_after
          → IsConsistent (record (credited acc) {
            merchants = merchants;
            pool_log = pool_log;
            settlement_log =
                shadow_row tx_id s
                  (input.amount -ℤ provider_fee input.amount (db.merchants s.merchant_id))
                  c
                ∷ db.settlement_log;
          })
      shadowed acc ea merchants pool_log c pooled settled chained level =
          let b = credited-IsConsistent acc ea in
          record {
            ledger = b.ledger;
            held_back = b.held_back;
            pooled = pooled;
            settled = λ n.
                ground (arith, settled n, zero_+ℤ (total (settlement_for n) db.settlement_log));
            pool_chain = chained;
            settlement_chain = (level, b.settlement_chain);
            withdraws_nonneg = b.withdraws_nonneg;
            codes_nonneg = b.codes_nonneg;
            codes_keyed = b.codes_keyed;
            one_withdraw = b.one_withdraw;
            one_topup = b.one_topup;
          }

settle_topup-IsConsistent :
    (clock : Clock) (tx_id : ℕ) (input : TopupCallback) (s r : TopupSession) (db : Db)
    (status : CallbackStatus)
    → IsConsistent db
    → find topup_id s.id db.topups ≡ some r
    → Ensures (λ _ db'. IsConsistent db') (settle_topup clock tx_id input s status db)
settle_topup-IsConsistent clock tx_id input s r db CallbackStatus.failed h found =
    step_ok _ _ _ _ _ _ refl
      (changed-IsConsistent db s.id (topup_failed clock) r h found (λ u o. ground (arith, o)))
settle_topup-IsConsistent clock tx_id input s r db CallbackStatus.success h found =
    book_topup-IsConsistent clock tx_id input s r db h found

-- A topup callback that succeeds, for either outcome, keeps the books consistent.
pub finalize_topup_callback-IsConsistent :
    (clock : Clock) (tx_id : ℕ) (input : TopupCallback) (db : Db)
    → IsConsistent db
    → Ensures (λ _ db'. IsConsistent db') (finalize_topup_callback clock tx_id input db)
unfolding finalize_topup_callback
finalize_topup_callback-IsConsistent clock tx_id input db h =
    read_rule _ _ _ _ _ (open_topup_session_checks input db) λ s o. step_ok _ _ _ _ _ _ refl (
      settle_topup-IsConsistent clock tx_id input s (received clock input s) _ input.status
        (changed-IsConsistent db s.id (received clock input) s h o.found (λ u o'. o'))
        (find-modify_self topup_id s.id (received clock input) db.topups s o.found refl))
