-- ===== src/Withdraw/Settled.antt =====
-- The books stay balanced when a withdraw's callback arrives.
use c_zdan.Common.{◌∷◌, Option, false, none, ℕ, ◌≡◌, refl, ◌∙◌, arith, some, false}
use c_zdan.Common.Int.{pos, ◌+ℤ◌, ◌-ℤ◌, greatest, zero_+ℤ}
use c_zdan.Common.Table.{put, total, modify}
use c_zdan.Schema.{
  LogReason, Reference, is_open_withdraw, Account, WithdrawSession, withdraw_id, CallbackStatus,
}
use c_zdan.Store.{update_withdraw, pure, Db, Clock, Ensures, ◌>>◌}
use c_zdan.Store.Rules.{
  update_account_rule_any, get_rule, or_throw_rule, read_rule, step_ok, bind_rule,
  update_account_rule, insert_transaction_rule,
}
use c_zdan.CashPool.{CashPoolDelta, write_cash_pool_delta}
use c_zdan.CashPool.Rules.{write_cash_pool_delta_rule}
use c_zdan.Ledger.{
  balance_or_zero, reserved_or_zero, balance_of, open_for, active_for, change_for, delta_for,
  reserved_of, IsConsistent,
}
use c_zdan.Ledger.Keeps.{KeepsMoney, KeepsMoney-trans}
use c_zdan.Loyalty.Keeps.{apply_withdraw_penalty-Keeps, maybe_set_withdraw_cooldown-Keeps}
use c_zdan.ProviderLedger.Keeps.{write_provider_ledger-Keeps}
use c_zdan.Ledger.Laws.{take_logged, add_logged}
use c_zdan.Withdraw.Closing.{
  IsOpen, open_session_checks, closed, closed_nonneg, closed_one, released, released_missing,
  others_total,
}
use c_zdan.Withdraw.Finalize.{
  WithdrawCallback, mark_failed, fail_withdraw, succeed_withdraw, finalize_withdraw_callback,
  pay_out, withdraw_transaction, mark_success, settle,
}

module _ (clock : Clock) (input : WithdrawCallback) (s : WithdrawSession) (db : Db)
    (h : IsConsistent db) (o : IsOpen db input s) where
  reversal : CashPoolDelta
  reversal = record {
    merchant_id = s.merchant_id;
    delta = s.amount -ℤ s.fee;
    reason = LogReason.withdraw_reversal_cash_pool;
    reference = Reference.withdraw_session s.id;
  }

  -- The rest of the branch, once the reservation is released.
  fail_tail :
      (accounts : ℕ → Option Account)
      → ((u : ℕ) → balance_or_zero (accounts u) ≡ balance_of db u)
      → ((u : ℕ)
          → reserved_or_zero (accounts u)
            ≡ total (open_for u) (closed db s (mark_failed clock input))
              +ℤ total (active_for u) db.codes)
      → Ensures
          (λ _ db'. IsConsistent db')
          ((write_cash_pool_delta clock reversal
              >> (update_withdraw s.id (mark_failed clock input) >> pure {A = Option ℕ} none))
            (record db { accounts = accounts }))
  unfolding total reversal
  fail_tail accounts same held' =
      write_cash_pool_delta_rule _ _ _ _ _
        (λ z c _. step_ok _ _ _ _ _ _ refl (record {
          ledger = λ u. same u ∙ h.ledger u;
          held_back = held';
          pooled = h.pooled;
          settled = h.settled;
          pool_chain = h.pool_chain;
          settlement_chain = h.settlement_chain;
          withdraws_nonneg =
              closed_nonneg db input s h o (mark_failed clock input) (λ r. refl) (λ r. refl);
          codes_nonneg = h.codes_nonneg;
          codes_keyed = h.codes_keyed;
          one_withdraw =
              closed_one db input s h o (mark_failed clock input) (λ r. refl) (λ r. refl);
          one_topup = h.one_topup;
        }))
        (λ m em. step_ok _ _ _ _ _ _ refl (record {
          ledger = λ u. same u ∙ h.ledger u;
          held_back = held';
          pooled = λ n. ground (
            arith,
            h.pooled n,
            em,
            zero_+ℤ (total (change_for n) db.pool_log),
            add_logged m.cash_pool (s.amount -ℤ s.fee) (total (change_for n) db.pool_log),
          );
          settled = λ n. ground (arith, h.settled n, em);
          pool_chain = (refl, h.pool_chain);
          settlement_chain = h.settlement_chain;
          withdraws_nonneg =
              closed_nonneg db input s h o (mark_failed clock input) (λ r. refl) (λ r. refl);
          codes_nonneg = h.codes_nonneg;
          codes_keyed = h.codes_keyed;
          one_withdraw =
              closed_one db input s h o (mark_failed clock input) (λ r. refl) (λ r. refl);
          one_topup = h.one_topup;
        }))

  held_missing :
      db.accounts s.user_id ≡ none
      → (u : ℕ)
      → reserved_of db u
        ≡ total (open_for u) (closed db s (mark_failed clock input))
          +ℤ total (active_for u) db.codes
  held_missing ea u = ground (
    arith,
    ea,
    h.held_back u,
    released_missing db input s h o (mark_failed clock input) (λ r. refl) (λ r. refl) ea,
    others_total db input s h o (mark_failed clock input) (λ r. refl) (λ r. refl) u,
  )

  pub held_released :
      (close : WithdrawSession → WithdrawSession)
      (closes : (r : WithdrawSession) → is_open_withdraw (close r).status ≡ false)
      (keeps : (r : WithdrawSession) → (close r).amount ≡ r.amount) (acc acc' : Account)
      → db.accounts s.user_id ≡ some acc
      → acc'.reserved_balance ≡ greatest (acc.reserved_balance -ℤ s.amount) (pos 0)
      → (u : ℕ)
      → reserved_or_zero (put s.user_id acc' db.accounts u)
        ≡ total (open_for u) (closed db s close) +ℤ total (active_for u) db.codes
  held_released close closes keeps acc acc' ea e u = ground (
    arith,
    ea,
    h.held_back u,
    released db input s h o close closes keeps acc ea,
    others_total db input s h o close closes keeps u,
  )

  fail_withdraw-IsConsistent : Ensures (λ _ db'. IsConsistent db') (fail_withdraw clock input s db)
  unfolding fail_withdraw
  fail_withdraw-IsConsistent =
      update_account_rule_any _ _ _ _ db
        (λ ea. unfold reversal in fail_tail db.accounts (λ u. refl) (held_missing ea))
        (λ acc ea.
          unfold reversal in
          fail_tail _ (λ u. ground (arith, ea))
            (held_released (mark_failed clock input) (λ r. refl) (λ r. refl) acc _ ea refl))

  -- The state once the member is debited and the transaction is recorded.
  abbrev debited : ℕ → Account → Db
  debited tx_id acc = record db {
    accounts = put s.user_id (pay_out s.amount acc) db.accounts;
    transactions = withdraw_transaction clock tx_id input s acc ∷ db.transactions;
  }

  -- The loyalty effects and the provider row, then the session's new status.
  success_leaf :
      (tx_id : ℕ) (acc : Account) (d : Db)
      → db.accounts s.user_id ≡ some acc
      → KeepsMoney (debited tx_id acc) d
      → IsConsistent (record d {
        withdraws = modify withdraw_id s.id (mark_success clock tx_id input) d.withdraws;
      })
  unfolding total
  success_leaf tx_id acc d ea k = record {
    ledger = λ u.
        k.balances u
        ∙ rw k.transactions_kept (
            ground (
              arith,
              ea,
              h.ledger u,
              zero_+ℤ (total (delta_for u) db.transactions),
              take_logged acc.balance s.amount (total (delta_for u) db.transactions),
            ));
    held_back = λ u.
        k.reserves u
        ∙ rw (k.withdraws_kept, k.codes_kept)
            (held_released (mark_success clock tx_id input) (λ r. refl) (λ r. refl) acc
              (pay_out s.amount acc) ea refl u);
    pooled = rw (k.merchants_kept, k.pool_log_kept) h.pooled;
    settled = rw (k.merchants_kept, k.settlement_log_kept) h.settled;
    pool_chain = rw k.pool_log_kept h.pool_chain;
    settlement_chain = rw k.settlement_log_kept h.settlement_chain;
    withdraws_nonneg =
        rw k.withdraws_kept
          (closed_nonneg db input s h o (mark_success clock tx_id input) (λ r. refl) (λ r. refl));
    codes_nonneg = rw k.codes_kept h.codes_nonneg;
    codes_keyed = rw k.codes_kept h.codes_keyed;
    one_withdraw =
        rw k.withdraws_kept
          (closed_one db input s h o (mark_success clock tx_id input) (λ r. refl) (λ r. refl));
    one_topup = rw k.topups_kept h.one_topup;
  }

  succeed_withdraw-IsConsistent :
      (tx_id : ℕ) → Ensures (λ _ db'. IsConsistent db') (succeed_withdraw clock tx_id input s db)
  unfolding succeed_withdraw
  succeed_withdraw-IsConsistent tx_id = get_rule _ _ db (
      or_throw_rule _ _ _ _ db λ acc ea. update_account_rule _ _ _ _ db acc ea λ _.
        insert_transaction_rule _ _ _ _ λ _.
          bind_rule _ (λ _ d. KeepsMoney (debited tx_id acc) d) _ _ _
            (apply_withdraw_penalty-Keeps _ _ _ (debited tx_id acc))
            λ p d1 k1.
              bind_rule _ (λ _ d. KeepsMoney d1 d) _ _ d1 (maybe_set_withdraw_cooldown-Keeps _ _ d1)
                λ c d2 k2.
                  bind_rule _ (λ _ d. KeepsMoney d2 d) _ _ d2 (write_provider_ledger-Keeps _ d2)
                    λ l d3 k3.
                      step_ok _ _ _ _ _ _ refl (
                        success_leaf tx_id acc d3 ea
                          (KeepsMoney-trans (KeepsMoney-trans k1 k2) k3)))

  settle-IsConsistent :
      (tx_id : ℕ) (status : CallbackStatus)
      → Ensures (λ _ db'. IsConsistent db') (settle clock tx_id input s status db)
  settle-IsConsistent tx_id CallbackStatus.failed = fail_withdraw-IsConsistent
  settle-IsConsistent tx_id CallbackStatus.success = succeed_withdraw-IsConsistent tx_id

-- A callback that succeeds, for either outcome of the payout, keeps the books consistent.
pub finalize_withdraw_callback-IsConsistent :
    (clock : Clock) (tx_id : ℕ) (input : WithdrawCallback) (db : Db)
    → IsConsistent db
    → Ensures (λ _ db'. IsConsistent db') (finalize_withdraw_callback clock tx_id input db)
unfolding finalize_withdraw_callback
finalize_withdraw_callback-IsConsistent clock tx_id input db h =
    read_rule _ _ _ _ _ (open_session_checks input db)
      λ s o. settle-IsConsistent clock input s db h o tx_id input.status
