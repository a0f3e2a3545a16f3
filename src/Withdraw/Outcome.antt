-- ===== src/Withdraw/Outcome.antt =====
-- What a withdraw request reserves, and that a session is finalized once.
use c_zdan.Common.{ℕ, ◌≡◌, refl, sym, ◌∙◌, subst, true, false, Option, some, List, arith, ◌==◌}
use c_zdan.Common.Int.{ℤ, ◌+ℤ◌, ◌-ℤ◌, ◌≤ℤ◌, int_laws, ltb_ℤ}
use c_zdan.Common.Table.{find, find-key, find-modify_self, modify}
use c_zdan.Schema.{WithdrawSession, withdraw_id, CallbackStatus}
use c_zdan.Store.{Error, ok, err, Db, Clock, Ensures, Ensures-ok, get, or_throw, throw_if, ◌>>=◌}
use c_zdan.Store.Rules.{
  read_rule, get_rule, or_throw_rule, step_ok, bind_rule, update_account_rule,
  update_account_rule_any, insert_transaction_rule, insert_withdraw_rule, alloc_public_no_rule,
}
use c_zdan.CashPool.Rules.{write_cash_pool_delta_rule}
use c_zdan.Ledger.{balance_of, reserved_of, pool_of}
use c_zdan.Ledger.Keeps.{KeepsMoney}
use c_zdan.Loyalty.Keeps.{apply_withdraw_penalty-Keeps, maybe_set_withdraw_cooldown-Keeps}
use c_zdan.ProviderLedger.Keeps.{write_provider_ledger-Keeps}
use c_zdan.Withdraw.Routing.{Picked}
use c_zdan.Withdraw.Request.{WithdrawRequest, request_withdraw, book_withdraw}
use c_zdan.Withdraw.Books.{
  IsAccepted, accept_withdraw_checks, validate_fields_reads, reserve_pool_rule,
}
use c_zdan.Withdraw.Finalize.{
  WithdrawCallback, is_final_withdraw, open_session, mark_failed, fail_withdraw, mark_success,
  succeed_withdraw, settle, finalize_withdraw_callback,
}
use c_zdan.Withdraw.Closing.{IsOpen, open_session_checks}

-- What a request leaves, for the session it returns.
abbrev Reserved : WithdrawRequest → Db → WithdrawSession → Db → Type 0
Reserved input db s db' =
    (pool_of db' s.merchant_id ≡ pool_of db s.merchant_id -ℤ (s.amount -ℤ s.fee))
    × ((reserved_of db' input.user_id ≡ reserved_of db input.user_id +ℤ s.amount)
        × ((balance_of db' input.user_id ≡ balance_of db input.user_id)
            × ((reserved_of db' input.user_id ≤ℤ balance_of db' input.user_id)
                × (find withdraw_id s.id db'.withdraws ≡ some s))))

covers : (b r x : ℤ) → ltb_ℤ (b -ℤ r) x ≡ false → r +ℤ x ≤ℤ b
covers b r x e = within b r x (ground (arith, e))
  where
    within : (b r x : ℤ) → x ≤ℤ b -ℤ r → r +ℤ x ≤ℤ b
    within b r x h = omega int_laws

book_withdraw-Reserved :
    (clock : Clock) (id : ℕ) (input : WithdrawRequest) (picked : Picked) (db : Db)
    → IsAccepted db input
    → Ensures (Reserved input db) (book_withdraw clock id input picked db)
unfolding book_withdraw find
book_withdraw-Reserved clock id input picked db ready = reserve_pool_rule _ _ _ _ _ db λ m em free.
    read_rule _ _ _ _ _ (validate_fields_reads input _) λ _ _.
      update_account_rule _ _ _ _ _ ready.acc ready.found λ _.
        alloc_public_no_rule _ _ _ _ _ λ no counters. insert_withdraw_rule _ _ _ _ λ _.
          step_ok _ _ _ _ _ _ refl (
            ground (arith, em),
            (
              ground (arith, ready.found),
              (
                ground (arith, ready.found),
                (
                  ground (
                    arith,
                    ready.found,
                    covers ready.acc.balance ready.acc.reserved_balance input.amount ready.covered,
                  ),
                  ground arith,
                ),
              ),
            ),
          )

-- A request that succeeds takes the net amount from the pool of the session's merchant and adds the
-- gross amount to the member's reservation, which stays within the unchanged balance; the session is
-- the one that is stored.
pub request_withdraw_reserves :
    (clock : Clock) (id : ℕ) (snapshot : Db) (input : WithdrawRequest) (db : Db)
    → Ensures
        (λ s db'.
          (pool_of db' s.merchant_id ≡ pool_of db s.merchant_id -ℤ (s.amount -ℤ s.fee))
          × ((reserved_of db' input.user_id ≡ reserved_of db input.user_id +ℤ s.amount)
              × ((balance_of db' input.user_id ≡ balance_of db input.user_id)
                  × ((reserved_of db' input.user_id ≤ℤ balance_of db' input.user_id)
                      × (find withdraw_id s.id db'.withdraws ≡ some s)))))
        (request_withdraw clock id snapshot input db)
unfolding request_withdraw
request_withdraw_reserves clock id snapshot input db =
    read_rule _ _ _ _ _ (accept_withdraw_checks clock snapshot input db)
      λ picked ready. book_withdraw-Reserved clock id input picked db ready

-- The callback's session is stored with a final status.
abbrev Closed : WithdrawCallback → List WithdrawSession → Type 0
Closed input rows =
    (s : WithdrawSession) × ((find withdraw_id input.internal_ref rows ≡ some s)
      × ((s.merchant_id ≡ input.merchant_id) × (is_final_withdraw s.status ≡ true)))

module _ (clock : Clock) (input : WithdrawCallback) (s : WithdrawSession) (db : Db)
    (o : IsOpen db input s) where
  session_ends :
      (f : WithdrawSession → WithdrawSession) (rows : List WithdrawSession)
      → rows ≡ modify withdraw_id s.id f db.withdraws
      → (f s).id ≡ s.id
      → (f s).merchant_id ≡ s.merchant_id
      → is_final_withdraw (f s).status ≡ true
      → Closed input rows
  session_ends f rows e same mine final =
      let key = find-key withdraw_id input.internal_ref db.withdraws s o.found in
      (
        f s,
        (
          subst (λ k. find withdraw_id k rows ≡ some (f s)) key
              (rw e (
                find-modify_self withdraw_id s.id f db.withdraws s
                  (subst (λ k. find withdraw_id k db.withdraws ≡ some s) (sym key) o.found) same)),
          (mine ∙ o.mine, final),
        ),
      )

  fail_withdraw-Closed : Ensures (λ _ d. Closed input d.withdraws) (fail_withdraw clock input s db)
  unfolding fail_withdraw
  fail_withdraw-Closed =
      update_account_rule_any _ _ _ _ db
        (λ ea.
          write_cash_pool_delta_rule _ _ _ _ _
            (λ z c _.
              step_ok _ _ _ _ _ _ refl
                (session_ends (mark_failed clock input) _ refl refl refl refl))
            (λ m em.
              step_ok _ _ _ _ _ _ refl
                (session_ends (mark_failed clock input) _ refl refl refl refl)))
        (λ acc ea.
          write_cash_pool_delta_rule _ _ _ _ _
            (λ z c _.
              step_ok _ _ _ _ _ _ refl
                (session_ends (mark_failed clock input) _ refl refl refl refl))
            (λ m em.
              step_ok _ _ _ _ _ _ refl
                (session_ends (mark_failed clock input) _ refl refl refl refl)))

  succeed_withdraw-Closed :
      (tx_id : ℕ)
      → Ensures (λ _ d. Closed input d.withdraws) (succeed_withdraw clock tx_id input s db)
  unfolding succeed_withdraw
  succeed_withdraw-Closed tx_id = get_rule _ _ db (
      or_throw_rule _ _ _ _ db λ acc ea. update_account_rule _ _ _ _ db acc ea λ _.
        insert_transaction_rule _ _ _ _ λ _.
          bind_rule _ (λ _ d. KeepsMoney _ d) _ _ _ (apply_withdraw_penalty-Keeps _ _ _ _)
            λ p d1 k1.
              bind_rule _ (λ _ d. KeepsMoney d1 d) _ _ d1 (maybe_set_withdraw_cooldown-Keeps _ _ d1)
                λ c d2 k2.
                  bind_rule _ (λ _ d. KeepsMoney d2 d) _ _ d2 (write_provider_ledger-Keeps _ d2)
                    λ l d3 k3. step_ok _ _ _ _ _ _ refl (
                      session_ends (mark_success clock tx_id input) _
                        (rw (k3.withdraws_kept, k2.withdraws_kept, k1.withdraws_kept) refl) refl
                        refl refl))

  settle-Closed :
      (tx_id : ℕ) (status : CallbackStatus)
      → Ensures (λ _ d. Closed input d.withdraws) (settle clock tx_id input s status db)
  settle-Closed tx_id CallbackStatus.failed = fail_withdraw-Closed
  settle-Closed tx_id CallbackStatus.success = succeed_withdraw-Closed tx_id

finalize-Closed :
    (clock : Clock) (tx_id : ℕ) (input : WithdrawCallback) (db : Db)
    → Ensures (λ _ d. Closed input d.withdraws) (finalize_withdraw_callback clock tx_id input db)
unfolding finalize_withdraw_callback
finalize-Closed clock tx_id input db =
    read_rule _ _ _ _ _ (open_session_checks input db)
      λ s o. settle-Closed clock input s db o tx_id input.status

refused :
    (clock : Clock) (tx_id : ℕ) (input : WithdrawCallback) (db : Db) (s : WithdrawSession)
    → find withdraw_id input.internal_ref db.withdraws ≡ some s
    → (s.merchant_id == input.merchant_id) ≡ true
    → is_final_withdraw s.status ≡ true
    → finalize_withdraw_callback clock tx_id input db ≡ err Error.already_finalized
unfolding finalize_withdraw_callback open_session get or_throw throw_if ◌>>=◌
refused clock tx_id input db s found mine final = ground (arith, found)

-- After a callback that succeeds, any later callback of the same merchant for the same session, with
-- either outcome, is refused as already finalized.
pub finalize_withdraw_callback_once :
    (clock clock' : Clock) (tx_id tx_id' : ℕ) (input input' : WithdrawCallback) (db db' : Db)
    (r : Option ℕ)
    → finalize_withdraw_callback clock tx_id input db ≡ ok (r, db')
    → input'.internal_ref ≡ input.internal_ref
    → input'.merchant_id ≡ input.merchant_id
    → finalize_withdraw_callback clock' tx_id' input' db' ≡ err Error.already_finalized
finalize_withdraw_callback_once clock clock' tx_id tx_id' input input' db db' r e same_ref
      same_merchant =
    let (s, (found, (mine, final))) = Ensures-ok _ _ (finalize-Closed clock tx_id input db) e in
    refused clock' tx_id' input' db' s (rw same_ref found) (ground (arith, mine, same_merchant))
      final
