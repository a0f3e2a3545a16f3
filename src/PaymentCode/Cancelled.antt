-- ===== src/PaymentCode/Cancelled.antt =====
-- The books stay balanced when a member cancels a payment code.
use c_zdan.Common.{
  ℕ, ◌≡◌, refl, true, Option, some, List, arith, subst, sym, Option-cases, ◌∙◌, inl, inr,
}
use c_zdan.Common.Table.{find, find-key, total}
use c_zdan.Common.Int.{◌+ℤ◌}
use c_zdan.Schema.{Account, PaymentCode, code_id, is_active_code}
use c_zdan.Store.{Db, Clock, Ensures, Trx, update_code, update_account, release, ◌>>◌}
use c_zdan.Store.Rules.{get_rule, throw_if_rule, or_throw_rule, step_ok, update_account_end}
use c_zdan.Ledger.{
  balance_or_zero, balance_of, reserved_or_zero, open_for, active_for, IsConsistent,
}
use c_zdan.PaymentCode.Create.{find_owned_code, mark_cancelled, cancel_payment_code}
use c_zdan.PaymentCode.Closing.{closed, closed_nonneg, closed_keyed, held_released, held_missing}

-- The row that is found has the id and is the member's.
pub found_owned :
    (u id : ℕ) (rows : List PaymentCode) (c : PaymentCode)
    → find_owned_code u id rows ≡ some c
    → (find code_id id rows ≡ some c) × (c.user_id ≡ u)
unfolding find_owned_code
found_owned u id rows c e = elim (Option-cases (find code_id id rows)) [
  | inl f ↦ absurd (ground (arith, f))
  | inr (x, f) ↦ ground (arith, f)
]

abbrev close_and_release : Clock → PaymentCode → ℕ → ℕ → Trx (Unit {0})
close_and_release clock c u id =
    update_code id (mark_cancelled clock) >> update_account u (release c.amount)

module _ (clock : Clock) (db : Db) (c : PaymentCode) (h : IsConsistent db)
    (found : find code_id c.id db.codes ≡ some c) (active : is_active_code c.status ≡ true) where
  -- The state that has the code cancelled and these accounts.
  cancelled_leaf :
      (accounts : ℕ → Option Account)
      → ((u : ℕ) → balance_or_zero (accounts u) ≡ balance_of db u)
      → ((u : ℕ)
          → reserved_or_zero (accounts u)
            ≡ total (open_for u) db.withdraws
              +ℤ total (active_for u) (closed db c (mark_cancelled clock)))
      → IsConsistent (record db { codes = closed db c (mark_cancelled clock); accounts = accounts })
  cancelled_leaf accounts same held = record {
    ledger = λ u. same u ∙ h.ledger u;
    held_back = held;
    pooled = h.pooled;
    settled = h.settled;
    pool_chain = h.pool_chain;
    settlement_chain = h.settlement_chain;
    withdraws_nonneg = h.withdraws_nonneg;
    codes_nonneg =
        closed_nonneg db c h found active (mark_cancelled clock) (λ r. refl) (λ r. refl)
          (λ r. refl);
    codes_keyed =
        closed_keyed db c h found active (mark_cancelled clock) (λ r. refl) (λ r. refl) (λ r. refl);
    one_withdraw = h.one_withdraw;
    one_topup = h.one_topup;
  }

  close_and_release-IsConsistent :
      Ensures (λ _ db'. IsConsistent db') (close_and_release clock c c.user_id c.id db)
  close_and_release-IsConsistent = step_ok _ _ _ _ _ _ refl (
      update_account_end _ _ _ _
        (λ ea.
          cancelled_leaf db.accounts (λ u. refl)
            (held_missing db c h found active (mark_cancelled clock) (λ r. refl) (λ r. refl)
              (λ r. refl) ea))
        (λ acc ea.
          cancelled_leaf _ (λ u. ground (arith, ea))
            (held_released db c h found active (mark_cancelled clock) (λ r. refl) (λ r. refl)
              (λ r. refl) acc _ ea refl)))

-- A cancellation that succeeds keeps the books consistent.
pub cancel_payment_code-IsConsistent :
    (clock : Clock) (u id : ℕ) (db : Db)
    → IsConsistent db
    → Ensures (λ _ db'. IsConsistent db') (cancel_payment_code clock u id db)
unfolding cancel_payment_code
cancel_payment_code-IsConsistent clock u id db h = get_rule _ _ db (
    or_throw_rule _ _ _ _ db λ c e. throw_if_rule _ _ _ _ db λ active.
      throw_if_rule _ _ _ _ db λ _. by_key c (found_owned u id db.codes c e) (ground arith))
  where
    by_key :
        (c : PaymentCode)
        → (find code_id id db.codes ≡ some c) × (c.user_id ≡ u)
        → is_active_code c.status ≡ true
        → Ensures (λ _ db'. IsConsistent db') (close_and_release clock c u id db)
    by_key c (found, mine) active =
        let key = find-key code_id id db.codes c found in
        subst (λ k. Ensures (λ _ db'. IsConsistent db') (close_and_release clock c u k db)) key
          (subst (λ v. Ensures (λ _ db'. IsConsistent db') (close_and_release clock c v c.id db))
            mine
            (close_and_release-IsConsistent clock db c h
              (subst (λ k. find code_id k db.codes ≡ some c) (sym key) found) active))
