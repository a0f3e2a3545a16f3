-- ===== src/PaymentCode/Expired.antt =====
-- The books stay balanced when stale payment codes expire.
use c_zdan.Common.{
  ℕ, ◌≡◌, refl, ◌∙◌, Option, none, some, List, [], ◌∷◌, map, arith, ◌==◌, if◌then◌else◌,
}
use c_zdan.Common.Int.{ℤ, pos, ◌+ℤ◌, ◌-ℤ◌, ◌≤ℤ◌, int_laws, greatest, greatest_of_le}
use c_zdan.Common.Table.{put, total, filter, any}
use c_zdan.Schema.{Account, PaymentCode}
use c_zdan.Store.{Db, Clock, Ensures}
use c_zdan.Store.Rules.{get_rule, step_ok, bind_rule, update_account_rule_any}
use c_zdan.Ledger.{
  balance_or_zero, balance_of, reserved_or_zero, active_for, has_code_id, held, CodesNonneg,
  CodesKeyed, IsConsistent,
}
use c_zdan.Ledger.Laws.{release_nothing_second, total-open_nonneg, total-active_nonneg}
use c_zdan.PaymentCode.Expire.{is_stale, expire, release_all, expire_stale_payment_codes}

-- What a code's release gives back to a member.
stake_for : ℕ → PaymentCode → ℤ
stake_for u c = if c.user_id == u then c.amount else pos 0

nothing_moved : (a x y : ℤ) → a +ℤ (x +ℤ y) ≡ x +ℤ (a +ℤ y)
nothing_moved a x y = omega int_laws

-- The active codes' sum splits into what expires and what stays.
expire-splits :
    (clock : Clock) (u : ℕ) (rows : List PaymentCode)
    → total (active_for u) rows
      ≡ total (active_for u) (map (expire clock) rows)
        +ℤ total (stake_for u) (filter (is_stale clock) rows)
unfolding total filter stake_for
expire-splits clock u [] = omega int_laws
expire-splits clock u (c ∷ rows) = grind (int_laws, expire-splits clock u rows)

expire-nonneg :
    (clock : Clock) (rows : List PaymentCode)
    → CodesNonneg rows
    → CodesNonneg (map (expire clock) rows)
expire-nonneg clock [] h = tt
expire-nonneg clock (c ∷ rows) h = ground (arith, expire-nonneg clock rows h.1)

pub stale-nonneg :
    (clock : Clock) (rows : List PaymentCode)
    → CodesNonneg rows
    → CodesNonneg (filter (is_stale clock) rows)
unfolding filter
stale-nonneg clock [] h = tt
stale-nonneg clock (c ∷ rows) h = ground (arith, stale-nonneg clock rows h.1)

any-expire :
    (clock : Clock) (k : ℕ) (rows : List PaymentCode)
    → any (has_code_id k) (map (expire clock) rows) ≡ any (has_code_id k) rows
unfolding any
any-expire clock k [] = refl
any-expire clock k (c ∷ rows) = ground (arith, any-expire clock k rows)

expire-keyed :
    (clock : Clock) (rows : List PaymentCode)
    → CodesKeyed rows
    → CodesKeyed (map (expire clock) rows)
expire-keyed clock [] h = tt
expire-keyed clock (c ∷ rows) h =
    ground (arith, any-expire clock c.id rows, expire-keyed clock rows h.1)

stakes_nonneg :
    (u : ℕ) (rows : List PaymentCode) → CodesNonneg rows → pos 0 ≤ℤ total (stake_for u) rows
unfolding total stake_for
stakes_nonneg u [] h = omega arith
stakes_nonneg u (c ∷ rows) h = grind (int_laws, stakes_nonneg u rows h.1)

-- One release takes one stake off what is owed beside `w`.
release_one :
    (r w x t : ℤ) → r ≡ w +ℤ (x +ℤ t) → pos 0 ≤ℤ w → pos 0 ≤ℤ t → greatest (r -ℤ x) (pos 0) ≡ w +ℤ t
release_one r w x t e nw nt =
    rw (greatest_of_le (r -ℤ x) (pos 0) (rw e (omega int_laws))) (rw e (omega int_laws))

-- Nothing is owed by a member without an account.
release_none :
    (w x t : ℤ) → pos 0 ≡ w +ℤ (x +ℤ t) → pos 0 ≤ℤ w → pos 0 ≤ℤ x → pos 0 ≤ℤ t → pos 0 ≡ w +ℤ t
release_none w x t e nw nx nt =
    release_nothing_second x (w +ℤ t) x (e ∙ omega int_laws) (omega int_laws) nx (omega int_laws)
    ∙ omega int_laws

skip_zero : (w t : ℤ) → w +ℤ (pos 0 +ℤ t) ≡ w +ℤ t
skip_zero w t = omega int_laws

-- Releasing the stakes of the codes that are left leaves what `w` says is held.
release_all_rule :
    (Q : Unit {0} → Db → Type 0) (db : Db) (w : ℕ → ℤ) (rows : List PaymentCode)
    (accounts : ℕ → Option Account)
    → ((u : ℕ) → pos 0 ≤ℤ w u)
    → CodesNonneg rows
    → ((u : ℕ) → balance_or_zero (accounts u) ≡ balance_of db u)
    → ((u : ℕ) → reserved_or_zero (accounts u) ≡ w u +ℤ total (stake_for u) rows)
    → ((a : ℕ → Option Account)
        → ((u : ℕ) → balance_or_zero (a u) ≡ balance_of db u)
        → ((u : ℕ) → reserved_or_zero (a u) ≡ w u)
        → Q tt (record db { accounts = a }))
    → Ensures Q (release_all rows (record db { accounts = accounts }))
unfolding release_all total stake_for
release_all_rule Q db w [] accounts nw nr same owed k =
    k accounts same (λ u. owed u ∙ omega int_laws)
release_all_rule Q db w (c ∷ rows) accounts nw nr same owed k =
    update_account_rule_any _ _ _ _ _
      (λ ea. release_all_rule Q db w rows accounts nw nr.1 same (missing ea) k)
      (λ acc ea.
        release_all_rule Q db w rows _ nw nr.1 (λ u. ground (arith, ea, same u)) (there acc ea) k)
  where
    missing :
        accounts c.user_id ≡ none
        → (u : ℕ) → reserved_or_zero (accounts u) ≡ w u +ℤ total (stake_for u) rows
    missing ea u = ground (
      arith,
      ea,
      owed u,
      skip_zero (w u) (total (stake_for u) rows),
      release_none (w u) c.amount (total (stake_for u) rows),
      nw u,
      nr.0,
      stakes_nonneg u rows nr.1,
    )

    there :
        (acc : Account)
        → accounts c.user_id ≡ some acc
        → (u : ℕ)
        → reserved_or_zero (
            put c.user_id
              (record acc {
                reserved_balance = greatest (acc.reserved_balance -ℤ c.amount) (pos 0);
              })
              accounts
              u)
          ≡ w u +ℤ total (stake_for u) rows
    there acc ea u = ground (
      arith,
      ea,
      owed u,
      skip_zero (w u) (total (stake_for u) rows),
      release_one acc.reserved_balance (w u) c.amount (total (stake_for u) rows),
      nw u,
      stakes_nonneg u rows nr.1,
    )

-- The expiry of stale codes keeps the books consistent.
pub expire_stale_payment_codes-IsConsistent :
    (clock : Clock) (db : Db)
    → IsConsistent db
    → Ensures (λ _ db'. IsConsistent db') (expire_stale_payment_codes clock db)
unfolding expire_stale_payment_codes
expire_stale_payment_codes-IsConsistent clock db h = get_rule _ _ db (
    step_ok _ _ _ _ _ _ refl (
      bind_rule _ (λ _ d. IsConsistent d) _ _ _
        (release_all_rule _ (record db { codes = map (expire clock) db.codes })
          (held (record db { codes = map (expire clock) db.codes }))
          (filter (is_stale clock) db.codes) db.accounts
          (λ u. both _ _ (total-open_nonneg u db.withdraws h.withdraws_nonneg) (
            total-active_nonneg u (map (expire clock) db.codes)
              (expire-nonneg clock db.codes h.codes_nonneg)))
          (stale-nonneg clock db.codes h.codes_nonneg) (λ u. refl)
          (λ u. h.held_back u ∙ rw (expire-splits clock u db.codes) (omega int_laws))
          (λ a same held'. record {
            ledger = λ u. same u ∙ h.ledger u;
            held_back = held';
            pooled = h.pooled;
            settled = h.settled;
            pool_chain = h.pool_chain;
            settlement_chain = h.settlement_chain;
            withdraws_nonneg = h.withdraws_nonneg;
            codes_nonneg = expire-nonneg clock db.codes h.codes_nonneg;
            codes_keyed = expire-keyed clock db.codes h.codes_keyed;
            one_withdraw = h.one_withdraw;
            one_topup = h.one_topup;
          }))
        λ _ d k. k))
  where
    both : (a b : ℤ) → pos 0 ≤ℤ a → pos 0 ≤ℤ b → pos 0 ≤ℤ a +ℤ b
    both a b p q = omega int_laws
