-- ===== src/Withdraw/Swept.antt =====
-- The books stay balanced under the sweep of timed-out withdraws.
use c_zdan.Common.{
  ℕ, ◌≤◌, ◌≡◌, refl, sym, ◌∙◌, Bool, true, false, Option, none, some, List, [], ◌∷◌, map, arith,
  ◌==◌, if◌then◌else◌, Bool-cases, inl, inr,
}
use c_zdan.Common.Int.{ℤ, pos, ◌+ℤ◌, ◌-ℤ◌, ◌≤ℤ◌, int_laws, greatest, zero_+ℤ}
use c_zdan.Common.Table.{total, filter, any, count}
use c_zdan.Schema.{Account, Merchant, WithdrawSession, is_open_for, LogRow}
use c_zdan.Store.{Db, Clock, Ensures}
use c_zdan.Ledger.{
  balance_or_zero, reserved_or_zero, pool_or_zero, settled_or_zero, open_for, active_for,
  change_for, AmountsNonneg, IsChained, IsConsistent,
}
use c_zdan.Ledger.Laws.{release_first, release_nothing, total-open_nonneg, total-active_nonneg}
use c_zdan.Withdraw.Timeout.{
  Join, is_timed_out, time_out, is_of_user, is_of_merchant, net_of, release_one, released_row,
  restored_row, log_row, timed_out, released_accounts, released_pool, logged,
  scan_withdraw_timeouts, all_accounts_hold,
}

-- What Postgres says of the row that an UPDATE … FROM uses: there is one if a row matches, and it is
-- the one that matches if no other does.
pub record IsJoin (join : Join) : Type 0 where
  pub nothing : join [] ≡ none
  pub single : (s : WithdrawSession) → join (s ∷ []) ≡ some s

amount_of : WithdrawSession → ℤ
amount_of s = s.amount

-- The open sessions' sum splits into what times out and what stays.
time_out-splits :
    (clock : Clock) (u : ℕ) (rows : List WithdrawSession)
    → total (open_for u) rows
      ≡ total (open_for u) (map (time_out clock) rows)
        +ℤ total amount_of (filter (is_of_user u) (filter (is_timed_out clock) rows))
unfolding total filter amount_of
time_out-splits clock u [] = omega int_laws
time_out-splits clock u (s ∷ rows) = grind (int_laws, time_out-splits clock u rows)

time_out-nonneg :
    (clock : Clock) (rows : List WithdrawSession)
    → AmountsNonneg rows
    → AmountsNonneg (map (time_out clock) rows)
time_out-nonneg clock [] h = tt
time_out-nonneg clock (s ∷ rows) h = ground (arith, time_out-nonneg clock rows h.1)

time_out-fewer :
    (clock : Clock) (u : ℕ) (rows : List WithdrawSession)
    → count (is_open_for u) (map (time_out clock) rows) ≤ count (is_open_for u) rows
unfolding count
time_out-fewer clock u [] = omega arith
time_out-fewer clock u (s ∷ rows) = ground (arith, time_out-fewer clock u rows)

-- A member has at most as many timed-out sessions as open ones.
gone-fewer :
    (clock : Clock) (u : ℕ) (rows : List WithdrawSession)
    → count (λ _. true) (filter (is_of_user u) (filter (is_timed_out clock) rows))
      ≤ count (is_open_for u) rows
unfolding count filter
gone-fewer clock u [] = omega arith
gone-fewer clock u (s ∷ rows) = ground (arith, gone-fewer clock u rows)

release_all_of :
    (r w c x : ℤ)
    → r ≡ w +ℤ (x +ℤ pos 0) +ℤ c
    → pos 0 ≤ℤ w
    → pos 0 ≤ℤ c
    → greatest (r -ℤ x) (pos 0) ≡ w +ℤ c
release_all_of r w c x e nw nc =
    release_first r x (w +ℤ (x +ℤ pos 0)) c e (omega int_laws) nc ∙ omega int_laws

nothing_of : (w c : ℤ) → w +ℤ pos 0 +ℤ c ≡ w +ℤ c
nothing_of w c = omega int_laws

-- What a merchant's pool gains.
share : Option Merchant → Option WithdrawSession → ℤ
share (some r) (some t) = net_of t
share _ _ = pos 0

gone-nonneg :
    (clock : Clock) (u : ℕ) (rows : List WithdrawSession)
    → AmountsNonneg rows
    → pos 0 ≤ℤ total amount_of (filter (is_of_user u) (filter (is_timed_out clock) rows))
unfolding total filter amount_of
gone-nonneg clock u [] h = omega arith
gone-nonneg clock u (s ∷ rows) h = grind (int_laws, gone-nonneg clock u rows h.1)

released_row-balance :
    (t : Option WithdrawSession) (o : Option Account)
    → balance_or_zero (released_row t o) ≡ balance_or_zero o
released_row-balance t none = refl
released_row-balance none (some a) = refl
released_row-balance (some t) (some a) = refl

restored_row-pool :
    (clock : Clock) (t : Option WithdrawSession) (o : Option Merchant)
    → pool_or_zero (restored_row clock t o) ≡ share o t +ℤ pool_or_zero o
unfolding share
restored_row-pool clock t none = omega int_laws
restored_row-pool clock none (some r) = omega int_laws
restored_row-pool clock (some t) (some r) = omega int_laws

restored_row-balance :
    (clock : Clock) (t : Option WithdrawSession) (o : Option Merchant)
    → settled_or_zero (restored_row clock t o) ≡ settled_or_zero o
restored_row-balance clock t none = refl
restored_row-balance clock none (some r) = refl
restored_row-balance clock (some t) (some r) = refl

share-none : (o : Option Merchant) → share o none ≡ pos 0
unfolding share
share-none none = refl
share-none (some r) = refl

filter-none :
    (m : ℕ) (rows : List WithdrawSession)
    → any (is_of_merchant m) rows ≡ false
    → filter (is_of_merchant m) rows ≡ []
unfolding any filter
filter-none m [] e = refl
filter-none m (s ∷ rows) e = ground (arith, filter-none m rows)

log_row-adds :
    (join : Join) (clock : Clock) (n m : ℕ) (r : Option Merchant) (t : Option WithdrawSession)
    (log : List LogRow)
    → total (change_for n) (log_row join clock m r t log)
      ≡ (if m == n then share r t else pos 0) +ℤ total (change_for n) log
unfolding total share
log_row-adds join clock n m none t log = ground (arith, zero_+ℤ (total (change_for n) log))
log_row-adds join clock n m (some r) none log = ground (arith, zero_+ℤ (total (change_for n) log))
log_row-adds join clock n m (some r) (some t) log = ground arith

log_row-IsChained :
    (join : Join) (clock : Clock) (m : ℕ) (r : Option Merchant) (t : Option WithdrawSession)
    (log : List LogRow)
    → IsChained log
    → IsChained (log_row join clock m r t log)
log_row-IsChained join clock m none t log h = h
log_row-IsChained join clock m (some r) none log h = h
log_row-IsChained join clock m (some r) (some t) log h = (refl, h)

module _ (join : Join) (j : IsJoin join) (clock : Clock) where
  -- The release of a member's timed-out sessions, of which there is one at most.
  released_case :
      (mine : List WithdrawSession) (acc : Account) (w c : ℤ)
      → count (λ _. true) mine ≤ 1
      → acc.reserved_balance ≡ w +ℤ total amount_of mine +ℤ c
      → pos 0 ≤ℤ w
      → pos 0 ≤ℤ c
      → (release_one (join mine) acc).reserved_balance ≡ w +ℤ c
  unfolding total count amount_of
  released_case [] acc w c few e nw nc = rw j.nothing (e ∙ nothing_of w c)
  released_case (s ∷ []) acc w c few e nw nc =
      rw (j.single s) (release_all_of acc.reserved_balance w c s.amount e nw nc)
  released_case (s ∷ t ∷ mine) acc w c few e nw nc = absurd (omega arith)

  row_released :
      (mine : List WithdrawSession) (o : Option Account) (w c : ℤ)
      → count (λ _. true) mine ≤ 1
      → reserved_or_zero o ≡ w +ℤ total amount_of mine +ℤ c
      → pos 0 ≤ℤ w
      → pos 0 ≤ℤ c
      → pos 0 ≤ℤ total amount_of mine
      → reserved_or_zero (released_row (join mine) o) ≡ w +ℤ c
  row_released mine none w c few e nw nc nm =
      release_nothing (total amount_of mine) (w +ℤ total amount_of mine) c e (omega int_laws) nm nc
      ∙ omega int_laws
  row_released mine (some a) w c few e nw nc nm = released_case mine a w c few e nw nc

  -- The pool gains what the log is given: once for each merchant with a timed-out session.
  logged-adds :
      (n : ℕ) (gone todo : List WithdrawSession) (merchants : ℕ → Option Merchant)
      (log : List LogRow)
      → total (change_for n) (logged join clock gone todo merchants log)
        ≡ (if any (is_of_merchant n) todo
            then share (merchants n) (join (filter (is_of_merchant n) gone))
            else pos 0)
          +ℤ total (change_for n) log
  unfolding logged any
  logged-adds n gone [] merchants log = sym (zero_+ℤ _)
  logged-adds n gone (t ∷ todo) merchants log = ground (
    arith,
    logged-adds n gone todo merchants log,
    zero_+ℤ (total (change_for n) (logged join clock gone todo merchants log)),
    zero_+ℤ (total (change_for n) log),
    log_row-adds join clock n t.merchant_id (merchants t.merchant_id)
        (join (filter (is_of_merchant t.merchant_id) gone))
        (logged join clock gone todo merchants log),
  )

  logged-IsChained :
      (gone todo : List WithdrawSession) (merchants : ℕ → Option Merchant) (log : List LogRow)
      → IsChained log
      → IsChained (logged join clock gone todo merchants log)
  unfolding logged
  logged-IsChained gone [] merchants log h = h
  logged-IsChained gone (t ∷ todo) merchants log h =
      elim (Bool-cases (any (is_of_merchant t.merchant_id) todo)) [
        | inl e ↦ rw e (logged-IsChained gone todo merchants log h)
        | inr e ↦ rw e (
            log_row-IsChained join clock t.merchant_id _ _ _
              (logged-IsChained gone todo merchants log h))
      ]

  module _ (db : Db) (h : IsConsistent db) where
    abbrev gone : List WithdrawSession
    gone = timed_out join clock db.withdraws

    balances_kept :
        (u : ℕ)
        → balance_or_zero (released_accounts join clock gone db.accounts u)
          ≡ balance_or_zero (db.accounts u)
    unfolding released_accounts
    balances_kept u = released_row-balance (join (filter (is_of_user u) gone)) (db.accounts u)

    reserves_released :
        (u : ℕ)
        → reserved_or_zero (released_accounts join clock gone db.accounts u)
          ≡ total (open_for u) (map (time_out clock) db.withdraws) +ℤ total (active_for u) db.codes
    unfolding released_accounts timed_out
    reserves_released u =
        row_released (filter (is_of_user u) (timed_out join clock db.withdraws)) (db.accounts u) _ _
          (omega (arith, h.one_withdraw u, gone-fewer clock u db.withdraws))
          (h.held_back u ∙ rw (time_out-splits clock u db.withdraws) refl)
          (total-open_nonneg u _ (time_out-nonneg clock db.withdraws h.withdraws_nonneg))
          (total-active_nonneg u db.codes h.codes_nonneg)
          (gone-nonneg clock u db.withdraws h.withdraws_nonneg)

    pools_logged :
        (n : ℕ)
        → pool_or_zero (released_pool join clock gone db.merchants n)
          ≡ total (change_for n) (logged join clock gone gone db.merchants db.pool_log)
    unfolding released_pool
    pools_logged n =
        restored_row-pool clock (join (filter (is_of_merchant n) gone)) (db.merchants n)
        ∙ (rw (h.pooled n) (touched (any (is_of_merchant n) gone) refl)
            ∙ sym (logged-adds n gone gone db.merchants db.pool_log))
      where
        touched :
            (b : Bool)
            → any (is_of_merchant n) gone ≡ b
            → share (db.merchants n) (join (filter (is_of_merchant n) gone))
                +ℤ total (change_for n) db.pool_log
              ≡ (if b
                  then share (db.merchants n) (join (filter (is_of_merchant n) gone))
                  else pos 0)
                +ℤ total (change_for n) db.pool_log
        touched true e = refl
        touched false e = rw (filter-none n gone e, j.nothing, share-none (db.merchants n)) refl

    settled_kept :
        (n : ℕ)
        → settled_or_zero (released_pool join clock gone db.merchants n)
          ≡ settled_or_zero (db.merchants n)
    unfolding released_pool
    settled_kept n =
        restored_row-balance clock (join (filter (is_of_merchant n) gone)) (db.merchants n)

-- A sweep that succeeds keeps the books consistent, whichever rows the updates join.
pub scan_withdraw_timeouts-IsConsistent :
    (join : Join) (clock : Clock) (db : Db)
    → IsJoin join
    → IsConsistent db
    → Ensures (λ _ db'. IsConsistent db') (scan_withdraw_timeouts join clock db)
unfolding scan_withdraw_timeouts
scan_withdraw_timeouts-IsConsistent join clock db j h =
    elim (Bool-cases (
      all_accounts_hold join clock (gone join j clock db h)
        (released_accounts join clock (gone join j clock db h) db.accounts))) [
          | inr e ↦ rw e tt
          | inl e ↦ rw e (record {
            ledger = λ u. balances_kept join j clock db h u ∙ h.ledger u;
            held_back = reserves_released join j clock db h;
            pooled = pools_logged join j clock db h;
            settled = λ n. settled_kept join j clock db h n ∙ h.settled n;
            pool_chain = logged-IsChained join j clock _ _ _ _ h.pool_chain;
            settlement_chain = h.settlement_chain;
            withdraws_nonneg = time_out-nonneg clock db.withdraws h.withdraws_nonneg;
            codes_nonneg = h.codes_nonneg;
            codes_keyed = h.codes_keyed;
            one_withdraw =
                λ u. omega (arith, h.one_withdraw u, time_out-fewer clock u db.withdraws);
            one_topup = h.one_topup;
          })
        ]
