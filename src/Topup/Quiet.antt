-- ===== src/Topup/Quiet.antt =====
-- Operations on topup sessions that move no money keep the books.
use c_zdan.Common.{ℕ, String, ◌≤◌, ◌≡◌, refl, true, Option, none, some, List, [], ◌∷◌, map, arith}
use c_zdan.Common.Int.{ℤ}
use c_zdan.Common.Table.{count, modify, find}
use c_zdan.Schema.{TopupSession, topup_id, is_open_topup_for}
use c_zdan.Store.{Db, Clock, Ensures}
use c_zdan.Store.Rules.{
  get_rule, throw_if_rule, or_throw_rule, step_ok, insert_topup_rule, alloc_public_no_rule,
}
use c_zdan.Ledger.{IsConsistent}
use c_zdan.Ledger.Laws.{count-none, count-modify_found}
use c_zdan.Topup.Session.{
  CreateTopup, create_topup_session, confirmed, confirm_topup_by_member, cancelled,
  cancel_topup_by_member, PaymentInfo, with_payment_info, set_topup_session_payment_info,
  expire_topup, expire_stale_topup_sessions, owned,
}

-- The counters of the numbers are not part of the books.
counters-IsConsistent :
    (db : Db) (counters : String → ℕ → Option ℕ)
    → IsConsistent db
    → IsConsistent (record db { counters = counters })
counters-IsConsistent db counters h = record {
  ledger = h.ledger;
  held_back = h.held_back;
  pooled = h.pooled;
  settled = h.settled;
  pool_chain = h.pool_chain;
  settlement_chain = h.settlement_chain;
  withdraws_nonneg = h.withdraws_nonneg;
  codes_nonneg = h.codes_nonneg;
  codes_keyed = h.codes_keyed;
  one_withdraw = h.one_withdraw;
  one_topup = h.one_topup;
}

-- Only the topup sessions change, and no member gets a second open one.
topups-IsConsistent :
    (db : Db) (topups : List TopupSession)
    → IsConsistent db
    → ((u : ℕ) → count (is_open_topup_for u) topups ≤ 1)
    → IsConsistent (record db { topups = topups })
topups-IsConsistent db topups h one = record {
  ledger = h.ledger;
  held_back = h.held_back;
  pooled = h.pooled;
  settled = h.settled;
  pool_chain = h.pool_chain;
  settlement_chain = h.settlement_chain;
  withdraws_nonneg = h.withdraws_nonneg;
  codes_nonneg = h.codes_nonneg;
  codes_keyed = h.codes_keyed;
  one_withdraw = h.one_withdraw;
  one_topup = one;
}

-- One row changes and is open only if it was.
pub changed-IsConsistent :
    (db : Db) (k : ℕ) (f : TopupSession → TopupSession) (s : TopupSession)
    → IsConsistent db
    → find topup_id k db.topups ≡ some s
    → ((u : ℕ) → is_open_topup_for u (f s) ≡ true → is_open_topup_for u s ≡ true)
    → IsConsistent (record db { topups = modify topup_id k f db.topups })
changed-IsConsistent db k f s h found keep = topups-IsConsistent db _ h λ u. grind (
  arith,
  h.one_topup u,
  count-modify_found (is_open_topup_for u) topup_id k f db.topups s found (keep u),
)

found_owned : (u : ℕ) (o : Option TopupSession) (s : TopupSession) → owned u o ≡ some s → o ≡ some s
found_owned u none s e = absurd (ground arith)
found_owned u (some x) s e = ground arith

-- A created session keeps the books consistent, whatever the draw and the state that the routing query read.
pub create_topup_session-IsConsistent :
    (draw : ℤ → ℤ) (clock : Clock) (id : ℕ) (snapshot : Db) (input : CreateTopup) (db : Db)
    → IsConsistent db
    → Ensures (λ _ db'. IsConsistent db') (create_topup_session draw clock id snapshot input db)
unfolding create_topup_session count
create_topup_session-IsConsistent draw clock id snapshot input db h = throw_if_rule _ _ _ _ db λ _.
    get_rule _ _ db (
      throw_if_rule _ _ _ _ db λ none_open. or_throw_rule _ _ _ _ db λ picked _.
        alloc_public_no_rule _ _ _ _ _ λ no counters. insert_topup_rule _ _ _ _ λ _.
          topups-IsConsistent (record db { counters = counters }) _
            (counters-IsConsistent db counters h)
            λ u.
              ground (arith, h.one_topup u, none_open, count-none (is_open_topup_for u) db.topups))

-- A confirmation by the member that succeeds keeps the books consistent.
pub confirm_topup_by_member-IsConsistent :
    (clock : Clock) (u id : ℕ) (db : Db)
    → IsConsistent db
    → Ensures (λ _ db'. IsConsistent db') (confirm_topup_by_member clock u id db)
unfolding confirm_topup_by_member
confirm_topup_by_member-IsConsistent clock u id db h = get_rule _ _ db (
    or_throw_rule _ _ _ _ db λ s e. throw_if_rule _ _ _ _ db λ open_still.
      step_ok _ _ _ _ _ _ refl (
        changed-IsConsistent db id (confirmed clock) s h (found_owned u _ s e)
          (λ v o. ground (arith, open_still))))

-- A cancellation by the member that succeeds keeps the books consistent.
pub cancel_topup_by_member-IsConsistent :
    (clock : Clock) (u id : ℕ) (db : Db)
    → IsConsistent db
    → Ensures (λ _ db'. IsConsistent db') (cancel_topup_by_member clock u id db)
unfolding cancel_topup_by_member
cancel_topup_by_member-IsConsistent clock u id db h = get_rule _ _ db (
    or_throw_rule _ _ _ _ db λ s e. throw_if_rule _ _ _ _ db λ open_still.
      step_ok _ _ _ _ _ _ refl (
        changed-IsConsistent db id (cancelled clock) s h (found_owned u _ s e)
          (λ v o. ground (arith, open_still))))

-- Setting the payment details of a session keeps the books consistent.
pub set_topup_session_payment_info-IsConsistent :
    (input : PaymentInfo) (db : Db)
    → IsConsistent db
    → Ensures (λ _ db'. IsConsistent db') (set_topup_session_payment_info input db)
unfolding set_topup_session_payment_info
set_topup_session_payment_info-IsConsistent input db h = get_rule _ _ db (
    or_throw_rule _ _ _ _ db λ s e. throw_if_rule _ _ _ _ db λ open_still.
      step_ok _ _ _ _ _ _ refl (
        changed-IsConsistent db input.session_id (with_payment_info input) s h
          (found_owned input.user_id _ s e) (λ v o. ground (arith, open_still))))

count-expire :
    (clock : Clock) (u : ℕ) (rows : List TopupSession)
    → count (is_open_topup_for u) (map (expire_topup clock) rows) ≤ count (is_open_topup_for u) rows
unfolding count
count-expire clock u [] = omega arith
count-expire clock u (s ∷ rows) = ground (arith, count-expire clock u rows)

-- The expiry of stale sessions keeps the books consistent.
pub expire_stale_topup_sessions-IsConsistent :
    (clock : Clock) (db : Db)
    → IsConsistent db
    → Ensures (λ _ db'. IsConsistent db') (expire_stale_topup_sessions clock db)
unfolding expire_stale_topup_sessions
expire_stale_topup_sessions-IsConsistent clock db h =
    topups-IsConsistent db _ h λ u. grind (arith, h.one_topup u, count-expire clock u db.topups)
