-- ===== src/Withdraw/Closing.antt =====
-- The session that a withdraw callback closes, and the money that it held.
use c_zdan.Common.{List, false, none, subst, ◌≢◌, ℕ, ◌≤◌, ◌≡◌, refl, sym, arith, some, true, false}
use c_zdan.Common.Int.{ℤ, pos, ◌+ℤ◌, ◌-ℤ◌, int_laws, greatest}
use c_zdan.Common.Table.{total, count, find, find-key, modify, total-modify}
use c_zdan.Schema.{is_open_withdraw, Account, WithdrawSession, withdraw_id, is_open_for}
use c_zdan.Store.{Db, Ensures}
use c_zdan.Store.Rules.{get_rule, throw_if_rule, or_throw_rule}
use c_zdan.Ledger.{AmountsNonneg, open_for, active_for, IsConsistent}
use c_zdan.Ledger.Laws.{
  release_nothing, find-nonneg, release_first, open-le-total, total-active_nonneg,
  AmountsNonneg-modify, count-modify_le,
}
use c_zdan.Withdraw.Finalize.{WithdrawCallback, is_final_withdraw, open_session}

-- What `open_session` has checked.
pub record IsOpen (db : Db) (input : WithdrawCallback) (s : WithdrawSession) : Type 0 where
  pub found : find withdraw_id input.internal_ref db.withdraws ≡ some s
  pub mine : s.merchant_id ≡ input.merchant_id
  pub not_final : is_final_withdraw s.status ≡ false

pub open_session_checks :
    (input : WithdrawCallback) (db : Db)
    → Ensures (λ s db'. (db' ≡ db) × IsOpen db input s) (open_session input db)
unfolding open_session
open_session_checks input db = get_rule _ _ db (
    or_throw_rule _ _ _ _ db λ s found. throw_if_rule _ _ _ _ db λ mine.
      throw_if_rule _ _ _ _ db
        λ open_still. (refl, record { found = found; mine = ground arith; not_final = open_still }))

abbrev pub closed :
    Db → WithdrawSession → (WithdrawSession → WithdrawSession) → List WithdrawSession
closed db s close = modify withdraw_id s.id close db.withdraws

minus_nothing : (a : ℤ) → a -ℤ pos 0 +ℤ pos 0 ≡ a
minus_nothing a = omega int_laws

-- The books around the session that a callback closes.
module _ (db : Db) (input : WithdrawCallback) (s : WithdrawSession) (h : IsConsistent db)
    (o : IsOpen db input s) (close : WithdrawSession → WithdrawSession)
    (closes : (r : WithdrawSession) → is_open_withdraw (close r).status ≡ false)
    (keeps : (r : WithdrawSession) → (close r).amount ≡ r.amount) where
  pub found_by_id : find withdraw_id s.id db.withdraws ≡ some s
  found_by_id =
      subst (λ k. find withdraw_id k db.withdraws ≡ some s)
        (sym (find-key withdraw_id input.internal_ref db.withdraws s o.found)) o.found

  pub total-closed :
      (u : ℕ)
      → total (open_for u) (closed db s close)
        ≡ total (open_for u) db.withdraws -ℤ open_for u s +ℤ pos 0
  total-closed u =
      ground (
        arith,
        closes s,
        total-modify (open_for u) withdraw_id s.id close db.withdraws s found_by_id,
      )

  pub closed_nonneg : AmountsNonneg (closed db s close)
  closed_nonneg = AmountsNonneg-modify s.id close db.withdraws keeps h.withdraws_nonneg

  pub closed_one : (u : ℕ) → count (is_open_for u) (closed db s close) ≤ 1
  closed_one u = grind (
    arith,
    h.one_withdraw u,
    count-modify_le (is_open_for u) withdraw_id s.id close db.withdraws
        (λ r e. ground (arith, closes r)),
  )

  pub still_open : is_open_withdraw s.status ≡ true
  still_open = ground (arith, o.not_final)

  -- What the release leaves reserved is what is held without the session.
  pub released :
      (acc : Account)
      → db.accounts s.user_id ≡ some acc
      → greatest (acc.reserved_balance -ℤ s.amount) (pos 0)
        ≡ total (open_for s.user_id) (closed db s close) +ℤ total (active_for s.user_id) db.codes
  released acc ea = rw (total-closed s.user_id) (
      ground (
        arith,
        ea,
        still_open,
        release_first acc.reserved_balance s.amount (total (open_for s.user_id) db.withdraws)
            (total (active_for s.user_id) db.codes),
        h.held_back s.user_id,
        open-le-total s.user_id s.id db.withdraws s h.withdraws_nonneg found_by_id,
        total-active_nonneg s.user_id db.codes h.codes_nonneg,
      ))

  -- A member without an account holds nothing, with the session or without it.
  pub released_missing :
      db.accounts s.user_id ≡ none
      → pos 0
        ≡ total (open_for s.user_id) (closed db s close) +ℤ total (active_for s.user_id) db.codes
  released_missing ea = rw (total-closed s.user_id) (
      ground (
        arith,
        ea,
        still_open,
        release_nothing s.amount (total (open_for s.user_id) db.withdraws)
            (total (active_for s.user_id) db.codes),
        h.held_back s.user_id,
        find-nonneg s.id db.withdraws s h.withdraws_nonneg found_by_id,
        open-le-total s.user_id s.id db.withdraws s h.withdraws_nonneg found_by_id,
        total-active_nonneg s.user_id db.codes h.codes_nonneg,
      ))

  pub others_total :
      (u : ℕ)
      → s.user_id ≢ u
      → total (open_for u) (closed db s close) ≡ total (open_for u) db.withdraws
  others_total u ne =
      rw (total-closed u) (ground (arith, minus_nothing (total (open_for u) db.withdraws)))
