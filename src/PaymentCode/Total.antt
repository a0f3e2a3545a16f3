-- ===== src/PaymentCode/Total.antt =====
-- When a cancellation succeeds.
use c_zdan.Common.{ℕ, ◌≡◌, refl, true, false, some, List, arith, ◌==◌, Option-cases, inl, inr}
use c_zdan.Common.Int.{ℤ, pos, ◌-ℤ◌, ◌≤ℤ◌, int_laws, greatest, greatest_of_le}
use c_zdan.Common.Table.{put, modify, find, find-key, find-modify_self}
use c_zdan.Ledger.{balance_of, reserved_of}
use c_zdan.Schema.{Account, account_checks, PaymentCode, CodeStatus, code_id, is_active_code}
use c_zdan.Store.{
  Error, ok, err, Db, Clock, release, get, or_throw, throw_if, ◌>>=◌, update_account,
}
use c_zdan.PaymentCode.Create.{find_owned_code, mark_cancelled, cancel_payment_code}

release_bounds :
    (r x : ℤ)
    → pos 0 ≤ℤ r
    → pos 0 ≤ℤ x
    → (pos 0 ≤ℤ greatest (r -ℤ x) (pos 0)) × (greatest (r -ℤ x) (pos 0) ≤ℤ r)
unfolding greatest
release_bounds r x nr nx = grind int_laws

-- Releasing a reservation never breaks the checks on the account.
pub release_holds :
    (x : ℤ) (a : Account)
    → account_checks a ≡ true
    → pos 0 ≤ℤ x
    → account_checks (release x a) ≡ true
release_holds x a h nx = ground (arith, release_bounds a.reserved_balance x)

taken_off : (r x : ℤ) → x ≤ℤ r → greatest (r -ℤ x) (pos 0) ≡ r -ℤ x
taken_off r x h = greatest_of_le (r -ℤ x) (pos 0) (omega int_laws)

cancel_payment_code_run :
    (clock : Clock) (u id : ℕ) (db : Db) (c : PaymentCode) (a : Account)
    → find_owned_code u id db.codes ≡ some c
    → db.accounts u ≡ some a
    → account_checks a ≡ true
    → pos 0 ≤ℤ c.amount
    → is_active_code c.status ≡ true
    → cancel_payment_code clock u id db
      ≡ ok (
        tt,
        record db {
          codes = modify code_id id (mark_cancelled clock) db.codes;
          accounts = put u (release c.amount a) db.accounts;
        },
      )
unfolding cancel_payment_code get or_throw throw_if ◌>>=◌ update_account
cancel_payment_code_run clock u id db c a found ea holds nonneg active =
    rw (found, active) (rw (ea, release_holds c.amount a holds nonneg) refl)

cancel_payment_code_idle :
    (clock : Clock) (u id : ℕ) (db : Db) (c : PaymentCode)
    → find_owned_code u id db.codes ≡ some c
    → is_active_code c.status ≡ false
    → cancel_payment_code clock u id db ≡ err Error.code_not_active
unfolding cancel_payment_code get or_throw throw_if ◌>>=◌
cancel_payment_code_idle clock u id db c found idle = rw (found, idle) refl

owned-found :
    (u id : ℕ) (rows : List PaymentCode) (c : PaymentCode)
    → find_owned_code u id rows ≡ some c
    → (find code_id id rows ≡ some c) × ((c.user_id == u) ≡ true)
unfolding find_owned_code
owned-found u id rows c e = elim (Option-cases (find code_id id rows)) [
  | inl f ↦ absurd (ground (arith, f))
  | inr (x, f) ↦ ground (arith, f)
]

cancelled-found :
    (clock : Clock) (u id : ℕ) (rows : List PaymentCode) (c : PaymentCode)
    → find code_id id rows ≡ some c
    → (c.user_id == u) ≡ true
    → find_owned_code u id (modify code_id id (mark_cancelled clock) rows)
      ≡ some (mark_cancelled clock c)
unfolding find_owned_code
cancelled-found clock u id rows c there mine =
    rw
      (
        find-modify_self code_id id (mark_cancelled clock) rows c there
            (find-key code_id id rows c there),
        mine,
      )
      refl

-- The cancellation of an active code by its member, whose account satisfies the checks and has the
-- code's amount, which is not negative, in its reservation, succeeds: the code's row is then the
-- member's cancelled one, the reservation is less by exactly the amount, the balance is the same, and
-- a second cancellation of the code, at any time, is refused as not active.
pub cancel_payment_code_total :
    (clock : Clock) (u id : ℕ) (db : Db) (c : PaymentCode) (a : Account) (later : Clock)
    → find_owned_code u id db.codes ≡ some c
    → is_active_code c.status ≡ true
    → db.accounts u ≡ some a
    → account_checks a ≡ true
    → pos 0 ≤ℤ c.amount
    → c.amount ≤ℤ a.reserved_balance
    → (db' : Db) × ((cancel_payment_code clock u id db ≡ ok (tt, db'))
        × (((r : PaymentCode) × ((find_owned_code u id db'.codes ≡ some r)
                × ((r.status ≡ CodeStatus.cancelled) × (r.amount ≡ c.amount))))
            × ((reserved_of db' u ≡ reserved_of db u -ℤ c.amount)
                × ((balance_of db' u ≡ balance_of db u)
                    × (cancel_payment_code later u id db' ≡ err Error.code_not_active)))))
cancel_payment_code_total clock u id db c a later found active ea holds nonneg covered =
    let d : Db = record db {
      codes = modify code_id id (mark_cancelled clock) db.codes;
      accounts = put u (release c.amount a) db.accounts;
    } in
    let (there, mine) = owned-found u id db.codes c found in
    let gone : find_owned_code u id d.codes ≡ some (mark_cancelled clock c) =
      cancelled-found clock u id db.codes c there mine in
    (
      d,
      (
        cancel_payment_code_run clock u id db c a found ea holds nonneg active,
        (
          (mark_cancelled clock c, (gone, (refl, refl))),
          (
            ground (arith, ea, taken_off a.reserved_balance c.amount covered),
            (
              ground (arith, ea),
              cancel_payment_code_idle later u id d (mark_cancelled clock c) gone refl,
            ),
          ),
        ),
      ),
    )
