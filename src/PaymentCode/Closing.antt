-- ===== src/PaymentCode/Closing.antt =====
-- The books around a payment code that stops being active.
use c_zdan.Common.{ℕ, ◌≡◌, ◌≢◌, refl, true, false, none, some, List, [], ◌∷◌, arith}
use c_zdan.Common.Int.{ℤ, pos, ◌+ℤ◌, ◌-ℤ◌, int_laws, greatest}
use c_zdan.Common.Table.{any, put, total, modify, find, total-modify}
use c_zdan.Schema.{Account, PaymentCode, code_id, is_active_code}
use c_zdan.Store.{Db}
use c_zdan.PaymentCode.Consume.{code_key}
use c_zdan.Ledger.{
  open_for, active_for, reserved_or_zero, reserved_of, CodesNonneg, CodesKeyed, has_code_id,
  IsConsistent,
}
use c_zdan.Ledger.Laws.{
  release_second, release_nothing_second, find_code-nonneg, active-le-total, total-open_nonneg,
  CodesNonneg-modify,
}

abbrev pub closed : Db → PaymentCode → (PaymentCode → PaymentCode) → List PaymentCode
closed db c close = modify code_id c.id close db.codes

minus_nothing : (a : ℤ) → a -ℤ pos 0 +ℤ pos 0 ≡ a
minus_nothing a = omega int_laws

any_code-modify :
    (i k : ℕ) (f : PaymentCode → PaymentCode) (rows : List PaymentCode)
    → ((c : PaymentCode) → (f c).id ≡ c.id)
    → any (has_code_id i) (modify code_id k f rows) ≡ any (has_code_id i) rows
unfolding any modify
any_code-modify i k f [] same = refl
any_code-modify i k f (c ∷ rows) same = ground (arith, same c, any_code-modify i k f rows same)

pub CodesKeyed-modify :
    (k : ℕ) (f : PaymentCode → PaymentCode) (rows : List PaymentCode)
    → ((c : PaymentCode) → (f c).id ≡ c.id)
    → CodesKeyed rows
    → CodesKeyed (modify code_id k f rows)
unfolding any modify
CodesKeyed-modify k f [] same h = tt
CodesKeyed-modify k f (c ∷ rows) same h =
    ground (arith, same c, any_code-modify c.id k f rows same, CodesKeyed-modify k f rows same h.1)

-- A row that is found is found by its own id.
find-any :
    (i : ℕ) (rows : List PaymentCode) (c : PaymentCode)
    → find code_id i rows ≡ some c
    → any (has_code_id i) rows ≡ true
unfolding any find
find-any i [] c e = ground arith
find-any i (x ∷ rows) c e = ground (arith, find-any i rows c)

pub found_by_id :
    (k : ℕ) (rows : List PaymentCode) (c : PaymentCode)
    → CodesKeyed rows
    → find code_key k rows ≡ some c
    → find code_id c.id rows ≡ some c
unfolding find
found_by_id k [] c h e = ground arith
found_by_id k (x ∷ rows) c h e = ground (arith, found_by_id k rows c h.1, find-any c.id rows c, h.0)

module _ (db : Db) (c : PaymentCode) (h : IsConsistent db)
    (found : find code_id c.id db.codes ≡ some c) (active : is_active_code c.status ≡ true)
    (close : PaymentCode → PaymentCode)
    (closes : (r : PaymentCode) → is_active_code (close r).status ≡ false)
    (same : (r : PaymentCode) → (close r).id ≡ r.id)
    (keeps : (r : PaymentCode) → (close r).amount ≡ r.amount) where
  total-closed :
      (u : ℕ)
      → total (active_for u) (closed db c close)
        ≡ total (active_for u) db.codes -ℤ active_for u c +ℤ pos 0
  total-closed u =
      ground (arith, closes c, total-modify (active_for u) code_id c.id close db.codes c found)

  pub closed_nonneg : CodesNonneg (closed db c close)
  closed_nonneg = CodesNonneg-modify c.id close db.codes keeps h.codes_nonneg

  pub closed_keyed : CodesKeyed (closed db c close)
  closed_keyed = CodesKeyed-modify c.id close db.codes same h.codes_keyed

  released :
      (acc : Account)
      → db.accounts c.user_id ≡ some acc
      → greatest (acc.reserved_balance -ℤ c.amount) (pos 0)
        ≡ total (open_for c.user_id) db.withdraws
          +ℤ total (active_for c.user_id) (closed db c close)
  released acc ea = rw (total-closed c.user_id) (
      ground (
        arith,
        ea,
        active,
        release_second acc.reserved_balance c.amount (total (open_for c.user_id) db.withdraws)
            (total (active_for c.user_id) db.codes),
        h.held_back c.user_id,
        active-le-total c.user_id c.id db.codes c h.codes_nonneg found,
        total-open_nonneg c.user_id db.withdraws h.withdraws_nonneg,
      ))

  released_missing :
      db.accounts c.user_id ≡ none
      → pos 0
        ≡ total (open_for c.user_id) db.withdraws
          +ℤ total (active_for c.user_id) (closed db c close)
  released_missing ea = rw (total-closed c.user_id) (
      ground (
        arith,
        ea,
        active,
        release_nothing_second c.amount (total (open_for c.user_id) db.withdraws)
            (total (active_for c.user_id) db.codes),
        h.held_back c.user_id,
        find_code-nonneg c.id db.codes c h.codes_nonneg found,
        active-le-total c.user_id c.id db.codes c h.codes_nonneg found,
        total-open_nonneg c.user_id db.withdraws h.withdraws_nonneg,
      ))

  others_total :
      (u : ℕ)
      → c.user_id ≢ u
      → total (active_for u) (closed db c close) ≡ total (active_for u) db.codes
  others_total u ne =
      rw (total-closed u) (ground (arith, minus_nothing (total (active_for u) db.codes)))

  -- What is reserved afterwards is what is held without the code.
  pub held_released :
      (acc acc' : Account)
      → db.accounts c.user_id ≡ some acc
      → acc'.reserved_balance ≡ greatest (acc.reserved_balance -ℤ c.amount) (pos 0)
      → (u : ℕ)
      → reserved_or_zero (put c.user_id acc' db.accounts u)
        ≡ total (open_for u) db.withdraws +ℤ total (active_for u) (closed db c close)
  held_released acc acc' ea e u = ground (arith, ea, h.held_back u, released acc ea, others_total u)

  pub held_missing :
      db.accounts c.user_id ≡ none
      → (u : ℕ)
      → reserved_of db u
        ≡ total (open_for u) db.withdraws +ℤ total (active_for u) (closed db c close)
  held_missing ea u = ground (arith, ea, h.held_back u, released_missing ea, others_total u)
