-- ===== src/Ledger/Laws.antt =====
-- How the sums behind the books move when a row is added or changed.
use c_zdan.Common.{ℕ, ◌+◌, ◌≤◌, ◌≡◌, refl, ◌∙◌, Bool, true, false, some, List, [], ◌∷◌, arith}
use c_zdan.Common.Int.{
  ℤ, pos, ◌+ℤ◌, ◌-ℤ◌, ◌≤ℤ◌, int_laws, greatest, greatest_of_le, eq_of_parts, pos_part, neg_part,
}
use c_zdan.Common.Table.{find, modify, total, any, count}
use c_zdan.Schema.{WithdrawSession, withdraw_id, PaymentCode, code_id}
use c_zdan.Ledger.{open_for, active_for, AmountsNonneg, CodesNonneg}

-- What is reserved may be split: a further amount in either part.
pub hold_first : (r x w c : ℤ) → r ≡ w +ℤ c → r +ℤ x ≡ x +ℤ w +ℤ c
hold_first r x w c e = rw e (omega int_laws)

pub hold_second : (r x w c : ℤ) → r ≡ w +ℤ c → r +ℤ x ≡ w +ℤ (x +ℤ c)
hold_second r x w c e = rw e (omega int_laws)

-- An amount that is held is released whole: the bound at nothing is not met.
pub release_first :
    (r x w c : ℤ)
    → r ≡ w +ℤ c
    → x ≤ℤ w
    → pos 0 ≤ℤ c
    → greatest (r -ℤ x) (pos 0) ≡ w -ℤ x +ℤ pos 0 +ℤ c
release_first r x w c e le nn =
    rw (greatest_of_le (r -ℤ x) (pos 0) (rw e (omega int_laws))) (rw e (omega int_laws))

pub release_second :
    (r x w c : ℤ)
    → r ≡ w +ℤ c
    → x ≤ℤ c
    → pos 0 ≤ℤ w
    → greatest (r -ℤ x) (pos 0) ≡ w +ℤ (c -ℤ x +ℤ pos 0)
release_second r x w c e le nn =
    rw (greatest_of_le (r -ℤ x) (pos 0) (rw e (omega int_laws))) (rw e (omega int_laws))

open_for-nonneg : (u : ℕ) (s : WithdrawSession) → pos 0 ≤ℤ s.amount → pos 0 ≤ℤ open_for u s
open_for-nonneg u s h = ground arith

pub total-open_nonneg :
    (u : ℕ) (rows : List WithdrawSession) → AmountsNonneg rows → pos 0 ≤ℤ total (open_for u) rows
unfolding total
total-open_nonneg u [] h = omega arith
total-open_nonneg u (s ∷ rows) h =
    omega (int_laws, open_for-nonneg u s h.0, total-open_nonneg u rows h.1)

-- An open session's amount is part of what is held for its member.
pub open-le-total :
    (u k : ℕ) (rows : List WithdrawSession) (s : WithdrawSession)
    → AmountsNonneg rows
    → find withdraw_id k rows ≡ some s
    → open_for u s ≤ℤ total (open_for u) rows
unfolding total find
open-le-total u k [] s h e = absurd (ground arith)
open-le-total u k (x ∷ rows) s h e =
    grind (
      int_laws,
      open_for-nonneg u x h.0,
      total-open_nonneg u rows h.1,
      open-le-total u k rows s h.1,
    )

active_for-nonneg : (u : ℕ) (c : PaymentCode) → pos 0 ≤ℤ c.amount → pos 0 ≤ℤ active_for u c
active_for-nonneg u c h = ground arith

pub total-active_nonneg :
    (u : ℕ) (rows : List PaymentCode) → CodesNonneg rows → pos 0 ≤ℤ total (active_for u) rows
unfolding total
total-active_nonneg u [] h = omega arith
total-active_nonneg u (c ∷ rows) h =
    omega (int_laws, active_for-nonneg u c h.0, total-active_nonneg u rows h.1)

pub active-le-total :
    (u k : ℕ) (rows : List PaymentCode) (c : PaymentCode)
    → CodesNonneg rows
    → find code_id k rows ≡ some c
    → active_for u c ≤ℤ total (active_for u) rows
unfolding total find
active-le-total u k [] c h e = absurd (ground arith)
active-le-total u k (x ∷ rows) c h e = grind (
  int_laws,
  active_for-nonneg u x h.0,
  total-active_nonneg u rows h.1,
  active-le-total u k rows c h.1,
)

pub AmountsNonneg-modify :
    (k : ℕ) (f : WithdrawSession → WithdrawSession) (rows : List WithdrawSession)
    → ((s : WithdrawSession) → (f s).amount ≡ s.amount)
    → AmountsNonneg rows
    → AmountsNonneg (modify withdraw_id k f rows)
unfolding modify
AmountsNonneg-modify k f [] same h = tt
AmountsNonneg-modify k f (s ∷ rows) same h =
    ground (arith, same s, AmountsNonneg-modify k f rows same h.1)

pub CodesNonneg-modify :
    (k : ℕ) (f : PaymentCode → PaymentCode) (rows : List PaymentCode)
    → ((c : PaymentCode) → (f c).amount ≡ c.amount)
    → CodesNonneg rows
    → CodesNonneg (modify code_id k f rows)
unfolding modify
CodesNonneg-modify k f [] same h = tt
CodesNonneg-modify k f (c ∷ rows) same h =
    ground (arith, same c, CodesNonneg-modify k f rows same h.1)

-- Rows that fail a test are not counted, and changing a row so that it fails adds none.
pub count-none {ℓ} :
    {R : Type ℓ} (p : R → Bool) (rows : List R) → any p rows ≡ false → count p rows ≡ 0
unfolding any count
count-none p [] h = refl
count-none p (r ∷ rows) h = ground (arith, count-none p rows)

pub count-modify_le {ℓ} :
    {R : Type ℓ} (p : R → Bool) (key : R → ℕ) (k : ℕ) (f : R → R) (rows : List R)
    → ((r : R) → p (f r) ≡ true → p r ≡ true)
    → count p (modify key k f rows) ≤ count p rows
unfolding modify count
count-modify_le p key k f [] keep = omega arith
count-modify_le p key k f (r ∷ rows) keep =
    ground (arith, keep r, count-modify_le p key k f rows keep)

-- The same for the row that is found.
pub count-modify_found {ℓ} :
    {R : Type ℓ} (p : R → Bool) (key : R → ℕ) (k : ℕ) (f : R → R) (rows : List R) (r : R)
    → find key k rows ≡ some r
    → (p (f r) ≡ true → p r ≡ true)
    → count p (modify key k f rows) ≤ count p rows
unfolding find modify count
count-modify_found p key k f [] r e keep = omega arith
count-modify_found p key k f (x ∷ rows) r e keep =
    ground (arith, count-modify_found p key k f rows r)

pub find-nonneg :
    (k : ℕ) (rows : List WithdrawSession) (s : WithdrawSession)
    → AmountsNonneg rows
    → find withdraw_id k rows ≡ some s
    → pos 0 ≤ℤ s.amount
unfolding find
find-nonneg k [] s h e = absurd (ground arith)
find-nonneg k (x ∷ rows) s h e = ground (arith, find-nonneg k rows s h.1)

pub find_code-nonneg :
    (k : ℕ) (rows : List PaymentCode) (c : PaymentCode)
    → CodesNonneg rows
    → find code_id k rows ≡ some c
    → pos 0 ≤ℤ c.amount
unfolding find
find_code-nonneg k [] c h e = absurd (ground arith)
find_code-nonneg k (x ∷ rows) c h e = ground (arith, find_code-nonneg k rows c h.1)

-- Taking from an amount and from the sum of its changes.
pub take_logged : (p x t : ℤ) → p ≡ t → p -ℤ x ≡ pos 0 -ℤ x +ℤ t
take_logged p x t e = rw e (omega int_laws)

pub take_chained : (p x : ℤ) → p -ℤ x +ℤ x +ℤ (pos 0 -ℤ x) ≡ p -ℤ x
take_chained p x = omega int_laws

-- Adding to them.
pub add_logged : (p x t : ℤ) → p ≡ t → p +ℤ x ≡ x +ℤ t
add_logged p x t e = rw e (omega int_laws)

-- Nothing was held, and an amount that is part of it is nothing.
pub release_nothing :
    (x w c : ℤ) → pos 0 ≡ w +ℤ c → x ≤ℤ w → pos 0 ≤ℤ x → pos 0 ≤ℤ c → pos 0 ≡ w -ℤ x +ℤ pos 0 +ℤ c
release_nothing x w c e le nx nc = grind (int_laws, nothing w c e nc (omega arith))
  where
    nothing : (w c : ℤ) → pos 0 ≡ w +ℤ c → pos 0 ≤ℤ c → pos 0 ≤ℤ w → (w ≡ pos 0) × (c ≡ pos 0)
    nothing w c e nc nw =
        (eq_of_parts w (pos 0) (parts w c e nc nw).0, eq_of_parts c (pos 0) (parts w c e nc nw).1)
      where
        parts :
            (w c : ℤ)
            → pos 0 ≡ w +ℤ c
            → pos 0 ≤ℤ c
            → pos 0 ≤ℤ w
            → (pos_part w + 0 ≡ 0 + neg_part w) × (pos_part c + 0 ≡ 0 + neg_part c)
        parts w c e nc nw = grind (int_laws)

pub release_nothing_second :
    (x w c : ℤ) → pos 0 ≡ w +ℤ c → x ≤ℤ c → pos 0 ≤ℤ x → pos 0 ≤ℤ w → pos 0 ≡ w +ℤ (c -ℤ x +ℤ pos 0)
release_nothing_second x w c e le nx nw =
    release_nothing x c w (rw e (omega int_laws)) le nx nw ∙ omega int_laws
