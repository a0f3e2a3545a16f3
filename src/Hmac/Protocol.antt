-- ===== src/Hmac/Protocol.antt =====
-- Any number of requests at once over the idempotency table: a step is one statement on the table,
-- with the handler's start or end beside it.
use text.Mathlib.TextEquality.{eq_iff}
use text.Mathlib.TextPositions.{eq_refl}
use c_zdan.Common.{
  ℕ, suc, ◌-◌, ◌≤◌, ◌≡◌, Bool, true, Option, none, some, String, arith, if◌then◌else◌,
}
use c_zdan.Hmac.{
  SlotKey, same_key, Slot, Slots, Answer, claim, answer_by, persist_claimed, persist_unclaimed,
  sweep, is_cacheable, is_client_error,
}

-- The table; how many handlers run for a key; and, for each key, how many were ever started, how
-- many ended with a server error, so that their row was deleted, and how many rows were swept.
pub record State : Type 0 where
  pub slots : Slots
  pub running : SlotKey → ℕ
  pub started : SlotKey → ℕ
  pub cleared : SlotKey → ℕ
  pub swept : SlotKey → ℕ

abbrev pub bump : SlotKey → (SlotKey → ℕ) → SlotKey → ℕ
bump k f j = if same_key k j then suc (f j) else f j

abbrev pub drop : SlotKey → (SlotKey → ℕ) → SlotKey → ℕ
drop k f j = if same_key k j then f j - 1 else f j

abbrev pub gone : Option Slot → Option Slot → ℕ → ℕ
gone (some s) none n = suc n
gone _ _ n = n

-- The row is kept by the answer of the request that claimed it.
abbrev pub is_kept : Bool → ℕ → Bool
is_kept has_error status = if is_cacheable has_error status then true else is_client_error status

abbrev pub start : State → SlotKey → Slots → State
start s k slots = record s { slots = slots; running = bump k s.running; started = bump k s.started }

abbrev pub finish : State → ℕ → SlotKey → Bool → Answer → State
finish s now k has_error a = record s {
  slots = persist_claimed now k has_error a s.slots;
  running = drop k s.running;
  cleared = if is_kept has_error a.status then s.cleared else bump k s.cleared;
}

abbrev pub clean : State → ℕ → State
clean s now = record s {
  slots = sweep now s.slots;
  swept = λ j. gone (s.slots j) (sweep now s.slots j) (s.swept j);
}

-- A row that a request lost to may have been read at any earlier time, so `seen` is any row. The
-- sweep comes while no handler runs longer than its placeholder lasts.
pub data Step (s t : State) : Type 0 where
  starts :
      (now : ℕ) (k : SlotKey) (hash : String) (slots : Slots)
      → claim now k hash s.slots ≡ some slots
      → t ≡ start s k slots
      → Step s t
  ends :
      (now : ℕ) (k : SlotKey) (has_error : Bool) (a : Answer)
      → 1 ≤ s.running k
      → 100 ≤ a.status
      → t ≡ finish s now k has_error a
      → Step s t
  turns_away :
      (now : ℕ) (k : SlotKey) (hash : String) (seen : Option Slot)
      → t ≡ record s { slots = persist_unclaimed now k hash (answer_by hash seen) s.slots }
      → Step s t
  sweeps :
      (now : ℕ)
      → ((k : SlotKey) → 1 ≤ s.running k → sweep now s.slots k ≡ s.slots k)
      → t ≡ clean s now
      → Step s t

abbrev pub empty : State
empty = record {
  slots = λ k. none;
  running = λ k. 0;
  started = λ k. 0;
  cleared = λ k. 0;
  swept = λ k. 0;
}

pub data Reach (s : State) : State → Type 0 where
  here : Reach s s
  next : {t u : State} → Reach s t → Step t u → Reach s u

pub same_key_sound : (a b : SlotKey) → same_key a b ≡ true → a ≡ b
unfolding same_key
same_key_sound a b e =
    ground (arith, eq_iff a.endpoint b.endpoint, eq_iff a.merchant_ref b.merchant_ref)

pub same_key_refl : (a : SlotKey) → same_key a a ≡ true
unfolding same_key
same_key_refl a = ground (arith, eq_refl a.endpoint, eq_refl a.merchant_ref)
