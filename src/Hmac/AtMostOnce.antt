-- ===== src/Hmac/AtMostOnce.antt =====
-- How often the handler of a reference runs.
use c_zdan.Common.{
  ℕ, ◌+◌, ◌≤◌, ◌≡◌, sym, subst, Bool, Option, none, some, String, arith, ◌==◌, if◌then◌else◌,
  Bool-cases, inl, inr,
}
use c_zdan.Hmac.{
  SlotKey, same_key, Slot, Slots, with_slot, Answer, claim, answer_by, persist_claimed,
  persist_unclaimed, sweep,
}
use c_zdan.Hmac.Protocol.{
  State, Step, Reach, empty, start, finish, clean, starts, ends, turns_away, sweeps, here, next,
  same_key_sound,
}

-- The handlers that run, by the row: one for a placeholder.
abbrev pub expected : Option Slot → ℕ
expected none = 0
expected (some r) = if r.status_code == 0 then 1 else 0

abbrev pub occupied : Option Slot → ℕ
occupied none = 0
occupied (some r) = 1

pub record IsClaimed (s : State) (k : SlotKey) : Type 0 where
  pub placed : s.running k ≡ expected (s.slots k)
  pub counted : s.started k ≤ s.cleared k + s.swept k + occupied (s.slots k)

start-IsClaimed :
    (s : State) (now : ℕ) (k : SlotKey) (hash : String) (slots : Slots) (j : SlotKey)
    → claim now k hash s.slots ≡ some slots
    → IsClaimed s j
    → IsClaimed (start s k slots) j
unfolding claim with_slot
start-IsClaimed s now k hash slots j e h = elim (Bool-cases (same_key k j)) [
  | inl q ↦ let p = same_key_sound k j q in ground (arith, p)
  | inr q ↦ ground arith
]

pub finish-IsClaimed :
    (s : State) (now : ℕ) (k : SlotKey) (has_error : Bool) (a : Answer) (j : SlotKey)
    → 1 ≤ s.running k
    → 100 ≤ a.status
    → IsClaimed s k
    → IsClaimed s j
    → IsClaimed (finish s now k has_error a) j
unfolding persist_claimed with_slot
finish-IsClaimed s now k has_error a j running real hk h = elim (Bool-cases (same_key k j)) [
  | inl e ↦ let p = same_key_sound k j e in ground (arith, p, hk.placed)
  | inr e ↦ ground arith
]

turn_away-IsClaimed :
    (s : State) (now : ℕ) (k : SlotKey) (hash : String) (a : Answer) (j : SlotKey)
    → IsClaimed s j
    → IsClaimed (record s { slots = persist_unclaimed now k hash a s.slots }) j
unfolding persist_unclaimed with_slot
turn_away-IsClaimed s now k hash a j h = elim (Bool-cases (same_key k j)) [
  | inl e ↦ let p = same_key_sound k j e in ground (arith, p)
  | inr e ↦ ground arith
]

clean-IsClaimed :
    (s : State) (now : ℕ) (j : SlotKey)
    → (1 ≤ s.running j → sweep now s.slots j ≡ s.slots j)
    → IsClaimed s j
    → IsClaimed (clean s now) j
unfolding sweep
clean-IsClaimed s now j kept h = ground (arith, kept)

pub Step-IsClaimed :
    {s t : State} → Step s t → ((k : SlotKey) → IsClaimed s k) → (j : SlotKey) → IsClaimed t j
Step-IsClaimed {s} (starts now k hash slots e q) h j =
    subst (λ u. IsClaimed u j) (sym q) (start-IsClaimed s now k hash slots j e (h j))
Step-IsClaimed {s} (ends now k has_error a running real q) h j =
    subst (λ u. IsClaimed u j) (sym q)
      (finish-IsClaimed s now k has_error a j running real (h k) (h j))
Step-IsClaimed {s} (turns_away now k hash seen q) h j =
    subst (λ u. IsClaimed u j) (sym q)
      (turn_away-IsClaimed s now k hash (answer_by hash seen) j (h j))
Step-IsClaimed {s} (sweeps now kept q) h j =
    subst (λ u. IsClaimed u j) (sym q) (clean-IsClaimed s now j (kept j) (h j))

pub Reach-IsClaimed :
    {s t : State} → ((k : SlotKey) → IsClaimed s k) → Reach s t → (j : SlotKey) → IsClaimed t j
Reach-IsClaimed h here j = h j
Reach-IsClaimed h (next r st) j = Step-IsClaimed st (Reach-IsClaimed h r) j

pub empty-IsClaimed : (j : SlotKey) → IsClaimed empty j
empty-IsClaimed j = omega arith

expected-le : (o : Option Slot) → expected o ≤ 1
expected-le none = omega arith
expected-le (some r) = ground arith

occupied-le : (o : Option Slot) → occupied o ≤ 1
occupied-le none = omega arith
occupied-le (some r) = omega arith

-- Whatever requests come and in whatever order, at most one handler runs for a merchant, endpoint and
-- reference at a time, and over time a handler was started at most once more often than its row was
-- deleted, after a server error or by the sweep of expired rows, if no sweep takes the row of a
-- handler that runs.
pub Reach-once :
    {t : State}
    → Reach empty t
    → (k : SlotKey) → (t.running k ≤ 1) × (t.started k ≤ t.cleared k + t.swept k + 1)
Reach-once {t} r k =
    let h = Reach-IsClaimed empty-IsClaimed r k in
    (
      omega (arith, h.placed, expected-le (t.slots k)),
      omega (arith, h.counted, occupied-le (t.slots k)),
    )
