-- ===== src/Hmac/Replay.antt =====
-- What later requests with the reference are told.
use text.Mathlib.TextPositions.{eq_refl}
use c_zdan.Common.{
  ℕ, ◌+◌, ◌≤◌, ◌≡◌, refl, ◌∙◌, Bool, true, false, none, some, String, str_eq, arith, Bool-cases,
  inl, inr,
}
use c_zdan.Hmac.{
  SlotKey, same_key, Slot, Slots, with_slot, Answer, mismatch, claim, answer_by, persist_claimed,
  persist_unclaimed, sweep, is_cacheable,
}
use c_zdan.Hmac.Protocol.{
  State, Step, Reach, finish, starts, ends, turns_away, sweeps, here, next, same_key_sound,
  same_key_refl, is_kept,
}
use c_zdan.Hmac.AtMostOnce.{IsClaimed, Reach-IsClaimed}

-- A finished row stays as it is until it is swept.
Step-stays :
    {s t : State} (k : SlotKey) (r : Slot)
    → Step s t
    → IsClaimed s k
    → s.slots k ≡ some r
    → 1 ≤ r.status_code
    → t.swept k ≡ s.swept k
    → (t.slots k ≡ some r) × (t.started k ≡ s.started k)
unfolding claim with_slot persist_claimed persist_unclaimed sweep
Step-stays {s} {t} k r (starts now j hash slots e q) h there done unswept =
    elim (Bool-cases (same_key j k)) [
      | inl p ↦ let p = same_key_sound j k p in ground (arith, p, q)
      | inr p ↦ ground (arith, q)
    ]
Step-stays {s} {t} k r (ends now j has_error a running real q) h there done unswept =
    elim (Bool-cases (same_key j k)) [
      | inl p ↦ let p = same_key_sound j k p in ground (arith, p, q, h.placed)
      | inr p ↦ ground (arith, q)
    ]
Step-stays {s} {t} k r (turns_away now j hash seen q) h there done unswept =
    elim (Bool-cases (same_key j k)) [
      | inl p ↦ let p = same_key_sound j k p in ground (arith, p, q)
      | inr p ↦ ground (arith, q)
    ]
Step-stays {s} {t} k r (sweeps now kept q) h there done unswept = ground (arith, q)

Step-swept : {s t : State} (k : SlotKey) → Step s t → s.swept k ≤ t.swept k
unfolding sweep
Step-swept {s} {t} k (starts now j hash slots e q) = ground (arith, q)
Step-swept {s} {t} k (ends now j has_error a running real q) = ground (arith, q)
Step-swept {s} {t} k (turns_away now j hash seen q) = ground (arith, q)
Step-swept {s} {t} k (sweeps now kept q) = ground (arith, q)

Reach-swept : {s t : State} (k : SlotKey) → Reach s t → s.swept k ≤ t.swept k
Reach-swept k here = omega arith
Reach-swept k (next r st) = omega (arith, Reach-swept k r, Step-swept k st)

pub Reach-stays :
    {s t : State} (k : SlotKey) (r : Slot)
    → Reach s t
    → ((j : SlotKey) → IsClaimed s j)
    → s.slots k ≡ some r
    → 1 ≤ r.status_code
    → t.swept k ≡ s.swept k
    → (t.slots k ≡ some r) × (t.started k ≡ s.started k)
Reach-stays k r here h there done unswept = (there, refl)
Reach-stays {s} {t} k r (next {t = u} path st) h there done unswept =
    let before : u.swept k ≡ s.swept k = omega (arith, Reach-swept k path, Step-swept k st) in
    let (kept, ran) = Reach-stays k r path h there done before in
    let (kept', ran') =
      Step-stays k r st (Reach-IsClaimed h path k) kept done (omega (arith, before, unswept)) in
    (kept', ran' ∙ ran)

pub answer_by-finished :
    (hash : String) (r : Slot)
    → 1 ≤ r.status_code
    → r.request_hash ≡ hash
    → answer_by hash (some r) ≡ record { status = r.status_code; body = r.response_body }
unfolding answer_by
answer_by-finished hash r done e = ground (arith, eq_refl hash)

pub answer_by-mismatch :
    (hash : String) (r : Slot)
    → 1 ≤ r.status_code
    → str_eq r.request_hash hash ≡ false
    → answer_by hash (some r) ≡ mismatch
unfolding answer_by
answer_by-mismatch hash r done e = ground arith

pub claim-taken :
    (now : ℕ) (k : SlotKey) (hash : String) (slots : Slots) (r : Slot)
    → slots k ≡ some r
    → claim now k hash slots ≡ none
unfolding claim
claim-taken now k hash slots r e = ground arith

pub finish-row :
    (s : State) (now : ℕ) (k : SlotKey) (has_error : Bool) (a : Answer) (r : Slot)
    → is_kept has_error a.status ≡ true
    → s.slots k ≡ some r
    → (r' : Slot) × (((finish s now k has_error a).slots k ≡ some r')
        × ((r'.request_hash ≡ r.request_hash)
            × ((r'.status_code ≡ a.status) × (r'.response_body ≡ a.body))))
unfolding persist_claimed with_slot
finish-row s now k has_error a r kept there = elim (Bool-cases (is_cacheable has_error a.status)) [
  | inl c ↦ (
    record r { status_code = a.status; response_body = a.body },
    (ground (arith, same_key_refl k), (refl, (refl, refl))),
  )
  | inr c ↦ (
    record r { status_code = a.status; response_body = a.body; expires_at = now + 86400000 },
    (ground (arith, same_key_refl k), (refl, (refl, refl))),
  )
]
