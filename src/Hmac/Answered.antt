-- ===== src/Hmac/Answered.antt =====
-- What later requests with a reference are told, once its handler has answered; and a refusal that
-- is stored in the place of an answer.
use c_zdan.Common.{
  ℕ, ◌+◌, ◌≤◌, ◌≡◌, refl, sym, ap, ◌∙◌, subst, Bool, true, false, none, some, String, str_eq, arith,
}
use c_zdan.Hmac.{
  SlotKey, Slot, Slots, with_slot, Answer, concurrent, mismatch, claim, answer_by, persist_claimed,
  persist_unclaimed, placeholder,
}
use c_zdan.Hmac.Protocol.{
  State, Reach, empty, start, finish, starts, ends, turns_away, here, next, same_key_refl, is_kept,
}
use c_zdan.Hmac.AtMostOnce.{IsClaimed, finish-IsClaimed, Reach-IsClaimed, empty-IsClaimed}
use c_zdan.Hmac.Replay.{
  Reach-stays, answer_by-finished, answer_by-mismatch, claim-taken, finish-row,
}

-- A handler's answer below 500 is the answer of its reference: whatever happens after it, short of a
-- sweep of its row, no handler is started again for the reference, no request claims it, one with
-- the same body is told the same status and body, and one with another is refused.
pub finish-replays :
    {s t : State} (now : ℕ) (k : SlotKey) (has_error : Bool) (a : Answer) (r : Slot) (later : ℕ)
    (other : String)
    → Reach empty s
    → s.slots k ≡ some r
    → 1 ≤ s.running k
    → 100 ≤ a.status
    → is_kept has_error a.status ≡ true
    → Reach (finish s now k has_error a) t
    → t.swept k ≡ s.swept k
    → str_eq r.request_hash other ≡ false
    → (t.started k ≡ s.started k)
      × ((claim later k r.request_hash t.slots ≡ none)
          × ((answer_by r.request_hash (t.slots k) ≡ a) × (answer_by other (t.slots k) ≡ mismatch)))
finish-replays {s} {t} now k has_error a r later other before there running real kept after unswept
      differs =
    (
      stays.1,
      (
        claim-taken later k r.request_hash t.slots row.0 stays.0,
        (
          ap (answer_by r.request_hash) stays.0
              ∙ answer_by-finished r.request_hash row.0 finished row.1.1.0
              ∙ same row.0 row.1.1.1.0 row.1.1.1.1,
          ap (answer_by other) stays.0
              ∙ answer_by-mismatch other row.0 finished
                  (subst (λ x. str_eq x other ≡ false) (sym row.1.1.0) differs),
        ),
      ),
    )
  where
    row :
        (r' : Slot) × (((finish s now k has_error a).slots k ≡ some r')
          × ((r'.request_hash ≡ r.request_hash)
              × ((r'.status_code ≡ a.status) × (r'.response_body ≡ a.body))))
    row = finish-row s now k has_error a r kept there

    claimed : (j : SlotKey) → IsClaimed s j
    claimed = Reach-IsClaimed empty-IsClaimed before

    finished : 1 ≤ row.0.status_code
    finished = omega (arith, row.1.1.1.0)

    stays : (t.slots k ≡ some row.0) × (t.started k ≡ s.started k)
    stays =
        Reach-stays k row.0 after
          (λ j. finish-IsClaimed s now k has_error a j running real (claimed k) (claimed j)) row.1.0
          finished unswept

    same :
        (x : Slot)
        → x.status_code ≡ a.status
        → x.response_body ≡ a.body
        → record { status = x.status_code; body = x.response_body } ≡ a
    same x p q = cc

abbrev pub claimed_slots : ℕ → SlotKey → String → Slots
claimed_slots now k hash = with_slot k (some (placeholder now hash)) empty.slots

-- A request claims the key, another loses to it, the handler of the first ends with `failure`, and
-- the second stores the refusal that it was told.
abbrev pub refused_late : ℕ → SlotKey → String → Answer → State
refused_late now k hash failure =
    let running = start empty k (claimed_slots now k hash) in
    let failed = finish running now k true failure in
    record failed { slots = persist_unclaimed now k hash concurrent failed.slots }

refused_late-Reach :
    (now : ℕ) (k : SlotKey) (hash : String) (failure : Answer)
    → 500 ≤ failure.status
    → Reach empty (refused_late now k hash failure)
unfolding claim persist_claimed persist_unclaimed with_slot answer_by
refused_late-Reach now k hash failure bad =
    next
      (next (next here (starts now k hash (claimed_slots now k hash) refl refl))
        (ends now k true failure (ground (arith, same_key_refl k)) (omega arith) refl))
      (turns_away now k hash (some (placeholder now hash)) refl)

-- The row that the refusal becomes.
abbrev refusal_row : ℕ → String → Slot
refusal_row now hash = record {
  request_hash = hash;
  status_code = concurrent.status;
  response_body = concurrent.body;
  expires_at = now + 86400000;
}

refused_late-row :
    (now : ℕ) (k : SlotKey) (hash : String) (failure : Answer)
    → 500 ≤ failure.status
    → ((refused_late now k hash failure).slots k ≡ some (refusal_row now hash))
      × (((refused_late now k hash failure).running k ≡ 0)
          × (((refused_late now k hash failure).started k ≡ 1)
              × ((refused_late now k hash failure).cleared k ≡ 1)))
unfolding persist_claimed persist_unclaimed with_slot
refused_late-row now k hash failure bad = (
  ground (arith, same_key_refl k),
  (
    ground (arith, same_key_refl k),
    (ground (arith, same_key_refl k), ground (arith, same_key_refl k)),
  ),
)

-- A request that lost to a handler which then ended with a server error may store its own refusal
-- after the row was deleted: this state is reached, no handler runs in it, and the only one that was
-- started has cleared its row. From then on, whatever happens and short of a sweep of the row, no
-- handler is started for the reference, no request claims it, and one with the same body is told that
-- another is in progress.
pub refusal_outlives_run :
    (now : ℕ) (k : SlotKey) (hash : String) (failure : Answer) (t : State) (later : ℕ)
    → 500 ≤ failure.status
    → Reach (refused_late now k hash failure) t
    → t.swept k ≡ 0
    → (Reach empty (refused_late now k hash failure)
        × (((refused_late now k hash failure).running k ≡ 0)
            × (((refused_late now k hash failure).started k ≡ 1)
                × ((refused_late now k hash failure).cleared k ≡ 1))))
      × ((t.started k ≡ 1)
          × ((claim later k hash t.slots ≡ none) × (answer_by hash (t.slots k) ≡ concurrent)))
refusal_outlives_run now k hash failure t later bad after unswept =
    let reached = refused_late-Reach now k hash failure bad in
    let (row, counts) = refused_late-row now k hash failure bad in
    let (kept, ran) =
      Reach-stays k (refusal_row now hash) after (Reach-IsClaimed empty-IsClaimed reached) row
        (omega arith) unswept in
    (
      (reached, counts),
      (
        ran ∙ counts.1.0,
        (
          claim-taken later k hash t.slots (refusal_row now hash) kept,
          ap (answer_by hash) kept
              ∙ answer_by-finished hash (refusal_row now hash) (omega arith) refl,
        ),
      ),
    )
