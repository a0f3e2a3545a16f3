-- ===== src/Loyalty/Scoring.antt =====
-- Spend points, the penalty on a withdraw, and the cooldown after frequent withdraws.
use c_zdan.Common.{
  ℕ, zero, suc, ◌+◌, ◌*◌, ◌/◌, Bool, true, false, ◌&&◌, ◌||◌, Option, none, some, List, [], ◌∷◌,
  ltb, leb, ◌==◌, if◌then◌else◌,
}
use c_zdan.Common.Int.{ℤ, pos, negsuc, ◌+ℤ◌, ◌-ℤ◌, leb_ℤ, eqb_ℤ, greatest}
use c_zdan.Common.Table.{any, count}
use c_zdan.Schema.{TxType, is_completed, PointsReason, PointsRow, Transaction}
use c_zdan.Store.{ok, Clock, Trx, ◌>>◌, pure, update_account, log_points}

abbrev pub rolling_window : ℕ
rolling_window = 30 * 86400000

abbrev pub withdraw_cooldown_threshold : ℕ
withdraw_cooldown_threshold = 3

pub record SpendContext : Type 0 where
  pub monthly_spend_count : ℕ
  pub streak_days : ℕ
  pub in_cooldown : Bool

-- `floor(base × factors)` in floating point: the multiplier, the count, the streak, the cooldown.
abbrev pub Score : Type 0
Score = ℕ → ℤ → SpendContext → ℤ

-- `Math.floor(amount / 10)` of an amount in lira, from the amount in kuruş.
abbrev pub tens : ℤ → ℕ
tens (pos a) = a / 1000
tens (negsuc a) = 0

-- `computeSpendPoints`: the tests, around the product of factors.
unfoldable pub compute_spend_points : Score → ℤ → ℤ → SpendContext → ℤ
compute_spend_points score amount multiplier context =
    if leb_ℤ amount (pos 0) || leb_ℤ multiplier (pos 0)
    then pos 0
    else if leb (tens amount) 0
    then pos 0
    else score (tens amount) multiplier context

-- `isInCooldown`.
abbrev pub is_in_cooldown : Clock → Option ℕ → Bool
is_in_cooldown clock none = false
is_in_cooldown clock (some until) = ltb clock.now until

abbrev pub is_withdraw : TxType → Bool
is_withdraw TxType.merchant_withdraw = true
is_withdraw _ = false

abbrev pub is_spend : TxType → Bool
is_spend TxType.spend = true
is_spend _ = false

-- `created_at >= now() - 30 days`.
abbrev in_window : Clock → Transaction → Bool
in_window clock t = leb clock.now (t.created_at + rolling_window)

-- `queryMonthlySpendCount`.
unfoldable pub monthly_spend_count : Clock → ℕ → List Transaction → ℕ
monthly_spend_count clock u rows =
    count (λ t. t.user_id == u && (is_spend t.type && (is_completed t.status && in_window clock t)))
      rows

-- `SELECT DISTINCT day … ORDER BY day DESC`, one row more: the UTC day of a time is its number.
unfoldable pub insert_day : ℕ → List ℕ → List ℕ
insert_day d [] = d ∷ []
insert_day d (x ∷ xs) =
    if d == x then x ∷ xs else if ltb x d then d ∷ x ∷ xs else x ∷ insert_day d xs

abbrev pub day_of : ℕ → ℕ
day_of t = t / 86400000

unfoldable pub spend_days : ℕ → List Transaction → List ℕ
spend_days u [] = []
spend_days u (t ∷ rows) =
    let days = spend_days u rows in
    if t.user_id == u && (is_spend t.type && is_completed t.status)
    then insert_day (day_of t.created_at) days
    else days

-- The loop of `queryStreakDays`, from index `i`, over at most `n` rows.
unfoldable pub streak_from : ℕ → ℕ → ℕ → List ℕ → ℕ
streak_from zero today i days = 0
streak_from (suc n) today i [] = 0
streak_from (suc n) today i (d ∷ days) =
    let rest = streak_from n today (i + 1) days in if d + i == today then suc rest else 0

-- `queryStreakDays`.
unfoldable pub streak_days : Clock → ℕ → List Transaction → ℕ
streak_days clock u rows = streak_from 365 (day_of clock.now) 0 (spend_days u rows)

-- `loadLoyaltySpendContext`, with the cooldown that the caller has read.
unfoldable pub load_spend_context : Clock → ℕ → Option ℕ → List Transaction → SpendContext
load_spend_context clock u cooldown_until rows = record {
  monthly_spend_count = monthly_spend_count clock u rows;
  streak_days = streak_days clock u rows;
  in_cooldown = is_in_cooldown clock cooldown_until;
}

-- The count that `maybeSetWithdrawCooldown` makes.
unfoldable pub withdraw_count : Clock → ℕ → List Transaction → ℕ
withdraw_count clock u rows =
    count
      (λ t. t.user_id == u && (is_withdraw t.type && (is_completed t.status && in_window clock t)))
      rows

-- `maybeSetWithdrawCooldown`.
unfoldable pub maybe_set_withdraw_cooldown : Clock → ℕ → Trx (Bool × ℕ)
maybe_set_withdraw_cooldown clock u db =
    let n = withdraw_count clock u db.transactions in
    if ltb n withdraw_cooldown_threshold
    then ok ((false, n), db)
    else (update_account u (λ a. record a { cooldown_until = some (clock.now + rolling_window) })
          >> pure (true, n))
        db

-- `computeWithdrawPenalty`: -floor(amount / 10) × 2.
unfoldable pub compute_withdraw_penalty : ℤ → ℤ
compute_withdraw_penalty amount =
    if leb_ℤ amount (pos 0) then pos 0 else pos 0 -ℤ pos (tens amount * 2)

abbrev is_penalty : PointsReason → Bool
is_penalty PointsReason.withdraw_penalty = true
is_penalty _ = false

abbrev is_ref : ℕ → Option ℕ → Bool
is_ref t none = false
is_ref t (some k) = k == t

-- The row that `applyWithdrawPenalty` looks for.
abbrev pub is_penalty_for : ℕ → ℕ → PointsRow → Bool
is_penalty_for u t r = r.user_id == u && (is_penalty r.reason && is_ref t r.reference_id)

abbrev deduct : ℕ → ℕ → ℤ → Trx ℤ
deduct u t penalty = do
  update_account u (λ a. record a { total_points = greatest (a.total_points +ℤ penalty) (pos 0) })
  log_points (record {
    user_id = u;
    points = penalty;
    reason = PointsReason.withdraw_penalty;
    reference_id = some t;
  })
  pure penalty

-- `applyWithdrawPenalty`: at most once for each transaction; the points stop at nothing.
unfoldable pub apply_withdraw_penalty : ℕ → ℤ → ℕ → Trx ℤ
apply_withdraw_penalty u amount t db =
    let penalty = compute_withdraw_penalty amount in
    if eqb_ℤ penalty (pos 0) || any (is_penalty_for u t) db.points_log
    then ok (penalty, db)
    else deduct u t penalty db
