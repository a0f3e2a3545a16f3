-- ===== src/Fees/Rounding.antt =====
-- What the rounding of apps/api/src/lib/fees.ts guarantees.
use c_zdan.Common.{ℕ, suc, ◌+◌, ◌*◌, ◌%◌, ◌≤◌, ◌<◌, ◌≡◌, some, arith}
use c_zdan.Common.Int.{
  ℤ, pos, negsuc, pos_part, neg_part, ◌+ℤ◌, ◌-ℤ◌, ◌*ℤ◌, ◌≤ℤ◌, int_laws, quot_ℤ, rem_ℤ,
}
use c_zdan.Fees.{FeeInput, round_bps, compute_fee_minor, net_after_fee}

-- `q` is `p / 10000` rounded to the nearest whole number, ties to the even one.
pub record IsHalfEven (p q : ℕ) : Type 0 where
  pub not_above : 20000 * q ≤ 2 * p + 10000
  pub not_below : 2 * p ≤ 20000 * q + 10000
  pub tie_even : 20000 * q ≡ 2 * p + 10000 → q % 2 ≡ 0
  pub tie_even' : 2 * p ≡ 20000 * q + 10000 → q % 2 ≡ 0

-- At most one number is the half-even rounding of another.
pub IsHalfEven-unique : (p q r : ℕ) → IsHalfEven p q → IsHalfEven p r → q ≡ r
IsHalfEven-unique p q r a b = ground (arith, a.tie_even, a.tie_even', b.tie_even, b.tie_even')

pub round_bps-pos : (p : ℕ) → (q : ℕ) × (round_bps (pos p) ≡ pos q) × IsHalfEven p q
unfolding round_bps quot_ℤ rem_ℤ ◌*ℤ◌ ◌+ℤ◌ ◌-ℤ◌
round_bps-pos p = (
  pos_part (round_bps (pos p)),
  ground arith,
  record {
    not_above = ground arith;
    not_below = ground arith;
    tie_even = ground arith;
    tie_even' = ground arith;
  },
)

-- The percentage part of a fee is the half-even rounding of amount times rate; the flat part is
-- added after it.
pub compute_fee-IsHalfEven :
    (a b : ℕ) (flat : ℤ)
    → (q : ℕ) × (compute_fee_minor
          (record { amount = some (pos a); commission_pct = some (pos b); fixed_fee = some flat })
        ≡ pos q +ℤ flat)
      × IsHalfEven (a * b) q
unfolding compute_fee_minor ◌*ℤ◌
compute_fee-IsHalfEven a b flat =
    let (q, e, h) = round_bps-pos (a * b) in (q, rw (mul-pos a b) (rw e), h)
  where
    mul-pos : (a b : ℕ) → pos a *ℤ pos b ≡ pos (a * b)
    mul-pos a b = ground arith

-- A negative product is rounded with an error below or at one half too, but one that lies halfway
-- goes toward zero, to an odd number as well.
pub round_bps-negsuc :
    (p : ℕ)
    → (q : ℕ) × (round_bps (negsuc p) ≡ pos 0 -ℤ pos q)
      × (20000 * q < 2 * suc p + 10000)
      × (2 * suc p ≤ 20000 * q + 10000)
unfolding round_bps quot_ℤ rem_ℤ ◌*ℤ◌ ◌+ℤ◌ ◌-ℤ◌
round_bps-negsuc p = (neg_part (round_bps (negsuc p)), ground arith, ground arith, ground arith)

half_even_bounds : (a b q : ℕ) → IsHalfEven (a * b) q → b ≤ 10000 → q ≤ a
half_even_bounds a b q h hb = grind (arith, h)

-- A rate of at most 100% and no flat fee: the fee is between nothing and the amount, so the net
-- is never negative.
pub fee_within_amount :
    (a b : ℕ)
    → b ≤ 10000
    → let input : FeeInput = record {
      amount = some (pos a);
      commission_pct = some (pos b);
      fixed_fee = some (pos 0);
    } in
      (pos 0 ≤ℤ compute_fee_minor input)
      × (compute_fee_minor input ≤ℤ pos a)
      × (pos 0 ≤ℤ net_after_fee input)
unfolding net_after_fee
fee_within_amount a b hb =
    let (q, e, h) = compute_fee-IsHalfEven a b (pos 0) in
    let le = half_even_bounds a b q h hb in rw e (grind (int_laws, le))

half_even_mono : (p p' q q' : ℕ) → IsHalfEven p q → IsHalfEven p' q' → p ≤ p' → q ≤ q'
half_even_mono p p' q q' a b h = ground (arith, a.tie_even, a.tie_even', b.tie_even, b.tie_even')

-- A larger amount never has a smaller fee, at the same nonnegative rate and flat fee.
pub compute_fee-mono :
    (a a' b : ℕ) (flat : ℤ)
    → a ≤ a'
    → compute_fee_minor
        (record { amount = some (pos a); commission_pct = some (pos b); fixed_fee = some flat })
      ≤ℤ compute_fee_minor
          (record { amount = some (pos a'); commission_pct = some (pos b); fixed_fee = some flat })
compute_fee-mono a a' b flat le =
    let (q, e, h) = compute_fee-IsHalfEven a b flat in
    let (q', e', h') = compute_fee-IsHalfEven a' b flat in
    let le' = half_even_mono (a * b) (a' * b) q q' h h' (grind arith) in
    rw (e, e') (grind (int_laws, le'))
