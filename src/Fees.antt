-- ===== src/Fees.antt =====
-- apps/api/src/lib/fees.ts: integer fee arithmetic.
pub mod Rounding
use c_zdan.Common.{ℕ, ◌+◌, ◌%◌, Bool, Option, none, some, ◌==◌, if◌then◌else◌}
use c_zdan.Common.Int.{
  ℤ, pos, negsuc, pos_part, neg_part, ◌+ℤ◌, ◌-ℤ◌, ◌*ℤ◌, ltb_ℤ, eqb_ℤ, quot_ℤ, rem_ℤ,
}

-- A value of a `numeric(14,2)` column, or a percentage with two decimals, counted in hundredths.
-- An absent value counts as nothing.
abbrev pub to_minor_units : Option ℤ → ℤ
to_minor_units none = pos 0
to_minor_units (some n) = n

abbrev pub ten_thousand : ℕ
ten_thousand = 10000

abbrev is_even_ℤ : ℤ → Bool
is_even_ℤ q = (pos_part q + neg_part q) % 2 == 0

pub record FeeInput : Type 0 where
  pub amount : Option ℤ
  pub commission_pct : Option ℤ
  pub fixed_fee : Option ℤ

-- The unit added on rounding away from zero: `product < 0n ? -1n : 1n`.
abbrev away_unit : ℤ → ℤ
away_unit product = if ltb_ℤ product (pos 0) then negsuc 0 else pos 1

-- The rounding step of `computeFeeMinor`: `product / 10_000`.
unfoldable pub round_bps : ℤ → ℤ
round_bps product =
    let quot = quot_ℤ product ten_thousand in
    let half_way = rem_ℤ product ten_thousand *ℤ pos 2 in
    if eqb_ℤ half_way (pos ten_thousand)
    then if is_even_ℤ quot then quot else quot +ℤ away_unit product
    else if ltb_ℤ (pos ten_thousand) half_way
    then quot +ℤ away_unit product
    else if ltb_ℤ half_way (negsuc 9999)
    then quot -ℤ pos 1
    else quot

unfoldable pub compute_fee_minor : FeeInput → ℤ
compute_fee_minor input =
    let amount_minor = to_minor_units input.amount in
    let pct_bps = to_minor_units input.commission_pct in
    let flat_minor = to_minor_units input.fixed_fee in
    round_bps (amount_minor *ℤ pct_bps) +ℤ flat_minor

pub net_after_fee : FeeInput → ℤ
net_after_fee input = to_minor_units input.amount -ℤ compute_fee_minor input

pub apply_percent : ℤ → ℤ → ℤ
apply_percent amount pct =
    compute_fee_minor
      (record { amount = some amount; commission_pct = some pct; fixed_fee = some (pos 0) })
