-- ===== src/ProfitShare/Allocate.antt =====
-- The arithmetic of apps/api/src/services/admin/profit-share.service.ts in whole kuruş and
-- hundredths of a percent.
use c_zdan.Common.{
  ℕ, zero, suc, ◌+◌, ◌-◌, ◌*◌, ◌/◌, ◌%◌, List, [], ◌∷◌, map, ◌||◌, ◌==◌, if◌then◌else◌,
}
use c_zdan.Common.Int.{ℤ, pos_part, ◌-ℤ◌}

-- `computeProfitShareNetProfit`: floored at zero.
unfoldable pub compute_profit_share_net_profit : ℤ → ℤ → ℤ → ℤ → ℕ
compute_profit_share_net_profit revenue cost affiliate overhead =
    pos_part (revenue -ℤ cost -ℤ affiliate -ℤ overhead)

-- `computePoolAmount`: a half is rounded up.
unfoldable pub compute_pool_amount : ℕ → ℕ → ℕ
compute_pool_amount net_profit distribution_pct = (net_profit * distribution_pct + 5000) / 10000

unfoldable pub sum : List ℕ → ℕ
sum [] = 0
sum (x ∷ xs) = x + sum xs

abbrev pub length : List ℕ → ℕ
length [] = 0
length (x ∷ xs) = suc (length xs)

-- `cents[i] += 1`.
unfoldable pub increment : ℕ → List ℕ → List ℕ
increment i [] = []
increment zero (c ∷ cents) = suc c ∷ cents
increment (suc i) (c ∷ cents) = c ∷ increment i cents

-- The loop: what remains goes round, from the first rank on.
unfoldable pub give_remainder : ℕ → ℕ → List ℕ → List ℕ
give_remainder zero i cents = cents
give_remainder (suc remainder) i cents =
    give_remainder remainder (i + 1) (increment (i % length cents) cents)

-- `share t total pool` is `Math.floor((t / total) * pool)`, in floating point.
module _ (share : ℕ → ℕ → ℕ → ℕ) where
  unfoldable pub floor_cents : ℕ → ℕ → List ℕ → List ℕ
  floor_cents total pool [] = []
  floor_cents total pool (t ∷ ts) = share t total pool ∷ floor_cents total pool ts

  -- Where the pool or the turnover is nothing, so is every share.
  unfoldable pub distribute_pro_rata_allocations : List ℕ → ℕ → List ℕ
  distribute_pro_rata_allocations turnovers pool =
      if pool == 0 || sum turnovers == 0
      then map (λ _. 0) turnovers
      else give_remainder (pool - sum (floor_cents (sum turnovers) pool turnovers)) 0
          (floor_cents (sum turnovers) pool turnovers)
