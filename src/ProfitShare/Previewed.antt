-- ===== src/ProfitShare/Previewed.antt =====
-- What a preview computes with the rows that the driver gives.
use c_zdan.Common.{ℕ, ◌≡◌, refl, Bool, none, List, [], ◌∷◌, map, arith}
use c_zdan.Common.Int.{ℤ, pos, pos_part, ◌-ℤ◌, int_laws}
use c_zdan.Store.{Db, Ensures}
use c_zdan.Store.Rules.{get_rule, throw_if_rule}
use c_zdan.ProfitShare.{
  compute_profit_share_net_profit, compute_pool_amount, sum, distribute_pro_rata_allocations,
  PeriodSums, EconomicsRows, fetch_platform_economics, Recipient, PreviewInput, compute_preview,
}

-- The rows have their column names for keys, and no key `0`.
pub record IsNamed (rows : EconomicsRows) : Type 0 where
  pub no_zero_of_econ : (r c : ℤ) → rows.zero_of_econ r c ≡ none
  pub no_zero_of_total : (t : ℤ) → rows.zero_of_total t ≡ none

nothing_left : (n : ℕ) → pos_part (pos 0 -ℤ pos 0 -ℤ pos 0 -ℤ pos n) ≡ 0
nothing_left n = grind int_laws

net_zero : (n : ℕ) → compute_profit_share_net_profit (pos 0) (pos 0) (pos 0) (pos n) ≡ 0
unfolding compute_profit_share_net_profit
net_zero n = nothing_left n

pool_zero : (pct : ℕ) → compute_pool_amount 0 pct ≡ 0
unfolding compute_pool_amount
pool_zero pct = grind arith

sum-zeros : (ts : List ℕ) → sum (map (λ _. 0) ts) ≡ 0
unfolding sum
sum-zeros [] = refl
sum-zeros (t ∷ ts) = omega (arith, sum-zeros ts)

shares_zero :
    (share : ℕ → ℕ → ℕ → ℕ) (ts : List ℕ) → sum (distribute_pro_rata_allocations share ts 0) ≡ 0
unfolding distribute_pro_rata_allocations
shares_zero share ts = sum-zeros ts

abbrev no_sums : PeriodSums
no_sums = record { revenue = pos 0; cost = pos 0; affiliate = pos 0 }

fetch_nothing :
    (rows : EconomicsRows) (b : Bool) (sums : PeriodSums)
    → IsNamed rows
    → fetch_platform_economics rows b sums ≡ no_sums
unfolding fetch_platform_economics
fetch_nothing rows b sums named =
    ground
      (arith, named.no_zero_of_econ sums.revenue sums.cost, named.no_zero_of_total sums.affiliate)

-- With rows whose keys are their columns, every preview that succeeds has no net profit, an empty
-- pool and nothing for anybody, whatever the period's revenue and cost.
pub compute_preview-empty :
    (share : ℕ → ℕ → ℕ → ℕ) (rows : EconomicsRows) (sums : PeriodSums) (ranking : List Recipient)
    (input : PreviewInput) (db : Db)
    → IsNamed rows
    → Ensures
        (λ p d.
          (d ≡ db) × ((p.net_profit ≡ 0) × ((p.pool_amount ≡ 0) × (sum p.allocated_amounts ≡ 0))))
        (compute_preview share rows sums ranking input db)
unfolding compute_preview
compute_preview-empty share rows sums ranking input db named = throw_if_rule _ _ _ _ db λ _.
    throw_if_rule _ _ _ _ db λ _. get_rule _ _ db (
      rw
        (
          fetch_nothing rows input.affiliates_enabled sums named,
          net_zero db.cumulative_overhead,
          pool_zero input.distribution_pct,
        )
        (refl, (refl, (refl, shares_zero share _))))
