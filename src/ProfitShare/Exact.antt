-- ===== src/ProfitShare/Exact.antt =====
-- The shares add up to the pool.
use c_zdan.Common.{
  ℕ, zero, suc, ◌+◌, ◌-◌, ◌*◌, ◌%◌, ◌≤◌, ◌<◌, ◌≡◌, refl, List, [], ◌∷◌, map, arith, ◌||◌, false,
  ◌==◌,
}
use c_zdan.ProfitShare.{
  sum, length, increment, give_remainder, floor_cents, distribute_pro_rata_allocations,
}

length-increment : (i : ℕ) (cents : List ℕ) → length (increment i cents) ≡ length cents
unfolding increment
length-increment i [] = refl
length-increment zero (c ∷ cents) = refl
length-increment (suc i) (c ∷ cents) = omega (arith, length-increment i cents)

sum-increment :
    (i : ℕ) (cents : List ℕ) → i < length cents → sum (increment i cents) ≡ sum cents + 1
unfolding increment sum
sum-increment i [] h = absurd (omega arith)
sum-increment zero (c ∷ cents) h = omega arith
sum-increment (suc i) (c ∷ cents) h = omega (arith, sum-increment i cents)

length-give_remainder :
    (r i : ℕ) (cents : List ℕ) → length (give_remainder r i cents) ≡ length cents
unfolding give_remainder
length-give_remainder zero i cents = refl
length-give_remainder (suc r) i cents = omega (
  arith,
  length-give_remainder r (i + 1) (increment (i % length cents) cents),
  length-increment (i % length cents) cents,
)

sum-give_remainder :
    (r i : ℕ) (cents : List ℕ) → 0 < length cents → sum (give_remainder r i cents) ≡ sum cents + r
unfolding give_remainder
sum-give_remainder zero i cents h = omega arith
sum-give_remainder (suc r) i cents h = omega (
  arith,
  sum-give_remainder r (i + 1) (increment (i % length cents) cents)
      (omega (arith, length-increment (i % length cents) cents)),
  sum-increment (i % length cents) cents (mod_lt i (length cents) h),
)
  where
    mod_lt : (i n : ℕ) → 0 < n → i % n < n
    mod_lt i n h = grind arith

-- A share is at most the exact product, but for a relative error of one in `unit`. IEEE arithmetic has
-- at most one in 2^53 for each operation: for `n` turnovers, their sum, the quotient and the product,
-- some (n + 4) in 2^53.
pub record IsNear (unit : ℕ) (share : ℕ → ℕ → ℕ → ℕ) : Type 0 where
  pub not_above : (t total pool : ℕ) → share t total pool * total * unit ≤ t * pool * (unit + 1)

length-floor_cents :
    (share : ℕ → ℕ → ℕ → ℕ) (total pool : ℕ) (ts : List ℕ)
    → length (floor_cents share total pool ts) ≡ length ts
unfolding floor_cents
length-floor_cents share total pool [] = refl
length-floor_cents share total pool (t ∷ ts) = omega (arith, length-floor_cents share total pool ts)

add_scaled :
    (a b t s total pool unit : ℕ)
    → a * total * unit ≤ t * pool * (unit + 1)
    → b * total * unit ≤ s * pool * (unit + 1)
    → (a + b) * total * unit ≤ (t + s) * pool * (unit + 1)
add_scaled a b t s total pool unit h k = grind arith

sum-floor_cents :
    (unit : ℕ) (share : ℕ → ℕ → ℕ → ℕ) (total pool : ℕ) (ts : List ℕ)
    → IsNear unit share
    → sum (floor_cents share total pool ts) * total * unit ≤ sum ts * pool * (unit + 1)
unfolding floor_cents sum
sum-floor_cents unit share total pool [] h = omega arith
sum-floor_cents unit share total pool (t ∷ ts) h =
    add_scaled (share t total pool) (sum (floor_cents share total pool ts)) t (sum ts) total pool
      unit (h.not_above t total pool) (sum-floor_cents unit share total pool ts h)

below : (x y n : ℕ) → 0 < n → x * n ≤ y * n → x ≤ y
below x y n h k = grind arith

cancel_total :
    (a total pool unit : ℕ)
    → 0 < total
    → a * total * unit ≤ total * pool * (unit + 1)
    → a * unit ≤ pool * (unit + 1)
cancel_total a total pool unit h k = below (a * unit) (pool * (unit + 1)) total h (grind (arith, k))

-- An error of less than one is none, of whole numbers.
unscale : (a pool unit : ℕ) → pool < unit → a * unit ≤ pool * (unit + 1) → a ≤ pool
unscale a pool unit h k = grind arith

length-map : (ts : List ℕ) → length (map (λ _. 0) ts) ≡ length ts
length-map [] = refl
length-map (t ∷ ts) = omega (arith, length-map ts)

nonempty : (ts : List ℕ) → 0 < sum ts → 0 < length ts
unfolding sum
nonempty [] h = absurd (omega arith)
nonempty (t ∷ ts) h = omega arith

-- Where the pool and the turnover are more than nothing, and the relative error of the floating-point
-- product is at most one in `unit`, which is more than the pool in kuruş, there is a share for each
-- turnover, and the shares add up to exactly the pool.
pub distribute-sum :
    (unit : ℕ) (share : ℕ → ℕ → ℕ → ℕ) (turnovers : List ℕ) (pool : ℕ)
    → IsNear unit share
    → pool < unit
    → 0 < pool
    → 0 < sum turnovers
    → (length (distribute_pro_rata_allocations share turnovers pool) ≡ length turnovers)
      × (sum (distribute_pro_rata_allocations share turnovers pool) ≡ pool)
unfolding distribute_pro_rata_allocations
distribute-sum unit share turnovers pool near small some_pool some_turnover = rw tested (
  omega (
    arith,
    length-give_remainder rest 0 cents,
    length-floor_cents share (sum turnovers) pool turnovers,
  ),
  omega (
    arith,
    sum-give_remainder rest 0 cents (
        omega (
          arith,
          nonempty turnovers some_turnover,
          length-floor_cents share (sum turnovers) pool turnovers,
        )),
    unscale (sum cents) pool unit small (
        cancel_total (sum cents) (sum turnovers) pool unit some_turnover
          (sum-floor_cents unit share (sum turnovers) pool turnovers near)),
  ),
)
  where
    cents : List ℕ
    cents = floor_cents share (sum turnovers) pool turnovers

    rest : ℕ
    rest = pool - sum cents

    tested : pool == 0 || sum turnovers == 0 ≡ false
    tested = ground arith
