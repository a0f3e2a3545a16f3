-- ===== src/Withdraw/Order.antt =====
-- `ORDER BY` of the routing query: the fastest first, and of those the one whose last failure is the
-- longest ago.
use c_zdan.Common.{ℕ, ◌≡◌, refl, true, false, Option, none, some, arith, Bool-cases, inl, inr}
use c_zdan.Schema.{Merchant}
use c_zdan.Withdraw.Routing.{comes_before, faster, failed_before}

-- The order of the query is a strict one: where neither comes before the other, they tie.
faster_trans : (a b c : Option ℕ) → faster a b ≡ false → faster b c ≡ false → faster a c ≡ false
faster_trans none b c h k = refl
faster_trans (some x) none c h k = absurd (ground (arith, h))
faster_trans (some x) (some y) none h k = absurd (ground (arith, k))
faster_trans (some x) (some y) (some z) h k = ground arith

failed_before_trans :
    (a b c : Option ℕ)
    → failed_before a b ≡ false
    → failed_before b c ≡ false
    → failed_before a c ≡ false
failed_before_trans a b none h k = refl
failed_before_trans none none (some z) h k = absurd (ground (arith, k))
failed_before_trans none (some y) (some z) h k = absurd (ground (arith, h))
failed_before_trans (some x) none (some z) h k = absurd (ground (arith, k))
failed_before_trans (some x) (some y) (some z) h k = ground arith

faster_asym : (a b : Option ℕ) → faster a b ≡ true → faster b a ≡ false
faster_asym none b h = absurd (ground (arith, h))
faster_asym (some x) none h = refl
faster_asym (some x) (some y) h = ground arith

failed_before_asym : (a b : Option ℕ) → failed_before a b ≡ true → failed_before b a ≡ false
failed_before_asym a none h = absurd (ground (arith, h))
failed_before_asym none (some y) h = refl
failed_before_asym (some x) (some y) h = ground arith

pub comes_before_trans :
    (a b c : Merchant)
    → comes_before a b ≡ false
    → comes_before b c ≡ false
    → comes_before a c ≡ false
unfolding comes_before
comes_before_trans a b c h k = ground (
  arith,
  h,
  k,
  faster_trans a.avg_withdraw_seconds b.avg_withdraw_seconds c.avg_withdraw_seconds,
  faster_trans b.avg_withdraw_seconds c.avg_withdraw_seconds a.avg_withdraw_seconds,
  faster_trans c.avg_withdraw_seconds a.avg_withdraw_seconds b.avg_withdraw_seconds,
  failed_before_trans a.last_failure_at b.last_failure_at c.last_failure_at,
)

pub comes_before_asym : (a b : Merchant) → comes_before a b ≡ true → comes_before b a ≡ false
unfolding comes_before
comes_before_asym a b h = ground (
  arith,
  h,
  faster_asym a.avg_withdraw_seconds b.avg_withdraw_seconds,
  failed_before_asym a.last_failure_at b.last_failure_at,
)

pub comes_before_irrefl : (a : Merchant) → comes_before a a ≡ false
comes_before_irrefl a = elim (Bool-cases (comes_before a a)) [
  | inl t ↦ comes_before_asym a a t
  | inr f ↦ f
]
