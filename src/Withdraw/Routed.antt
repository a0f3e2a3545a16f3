-- ===== src/Withdraw/Routed.antt =====
-- What routing chooses.
use c_zdan.Common.{
  ℕ, ◌+◌, ◌≤◌, String, str_eq, ◌≡◌, refl, subst, Bool, true, false, ◌&&◌, Option, none, some, List,
  [], ◌∷◌, arith, ◌==◌, Option-cases, Bool-cases, inl, inr, if◌then◌else◌,
}
use c_zdan.Common.Int.{ℤ, pos, ◌+ℤ◌, ◌≤ℤ◌, ◌<ℤ◌}
use c_zdan.Common.Table.{any}
use c_zdan.Schema.{Merchant, MerchantType, RoutingRule, Direction}
use c_zdan.Store.{Db, Clock}
use c_zdan.Withdraw.Order.{comes_before_trans, comes_before_asym, comes_before_irrefl}
use c_zdan.Withdraw.Routing.{
  capacity, can_pay, is_withdraw_rule, Candidate, candidate, pick_candidate, Picked, withdraw_fee,
  pick_finance_merchant, comes_before, keep_if,
}

-- What holds of a nullable column where `IS NULL OR …` does.
abbrev pub OrNull : {A : Type 0} → Option A → (A → Type 0) → Type 0
OrNull none P = Unit {0}
OrNull (some a) P = P a

abbrev is_out : Direction → Bool
is_out Direction.withdraw = true
is_out Direction.topup = false

-- An active rule that sends withdraws by the method to the merchant.
abbrev pub sends : String → ℕ → RoutingRule → Bool
sends method m r =
    (r.merchant_id == m && is_out r.direction) && (r.is_active && str_eq r.method_type method)

-- The conditions on the merchant.
pub record CanPay (clock : Clock) (amount : ℤ) (m : Merchant) : Type 0 where
  pub active : m.is_active ≡ true
  pub finance : m.merchant_type ≡ MerchantType.finance
  pub covers : amount ≤ℤ m.cash_pool +ℤ (if m.overdraft_enabled then m.overdraft_limit else pos 0)
  pub recent : OrNull m.cash_pool_updated_at (λ t. clock.now ≤ t + 900000)
  pub reliable : OrNull m.failure_rate_pct (λ r. r <ℤ pos 500)
  pub within : OrNull m.per_tx_limit (λ l. amount ≤ℤ l)

can_pay-CanPay :
    (clock : Clock) (amount : ℤ) (m : Merchant)
    → can_pay clock amount m ≡ true
    → CanPay clock amount m
unfolding can_pay capacity
can_pay-CanPay clock amount m e = record {
  active = ground arith;
  finance = ground arith;
  covers = ground arith;
  recent = ground arith;
  reliable = ground arith;
  within = ground arith;
}

sends-rule :
    (method : String) (r : RoutingRule)
    → is_withdraw_rule method r ≡ true
    → sends method r.merchant_id r ≡ true
sends-rule method r e = ground arith

keep_if-some : (b : Bool) (x c : Candidate) → keep_if b x ≡ some c → (b ≡ true) × (x ≡ c)
keep_if-some true x c e = (refl, cc)
keep_if-some false x c e = absurd (ground arith)

-- A row of the query.
record Passes (clock : Clock) (db : Db) (method : String) (amount : ℤ) (c : Candidate)
    : Type 0 where
  there : db.merchants c.id ≡ some c.row
  pays : can_pay clock amount c.row ≡ true

candidate-Passes :
    (clock : Clock) (db : Db) (method : String) (amount : ℤ) (r : RoutingRule) (c : Candidate)
    → candidate clock db method amount r ≡ some c
    → Passes clock db method amount c × (sends method c.id r ≡ true)
unfolding candidate
candidate-Passes clock db method amount r c e = elim (Option-cases (db.merchants r.merchant_id)) [
  | inl f ↦ absurd (ground (arith, f))
  | inr (m, f) ↦
      let (b, same) =
        keep_if-some (is_withdraw_rule method r && can_pay clock amount m)
          (record { id = r.merchant_id; row = m }) c (rw (candidate, f) at e) in
      subst (λ x. Passes clock db method amount x × (sends method x.id r ≡ true)) same
        (record { there = f; pays = ground (arith, b) }, sends-rule method r (ground (arith, b)))
]

-- The row, if there is one, comes strictly before the merchant.
abbrev pub beats : Merchant → Option Candidate → Bool
beats m none = false
beats m (some x) = comes_before x.row m

module _ (clock : Clock) (db : Db) (method : String) (amount : ℤ) where
  abbrev first_of : Merchant → RoutingRule → Bool
  first_of m r = beats m (candidate clock db method amount r)

  no_rows :
      (m : Merchant) (rules : List RoutingRule)
      → pick_candidate clock db method amount rules ≡ none
      → any (first_of m) rules ≡ false
  unfolding pick_candidate any
  no_rows m [] e = refl
  no_rows m (r ∷ rules) e = elim (Option-cases (candidate clock db method amount r)) [
    | inl f ↦ ground (arith, f, no_rows m rules)
    | inr (d, f) ↦ absurd (ground (arith, f))
  ]

  any-later :
      (m n : Merchant) (rules : List RoutingRule)
      → comes_before m n ≡ false
      → any (first_of m) rules ≡ false
      → any (first_of n) rules ≡ false
  unfolding any
  any-later m n [] h k = refl
  any-later m n (r ∷ rules) h k = elim (Option-cases (candidate clock db method amount r)) [
    | inl f ↦ ground (arith, f, any-later m n rules h)
    | inr (d, f) ↦ ground (arith, f, any-later m n rules h, comes_before_trans d.row m n)
  ]

  -- What holds of the row that is picked.
  record IsFirst (rules : List RoutingRule) (c : Candidate) : Type 0 where
    passes : Passes clock db method amount c
    ruled : any (sends method c.id) rules ≡ true
    first : any (first_of c.row) rules ≡ false

  pick_candidate-IsFirst :
      (rules : List RoutingRule) (c : Candidate)
      → pick_candidate clock db method amount rules ≡ some c
      → IsFirst rules c
  unfolding pick_candidate any
  pick_candidate-IsFirst [] c e = absurd (ground arith)
  pick_candidate-IsFirst (r ∷ rules) c e =
      elim (Option-cases (candidate clock db method amount r)) [
        | inl f ↦
            let h = pick_candidate-IsFirst rules c (ground (arith, f)) in
            record {
              passes = h.passes;
              ruled = ground (arith, h.ruled);
              first = ground (arith, f, h.first);
            }
        | inr (d, f) ↦
            let (ok_d, ruled_d) = candidate-Passes clock db method amount r d f in
            elim (Option-cases (pick_candidate clock db method amount rules)) [
              | inl g ↦
                  let chosen : some d ≡ some c = rw (pick_candidate, f, g) at e in
                  let same : d ≡ c = cc in
                  subst (IsFirst (r ∷ rules)) same (record {
                    passes = ok_d;
                    ruled = ground (arith, ruled_d);
                    first = ground (arith, f, comes_before_irrefl d.row, no_rows d.row rules g);
                  })
              | inr (b, g) ↦
                  let h = pick_candidate-IsFirst rules b g in
                  elim (Bool-cases (comes_before b.row d.row)) [
                    | inl t ↦
                        let chosen : some b ≡ some c = rw (pick_candidate, f, g, t) at e in
                        let same : b ≡ c = cc in
                        subst (IsFirst (r ∷ rules)) same (record {
                          passes = h.passes;
                          ruled = ground (arith, h.ruled);
                          first = ground (arith, f, comes_before_asym b.row d.row t, h.first);
                        })
                    | inr t ↦
                        let chosen : some d ≡ some c = rw (pick_candidate, f, g, t) at e in
                        let same : d ≡ c = cc in
                        subst (IsFirst (r ∷ rules)) same (record {
                          passes = ok_d;
                          ruled = ground (arith, ruled_d);
                          first = ground (
                            arith,
                            f,
                            comes_before_irrefl d.row,
                            any-later b.row d.row rules t h.first,
                          );
                        })
                  ]
            ]
      ]

-- The merchant that routing picks exists and passes every condition of the query: an active rule
-- sends withdraws by the method to it, it is an active finance merchant whose capacity covers the
-- amount, and, as far as these columns are set, its pool was updated in the last 15 minutes, it fails
-- less than 5% of the time and its limit allows the amount. No row of the query comes strictly before
-- it, and the fee is its fee for the amount.
pub pick_finance_merchant_sound :
    (clock : Clock) (db : Db) (method : String) (amount : ℤ) (p : Picked)
    → pick_finance_merchant clock db method amount ≡ some p
    → (m : Merchant) × ((db.merchants p.id ≡ some m)
        × ((any (sends method p.id) db.routing ≡ true)
            × (CanPay clock amount m
                × ((any (λ r. beats m (candidate clock db method amount r)) db.routing ≡ false)
                    × (p.fee ≡ withdraw_fee amount m)))))
unfolding pick_finance_merchant
pick_finance_merchant_sound clock db method amount p e =
    elim (Option-cases (pick_candidate clock db method amount db.routing)) [
      | inl f ↦ absurd (ground (arith, f))
      | inr (c, f) ↦
          let h = pick_candidate-IsFirst clock db method amount db.routing c f in
          let chosen : some (record { id = c.id; fee = withdraw_fee amount c.row }) ≡ some p =
            rw (pick_finance_merchant, f) at e in
          let same : record { id = c.id; fee = withdraw_fee amount c.row } ≡ p = cc in
          subst
            (λ q.
              (m : Merchant) × ((db.merchants q.id ≡ some m)
                × ((any (sends method q.id) db.routing ≡ true)
                    × (CanPay clock amount m
                        × ((any (λ r. beats m (candidate clock db method amount r)) db.routing
                              ≡ false)
                            × (q.fee ≡ withdraw_fee amount m))))))
            same
            (
              c.row,
              (
                h.passes.there,
                (h.ruled, (can_pay-CanPay clock amount c.row h.passes.pays, (h.first, refl))),
              ),
            )
    ]
