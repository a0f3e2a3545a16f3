-- ===== src/PaymentCode/Consumed.antt =====
-- The books stay balanced when a merchant consumes a payment code.
use c_zdan.Common.{ℕ, String, ◌≡◌, refl, Bool, true, false, Option, some, ◌∷◌, arith, if◌then◌else◌}
use c_zdan.Common.Int.{ℤ, pos, ◌+ℤ◌, ◌-ℤ◌, zero_+ℤ, eqb_ℤ, ltb_ℤ, greatest, eq_of_parts}
use c_zdan.Common.Table.{find, put, total}
use c_zdan.Schema.{Account, Merchant, PaymentCode, code_id, is_active_code, PublicNo, PointsRow}
use c_zdan.Store.{log_points, Db, Clock, Driver, Ensures, pure}
use c_zdan.Store.Rules.{
  get_rule, throw_if_rule, or_throw_rule, step_ok, read_rule, bind_rule, update_account_rule,
  update_merchant_rule, insert_transaction_rule, alloc_public_no_rule,
}
use c_zdan.Ledger.{delta_for, settlement_for, IsConsistent}
use c_zdan.Ledger.Keeps.{KeepsMoney, KeepsMoney-IsConsistent, Keeps, KeepsMoney-refl, bind-Keeps}
use c_zdan.Ledger.Laws.{take_logged, add_logged}
use c_zdan.Loyalty.Keeps.{log_points-Keeps, maybe_upgrade_tier-Keeps}
use c_zdan.PaymentCode.Consume.{
  Locale, ConsumeInput, code_key, usable_code, spend_fee, paying_merchant, spend, spend_transaction,
  mark_consumed, spend_row, award_points, book_spend, consume_payment_code,
}
use c_zdan.PaymentCode.Closing.{closed, closed_nonneg, closed_keyed, held_released, found_by_id}

eq_of_eqb : (a b : ℤ) → eqb_ℤ a b ≡ true → a ≡ b
eq_of_eqb a b e = eq_of_parts a b (ground arith)

-- What `usable_code` has checked.
pub record IsUsable (db : Db) (input : ConsumeInput) (c : PaymentCode) : Type 0 where
  pub code : ℕ
  pub asked : input.code ≡ some code
  pub found : find code_key code db.codes ≡ some c
  pub active : is_active_code c.status ≡ true
  pub exact : c.amount ≡ input.amount

pub usable_code_checks :
    (locale : Locale) (clock : Clock) (input : ConsumeInput) (db : Db)
    → Ensures (λ c db'. (db' ≡ db) × IsUsable db input c) (usable_code locale clock input db)
unfolding usable_code
usable_code_checks locale clock input db = or_throw_rule _ _ _ _ db λ code asked.
    throw_if_rule _ _ _ _ db λ _. throw_if_rule _ _ _ _ db λ _. get_rule _ _ db (
      or_throw_rule _ _ _ _ db λ c found. throw_if_rule _ _ _ _ db λ _.
        throw_if_rule _ _ _ _ db λ _. throw_if_rule _ _ _ _ db λ _.
          throw_if_rule _ _ _ _ db λ active. throw_if_rule _ _ _ _ db λ exact.
            throw_if_rule _ _ _ _ db λ _. (
              refl,
              record {
                code = code;
                asked = asked;
                found = found;
                active = ground arith;
                exact = eq_of_eqb c.amount input.amount (ground arith);
              },
            ))

-- What `paying_merchant` has checked.
pub record IsPaying (db : Db) (input : ConsumeInput) (m : Merchant) : Type 0 where
  pub there : db.merchants input.merchant_id ≡ some m
  pub covers : ltb_ℤ (input.amount -ℤ spend_fee input.amount m) (pos 0) ≡ false

pub paying_merchant_checks :
    (input : ConsumeInput) (db : Db)
    → Ensures (λ m db'. (db' ≡ db) × IsPaying db input m) (paying_merchant input db)
unfolding paying_merchant
paying_merchant_checks input db = get_rule _ _ db (
    or_throw_rule _ _ _ _ db λ m there. throw_if_rule _ _ _ _ db λ _.
      throw_if_rule _ _ _ _ db
        λ _. throw_if_rule _ _ _ _ db λ covers. (refl, record { there = there; covers = covers }))

pub award_points-Keeps :
    (driver : Driver) (tx_id : ℕ) (c : PaymentCode) → Keeps (award_points driver tx_id c)
unfolding award_points
award_points-Keeps driver tx_id c =
    bind-Keeps _ _ (row (ltb_ℤ (pos 0) c.reserved_spend_points) _)
      (λ _. maybe_upgrade_tier-Keeps driver c.user_id)
  where
    row : (b : Bool) (r : PointsRow) → Keeps (if b then log_points r else pure tt)
    row true r = log_points-Keeps r
    row false r = KeepsMoney-refl

module _ (clock : Clock) (tx_id : ℕ) (input : ConsumeInput) (c : PaymentCode) (m : Merchant)
    (db : Db) (h : IsConsistent db) (o : IsUsable db input c) (p : IsPaying db input m) where
  found : find code_id c.id db.codes ≡ some c
  found = found_by_id o.code db.codes c h.codes_keyed o.found

  -- The state before the points.
  abbrev booked : Account → PublicNo → (String → ℕ → Option ℕ) → Db
  booked acc public_no counters = record db {
    accounts = put c.user_id (spend input.amount c.reserved_spend_points acc) db.accounts;
    counters = counters;
    transactions = spend_transaction clock tx_id input c m acc public_no ∷ db.transactions;
    codes = closed db c (mark_consumed clock input.merchant_id);
    merchants =
        put input.merchant_id
          (record m { balance = m.balance +ℤ (input.amount -ℤ spend_fee input.amount m) })
          db.merchants;
    settlement_log = spend_row tx_id input m ∷ db.settlement_log;
  }

  released :
      (acc : Account)
      → db.accounts c.user_id ≡ some acc
      → (spend input.amount c.reserved_spend_points acc).reserved_balance
        ≡ greatest (acc.reserved_balance -ℤ c.amount) (pos 0)
  released acc ea = rw o.exact refl

  booked-IsConsistent :
      (acc : Account) (public_no : PublicNo) (counters : String → ℕ → Option ℕ)
      → db.accounts c.user_id ≡ some acc
      → IsConsistent (booked acc public_no counters)
  unfolding total
  booked-IsConsistent acc public_no counters ea = record {
    ledger = λ u. ground (
      arith,
      ea,
      h.ledger u,
      zero_+ℤ (total (delta_for u) db.transactions),
      take_logged acc.balance input.amount (total (delta_for u) db.transactions),
    );
    held_back =
        held_released db c h found o.active (mark_consumed clock input.merchant_id) (λ r. refl)
          (λ r. refl) (λ r. refl) acc (spend input.amount c.reserved_spend_points acc) ea
          (released acc ea);
    pooled = λ n. ground (arith, h.pooled n, p.there);
    settled = λ n. ground (
      arith,
      h.settled n,
      p.there,
      zero_+ℤ (total (settlement_for n) db.settlement_log),
      add_logged m.balance (input.amount -ℤ spend_fee input.amount m)
          (total (settlement_for n) db.settlement_log),
    );
    pool_chain = h.pool_chain;
    settlement_chain = (refl, h.settlement_chain);
    withdraws_nonneg = h.withdraws_nonneg;
    codes_nonneg =
        closed_nonneg db c h found o.active (mark_consumed clock input.merchant_id) (λ r. refl)
          (λ r. refl) (λ r. refl);
    codes_keyed =
        closed_keyed db c h found o.active (mark_consumed clock input.merchant_id) (λ r. refl)
          (λ r. refl) (λ r. refl);
    one_withdraw = h.one_withdraw;
    one_topup = h.one_topup;
  }

  book_spend-IsConsistent :
      (driver : Driver)
      → Ensures (λ _ db'. IsConsistent db') (book_spend driver clock tx_id input c m db)
  unfolding book_spend
  book_spend-IsConsistent driver = get_rule _ _ db (
      or_throw_rule _ _ _ _ db λ acc ea. update_account_rule _ _ _ _ db acc ea λ _.
        alloc_public_no_rule _ _ _ _ _ λ public_no counters. insert_transaction_rule _ _ _ _ λ _.
          step_ok _ _ _ _ _ _ refl (
            update_merchant_rule _ _ _ _ _ m p.there λ _. step_ok _ _ _ _ _ _ refl (
              bind_rule _ (λ _ d. KeepsMoney (booked acc public_no counters) d) _ _ _
                (award_points-Keeps driver tx_id c (booked acc public_no counters))
                λ up d k.
                  KeepsMoney-IsConsistent k (booked-IsConsistent acc public_no counters ea))))

-- A consumption that succeeds keeps the books consistent.
pub consume_payment_code-IsConsistent :
    (locale : Locale) (driver : Driver) (clock : Clock) (tx_id : ℕ) (input : ConsumeInput) (db : Db)
    → IsConsistent db
    → Ensures (λ _ db'. IsConsistent db') (consume_payment_code locale driver clock tx_id input db)
unfolding consume_payment_code
consume_payment_code-IsConsistent locale driver clock tx_id input db h =
    read_rule _ _ _ _ _ (usable_code_checks locale clock input db) λ c o.
      read_rule _ _ _ _ _ (paying_merchant_checks input db)
        λ m p. book_spend-IsConsistent clock tx_id input c m db h o p driver
