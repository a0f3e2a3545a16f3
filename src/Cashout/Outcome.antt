-- ===== src/Cashout/Outcome.antt =====
-- What a cashout request reserves, and what its callback does.
use c_zdan.Common.{
  ℕ, ◌≡◌, refl, String, Bool, true, false, Option, some, ◌∷◌, arith, Bool-cases, inl, inr, ◌==◌,
  ◌||◌,
}
use c_zdan.Common.Int.{ℤ, pos, ◌+ℤ◌, ◌-ℤ◌, ◌≤ℤ◌, int_laws, ltb_ℤ}
use c_zdan.Common.Table.{any}
use c_zdan.Schema.{Merchant, CashoutSession, CallbackStatus, CashoutStatus, PublicNo}
use c_zdan.Store.{
  unique_violation, same_public_no, ok, err, Db, Clock, Driver, IsColumnKeyed, Trx, Ensures, Result,
  ◌>>=◌,
}
use c_zdan.Store.Rules.{
  get_rule, throw_if_rule, or_throw_rule, step_ok, step_err, update_merchant_rule,
  alloc_public_no_rule,
}
use c_zdan.Ledger.{IsConsistent}
use c_zdan.Cashout.Request.{
  CashoutRequest, free_balance, reserve_cashout, insert_cashout, book_cashout, prepare_cashout,
  request_merchant_cashout,
}
use c_zdan.Cashout.Callback.{is_settled_cashout, finish_cashout, finalize_merchant_cashout_callback}

insert_cashout_rule :
    {B : Type 0} (Q : B → Db → Type 0) (s : CashoutSession) (k : Unit {0} → Trx B) (db : Db)
    → Ensures Q (k tt (record db { cashouts = s ∷ db.cashouts }))
    → Ensures Q ((insert_cashout s >>= k) db)
unfolding insert_cashout
insert_cashout_rule Q s k db h =
    elim (Bool-cases
      (any (λ r. r.id == s.id || same_public_no r.public_no s.public_no) db.cashouts)) [
        | inl c ↦ step_err Q (insert_cashout s) k db unique_violation (rw c)
        | inr c ↦
            step_ok Q (insert_cashout s) k db tt (record db { cashouts = s ∷ db.cashouts }) (rw c) h
      ]

-- A request whose transaction is reached.
request_rule :
    (Q : CashoutSession → Db → Type 0) (is_usdt : String → Bool) (clock : Clock) (id : ℕ)
    (snapshot : Db) (opts : CashoutRequest) (db : Db)
    → ((fee : ℤ) → Ensures Q (book_cashout clock id opts fee db))
    → Ensures Q (request_merchant_cashout is_usdt clock id snapshot opts db)
unfolding request_merchant_cashout
request_rule Q is_usdt clock id snapshot opts db h = go (prepare_cashout is_usdt opts snapshot)
  where
    go :
        (r : Result (ℤ × Db))
        → Ensures Q (elim r [ ok (fee, d) ↦ book_cashout clock id opts fee db | err e ↦ err e ])
    go (ok (fee, d)) = h fee
    go (err e) = tt

room : (b r x : ℤ) → ltb_ℤ (b -ℤ r) x ≡ false → pos 0 ≤ℤ b -ℤ (r +ℤ x)
room b r x e = within b r x (ground (arith, e))
  where
    within : (b r x : ℤ) → x ≤ℤ b -ℤ r → pos 0 ≤ℤ b -ℤ (r +ℤ x)
    within b r x h = omega int_laws

-- A cashout request that succeeds, whatever state its checks read, finds the merchant and adds the
-- session's amount and fee to its cashout reservation; the balance is unchanged and still covers the
-- whole reservation.
pub request_merchant_cashout_reserves :
    (is_usdt : String → Bool) (clock : Clock) (id : ℕ) (snapshot : Db) (opts : CashoutRequest)
    (db : Db)
    → Ensures
        (λ s db'.
          (m : Merchant) × ((m' : Merchant) × ((db.merchants opts.merchant_id ≡ some m)
              × ((db'.merchants opts.merchant_id ≡ some m')
                  × ((m'.cashout_reserved_amount ≡ m.cashout_reserved_amount +ℤ (s.amount +ℤ s.fee))
                      × ((m'.balance ≡ m.balance) × (pos 0 ≤ℤ free_balance m')))))))
        (request_merchant_cashout is_usdt clock id snapshot opts db)
request_merchant_cashout_reserves is_usdt clock id snapshot opts db =
    request_rule _ is_usdt clock id snapshot opts db λ fee.
      unfold book_cashout in
      get_rule _ _ db (
        or_throw_rule _ _ _ _ db λ m there. throw_if_rule _ _ _ _ db λ covered.
          alloc_public_no_rule _ _ _ _ _ λ no counters. insert_cashout_rule _ _ _ _ (
            update_merchant_rule _ _ _ _ _ m there λ _. (
              m,
              (
                reserve_cashout (opts.amount +ℤ fee) m,
                (
                  there,
                  (
                    ground arith,
                    (
                      refl,
                      (refl, room m.balance m.cashout_reserved_amount (opts.amount +ℤ fee) covered),
                    ),
                  ),
                ),
              ),
            )))

-- A cashout request that succeeds keeps the books consistent.
pub request_merchant_cashout-IsConsistent :
    (is_usdt : String → Bool) (clock : Clock) (id : ℕ) (snapshot : Db) (opts : CashoutRequest)
    (db : Db)
    → IsConsistent db
    → Ensures
        (λ _ db'. IsConsistent db')
        (request_merchant_cashout is_usdt clock id snapshot opts db)
request_merchant_cashout-IsConsistent is_usdt clock id snapshot opts db h =
    request_rule _ is_usdt clock id snapshot opts db λ fee.
      unfold book_cashout in
      get_rule _ _ db (
        or_throw_rule _ _ _ _ db λ m there. throw_if_rule _ _ _ _ db λ _.
          alloc_public_no_rule _ _ _ _ _ λ no counters. insert_cashout_rule _ _ _ _ (
            update_merchant_rule _ _ _ _ _ m there λ _. record {
              ledger = h.ledger;
              held_back = h.held_back;
              pooled = λ n. ground (arith, h.pooled n, there);
              settled = λ n. ground (arith, h.settled n, there);
              pool_chain = h.pool_chain;
              settlement_chain = h.settlement_chain;
              withdraws_nonneg = h.withdraws_nonneg;
              codes_nonneg = h.codes_nonneg;
              codes_keyed = h.codes_keyed;
              one_withdraw = h.one_withdraw;
              one_topup = h.one_topup;
            }))

finish_cashout-fails :
    (driver : Driver) (clock : Clock) (s : CashoutSession) (status : CallbackStatus) (db : Db)
    (Q : CashoutStatus → Db → Type 0)
    → IsColumnKeyed driver
    → Ensures Q (finish_cashout driver clock s status db)
unfolding finish_cashout
finish_cashout-fails driver clock s status db Q keyed = get_rule _ _ db (
    or_throw_rule _ _ _ _ db λ m _. or_throw_rule _ _ _ _ db λ merch e.
      absurd (ground (arith, e, keyed.no_zero_of_merchant m.balance m.cashout_reserved_amount)))

pub finalize_merchant_cashout_callback_idle :
    (driver : Driver) (clock : Clock) (key : Option PublicNo) (status : CallbackStatus) (db : Db)
    → IsColumnKeyed driver
    → Ensures
        (λ r db'. (db' ≡ db) × (is_settled_cashout r ≡ true))
        (finalize_merchant_cashout_callback driver clock key status db)
unfolding finalize_merchant_cashout_callback
finalize_merchant_cashout_callback_idle driver clock key status db keyed =
    or_throw_rule _ _ _ _ db λ k _. get_rule _ _ db (
      or_throw_rule _ _ _ _ db λ s _. elim (Bool-cases (is_settled_cashout s.status)) [
        | inl e ↦ rw e (refl, e)
        | inr e ↦ rw e (finish_cashout-fails driver clock s status db _ keyed)
      ])
