-- ===== src/PaymentCode/Outcome.antt =====
-- What a created code reserves and what a consumed code pays.
use c_zdan.Common.{
  ℕ, zero, suc, ◌+◌, ◌≤◌, ◌≡◌, refl, sym, subst, ◌∙◌, true, false, some, List, arith,
}
use c_zdan.Common.Int.{ℤ, pos, ◌+ℤ◌, ◌-ℤ◌, ◌≤ℤ◌, int_laws, ltb_ℤ}
use c_zdan.Common.Table.{any, count, find, find-key}
use c_zdan.Schema.{Merchant, PaymentCode, code_id, is_active_code}
use c_zdan.Store.{Db, Clock, Driver, Ensures, Ensures-map}
use c_zdan.Store.Rules.{
  get_rule, throw_if_rule, or_throw_rule, step_ok, read_rule, bind_rule, update_account_rule,
  update_merchant_rule, insert_code_rule, insert_transaction_rule, alloc_public_no_rule,
}
use c_zdan.Loyalty.{Score}
use c_zdan.Ledger.{balance_of, reserved_of, settled_of}
use c_zdan.Ledger.Keeps.{KeepsMoney}
use c_zdan.PaymentCode.Create.{
  CodeRequest, is_active_for, is_taken, allocate_code, create_payment_code,
}
use c_zdan.PaymentCode.Consume.{
  Locale, ConsumeInput, code_key, spend_fee, book_spend, consume_payment_code,
}
use c_zdan.PaymentCode.Consumed.{
  IsUsable, usable_code_checks, IsPaying, paying_merchant_checks, award_points-Keeps,
}

-- A drawn code is free.
allocate_code-free :
    (draws : ℕ → ℕ) (codes : List PaymentCode) (n i k : ℕ)
    → allocate_code draws codes n i ≡ some k
    → any (is_taken k) codes ≡ false
unfolding allocate_code
allocate_code-free draws codes zero i k e = absurd (ground arith)
allocate_code-free draws codes (suc n) i k e =
    ground (arith, allocate_code-free draws codes n (i + 1) k)

covers : (b r x : ℤ) → ltb_ℤ (b -ℤ r) x ≡ false → r +ℤ x ≤ℤ b
covers b r x e = within b r x (ground (arith, e))
  where
    within : (b r x : ℤ) → x ≤ℤ b -ℤ r → r +ℤ x ≤ℤ b
    within b r x h = omega int_laws

-- The created code is in the table, active, and what the request says.
abbrev pub IsStored : CodeRequest → PaymentCode → Db → Type 0
IsStored input c db =
    (find code_id c.id db.codes ≡ some c)
    × ((is_active_code c.status ≡ true) × ((c.user_id ≡ input.user_id) × (c.amount ≡ input.amount)))

-- A code that is created is stored, active, for the member and the amount of the request, under a
-- number that no active code had, and is one more active code of the member, of which the unlocked
-- count saw at most four; its amount is added to the member's reservation, which stays within the
-- unchanged balance.
pub create_payment_code_reserves :
    (score : Score) (draws : ℕ → ℕ) (clock : Clock) (id : ℕ) (snapshot : Db) (input : CodeRequest)
    (db : Db)
    → Ensures
        (λ c db'.
          IsStored input c db'
          × ((any (is_taken c.code) db.codes ≡ false)
              × (((count (is_active_for input.user_id) snapshot.codes ≤ 4)
                    × (count (is_active_for input.user_id) db'.codes
                        ≡ suc (count (is_active_for input.user_id) db.codes)))
                  × ((reserved_of db' input.user_id ≡ reserved_of db input.user_id +ℤ input.amount)
                      × ((balance_of db' input.user_id ≡ balance_of db input.user_id)
                          × (reserved_of db' input.user_id ≤ℤ balance_of db' input.user_id))))))
        (create_payment_code score draws clock id snapshot input db)
unfolding create_payment_code count find
create_payment_code_reserves score draws clock id snapshot input db = throw_if_rule _ _ _ _ db λ _.
    throw_if_rule _ _ _ _ db λ _. throw_if_rule _ _ _ _ db λ few. get_rule _ _ db (
      or_throw_rule _ _ _ _ db λ acc ea. throw_if_rule _ _ _ _ db λ covered.
        or_throw_rule _ _ _ _ db λ first _. or_throw_rule _ _ _ _ db λ code drawn.
          insert_code_rule _ _ _ _ λ _. update_account_rule _ _ _ _ _ acc ea λ _. (
            (ground arith, (refl, (refl, refl))),
            (
              allocate_code-free draws db.codes 10 0 code drawn,
              (
                (ground (arith, few), ground arith),
                (
                  ground (arith, ea),
                  (
                    ground (arith, ea),
                    ground
                        (arith, ea, covers acc.balance acc.reserved_balance input.amount covered),
                  ),
                ),
              ),
            ),
          ))

-- What the consumption of the code `c` at the merchant `m` moves.
abbrev Paid : ConsumeInput → PaymentCode → Merchant → Db → Db → Type 0
Paid input c m db db' =
    (balance_of db' c.user_id ≡ balance_of db c.user_id -ℤ c.amount)
    × ((settled_of db' input.merchant_id
          ≡ settled_of db input.merchant_id +ℤ (c.amount -ℤ spend_fee c.amount m))
        × (pos 0 ≤ℤ c.amount -ℤ spend_fee c.amount m))

module _ (driver : Driver) (clock : Clock) (tx_id : ℕ) (input : ConsumeInput) (c : PaymentCode)
    (m : Merchant) (db : Db) (o : IsUsable db input c) (p : IsPaying db input m) where
  book_spend-Paid :
      Ensures (λ _ db'. Paid input c m db db') (book_spend driver clock tx_id input c m db)
  unfolding book_spend
  book_spend-Paid = get_rule _ _ db (
      or_throw_rule _ _ _ _ db λ acc ea. update_account_rule _ _ _ _ db acc ea λ _.
        alloc_public_no_rule _ _ _ _ _ λ public_no counters. insert_transaction_rule _ _ _ _ λ _.
          step_ok _ _ _ _ _ _ refl (
            update_merchant_rule _ _ _ _ _ m p.there λ _. step_ok _ _ _ _ _ _ refl (
              bind_rule _ (λ _ d. KeepsMoney _ d) _ _ _ (award_points-Keeps driver tx_id c _)
                λ up d k. rw o.exact (
                  k.balances c.user_id ∙ ground (arith, ea),
                  (rw k.merchants_kept (ground (arith, p.there)), ground (arith, p.covers)),
                ))))

-- The code that a request asks for, in the state before it.
abbrev pub IsAsked : Db → ConsumeInput → PaymentCode → Type 0
IsAsked db input c =
    ((input.code ≡ some c.code) × (find code_key c.code db.codes ≡ some c))
    × ((is_active_code c.status ≡ true) × (c.amount ≡ input.amount))

-- When a code is consumed, the code is the row that the code of the request finds; it was active, its
-- amount is the request's, its member has paid exactly that amount, and the merchant of the request
-- has received it less its fee, which does not exceed it.
pub consume_payment_code_pays :
    (locale : Locale) (driver : Driver) (clock : Clock) (tx_id : ℕ) (input : ConsumeInput) (db : Db)
    → Ensures
        (λ r db'.
          (c : PaymentCode) × ((m : Merchant) × (IsAsked db input c
              × ((db.merchants input.merchant_id ≡ some m)
                  × ((balance_of db' c.user_id ≡ balance_of db c.user_id -ℤ c.amount)
                      × ((settled_of db' input.merchant_id
                            ≡ settled_of db input.merchant_id +ℤ (c.amount -ℤ spend_fee c.amount m))
                          × (pos 0 ≤ℤ c.amount -ℤ spend_fee c.amount m)))))))
        (consume_payment_code locale driver clock tx_id input db)
unfolding consume_payment_code
consume_payment_code_pays locale driver clock tx_id input db =
    read_rule _ _ _ _ _ (usable_code_checks locale clock input db) λ c o.
      read_rule _ _ _ _ _ (paying_merchant_checks input db) λ m p.
        Ensures-map _ _ (book_spend driver clock tx_id input c m db)
          (λ r d q. (c, (m, (asked c o, (p.there, q)))))
          (book_spend-Paid driver clock tx_id input c m db o p)
  where
    asked : (c : PaymentCode) → IsUsable db input c → IsAsked db input c
    asked c o = (
      subst (λ k. (input.code ≡ some k) × (find code_key k db.codes ≡ some c))
          (sym (find-key code_key o.code db.codes c o.found)) (o.asked, o.found),
      (o.active, o.exact),
    )
