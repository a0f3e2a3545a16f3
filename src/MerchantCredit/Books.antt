-- ===== src/MerchantCredit/Books.antt =====
-- The books, the credit limit and the member's balance under a merchant's credit.
use c_zdan.Common.{ℕ, ◌≡◌, refl, false, some, arith}
use c_zdan.Common.Int.{ℤ, pos, ◌+ℤ◌, ◌-ℤ◌, ◌≤ℤ◌, int_laws, zero_+ℤ, ltb_ℤ}
use c_zdan.Common.Table.{total}
use c_zdan.Schema.{Merchant, Profile}
use c_zdan.Store.{Db, Clock, Ensures, Ensures-map}
use c_zdan.Store.Rules.{
  get_rule, throw_if_rule, or_throw_rule, step_ok, read_rule, update_account_rule,
  update_merchant_rule, insert_transaction_rule, alloc_public_no_rule,
}
use c_zdan.Ledger.{delta_for, settlement_for, balance_of, settled_of, IsConsistent}
use c_zdan.Ledger.Laws.{add_logged}
use c_zdan.MerchantCredit.{
  CreditMemberInput, total_debit, crediting_merchant, credited_member, book_credit, credit_member,
}
use c_zdan.PaymentCode.{Locale}

-- What `crediting_merchant` has checked.
record IsCrediting (db : Db) (input : CreditMemberInput) (m : Merchant) : Type 0 where
  there : db.merchants input.merchant_id ≡ some m
  covered : ltb_ℤ (m.balance +ℤ m.credit_limit) (total_debit input.amount m) ≡ false

crediting_merchant_checks :
    (locale : Locale) (input : CreditMemberInput) (db : Db)
    → Ensures (λ m db'. (db' ≡ db) × IsCrediting db input m) (crediting_merchant locale input db)
unfolding crediting_merchant
crediting_merchant_checks locale input db = throw_if_rule _ _ _ _ db λ _.
    throw_if_rule _ _ _ _ db λ _. throw_if_rule _ _ _ _ db λ _. get_rule _ _ db (
      or_throw_rule _ _ _ _ db λ m there. throw_if_rule _ _ _ _ db λ _.
        throw_if_rule _ _ _ _ db λ _.
          throw_if_rule _ _ _ _ db λ covered. (refl, record { there = there; covered = covered }))

-- What `credited_member` has checked.
credited_member_checks :
    (locale : Locale) (input : CreditMemberInput) (db : Db)
    → Ensures
        (λ p db'. (db' ≡ db) × (db.profiles input.wallet_no ≡ some p))
        (credited_member locale input db)
unfolding credited_member
credited_member_checks locale input db = get_rule _ _ db (
    or_throw_rule _ _ _ _ db
      λ p there. throw_if_rule _ _ _ _ db λ _. throw_if_rule _ _ _ _ db λ _. (refl, there))

take_settled : (b x t : ℤ) → b ≡ t → b -ℤ x ≡ pos 0 -ℤ x +ℤ t
take_settled b x t e = rw e (omega int_laws)

minus_chained : (b x : ℤ) → b +ℤ (pos 0 -ℤ x) ≡ b -ℤ x
minus_chained b x = omega int_laws

module _ (clock : Clock) (tx_id : ℕ) (input : CreditMemberInput) (m : Merchant) (p : Profile)
    (db : Db) (o : IsCrediting db input m) where
  book_credit-IsConsistent :
      IsConsistent db → Ensures (λ _ db'. IsConsistent db') (book_credit clock tx_id input m p db)
  unfolding book_credit total
  book_credit-IsConsistent h = get_rule _ _ db (
      or_throw_rule _ _ _ _ db λ acc ea. update_merchant_rule _ _ _ _ db m o.there λ _.
        update_account_rule _ _ _ _ _ acc ea λ _.
          alloc_public_no_rule _ _ _ _ _ λ public_no counters. insert_transaction_rule _ _ _ _ λ _.
            step_ok _ _ _ _ _ _ refl (
              get_rule _ _ _ (record {
                ledger = λ u. ground (
                  arith,
                  ea,
                  h.ledger u,
                  zero_+ℤ (total (delta_for u) db.transactions),
                  add_logged acc.balance input.amount (total (delta_for u) db.transactions),
                );
                held_back = λ u. ground (arith, ea, h.held_back u);
                pooled = λ n. ground (arith, o.there, h.pooled n);
                settled = λ n. ground (
                  arith,
                  o.there,
                  h.settled n,
                  zero_+ℤ (total (settlement_for n) db.settlement_log),
                  take_settled m.balance (total_debit input.amount m)
                      (total (settlement_for n) db.settlement_log),
                );
                pool_chain = h.pool_chain;
                settlement_chain =
                    (minus_chained m.balance (total_debit input.amount m), h.settlement_chain);
                withdraws_nonneg = h.withdraws_nonneg;
                codes_nonneg = h.codes_nonneg;
                codes_keyed = h.codes_keyed;
                one_withdraw = h.one_withdraw;
                one_topup = h.one_topup;
              })))

  -- What a credit leaves: the member gains the amount, the merchant pays it with the fee and stays
  -- within its credit limit, and the response says so.
  book_credit_moves :
      Ensures
        (λ r db'.
          (balance_of db' p.id ≡ balance_of db p.id +ℤ input.amount)
          × ((settled_of db' input.merchant_id
                ≡ settled_of db input.merchant_id -ℤ total_debit input.amount m)
              × ((pos 0 -ℤ m.credit_limit ≤ℤ settled_of db' input.merchant_id)
                  × (r.new_member_balance ≡ balance_of db' p.id))))
        (book_credit clock tx_id input m p db)
  unfolding book_credit
  book_credit_moves = get_rule _ _ db (
      or_throw_rule _ _ _ _ db λ acc ea. update_merchant_rule _ _ _ _ db m o.there λ _.
        update_account_rule _ _ _ _ _ acc ea λ _.
          alloc_public_no_rule _ _ _ _ _ λ public_no counters. insert_transaction_rule _ _ _ _ λ _.
            step_ok _ _ _ _ _ _ refl (
              get_rule _ _ _ (
                ground (arith, ea),
                (
                  ground (arith, o.there),
                  (
                    ground (
                      arith,
                      o.there,
                      limit m.balance m.credit_limit (total_debit input.amount m) o.covered,
                    ),
                    ground (arith, ea),
                  ),
                ),
              )))
    where
      limit : (b l x : ℤ) → ltb_ℤ (b +ℤ l) x ≡ false → pos 0 -ℤ l ≤ℤ b -ℤ x
      limit b l x e = within b l x (ground (arith, e))
        where
          within : (b l x : ℤ) → x ≤ℤ b +ℤ l → pos 0 -ℤ l ≤ℤ b -ℤ x
          within b l x h = omega int_laws

-- A credit that succeeds keeps the books consistent.
pub credit_member-IsConsistent :
    (locale : Locale) (clock : Clock) (tx_id : ℕ) (input : CreditMemberInput) (db : Db)
    → IsConsistent db
    → Ensures (λ _ db'. IsConsistent db') (credit_member locale clock tx_id input db)
unfolding credit_member
credit_member-IsConsistent locale clock tx_id input db h =
    read_rule _ _ _ _ _ (crediting_merchant_checks locale input db) λ m o.
      read_rule _ _ _ _ _ (credited_member_checks locale input db)
        λ p _. book_credit-IsConsistent clock tx_id input m p db o h

-- When a credit succeeds there are the merchant of the request and the profile with its wallet number such that
-- that member's balance has grown by the amount, the merchant's has shrunk by the amount and its fee
-- but not below minus its credit limit, and the response holds the member's new balance.
pub credit_member_moves :
    (locale : Locale) (clock : Clock) (tx_id : ℕ) (input : CreditMemberInput) (db : Db)
    → Ensures
        (λ r db'.
          (m : Merchant) × ((p : Profile) × ((db.merchants input.merchant_id ≡ some m)
              × ((db.profiles input.wallet_no ≡ some p)
                  × ((balance_of db' p.id ≡ balance_of db p.id +ℤ input.amount)
                      × ((settled_of db' input.merchant_id
                            ≡ settled_of db input.merchant_id -ℤ total_debit input.amount m)
                          × ((pos 0 -ℤ m.credit_limit ≤ℤ settled_of db' input.merchant_id)
                              × (r.new_member_balance ≡ balance_of db' p.id))))))))
        (credit_member locale clock tx_id input db)
unfolding credit_member
credit_member_moves locale clock tx_id input db =
    read_rule _ _ _ _ _ (crediting_merchant_checks locale input db) λ m o.
      read_rule _ _ _ _ _ (credited_member_checks locale input db) λ p there.
        Ensures-map _ _ (book_credit clock tx_id input m p db)
          (λ r d q. (m, (p, (o.there, (there, q))))) (book_credit_moves clock tx_id input m p db o)
