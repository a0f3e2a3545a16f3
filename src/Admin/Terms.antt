-- ===== src/Admin/Terms.antt =====
-- An operator's change of a merchant's terms moves no money.
use c_zdan.Common.{ℕ, ◌≡◌, refl, some, String, arith, inl, inr, Bool-cases, Option-cases}
use c_zdan.Common.Int.{ℤ}
use c_zdan.Common.Table.{put}
use c_zdan.Schema.{Merchant, merchant_checks}
use c_zdan.Store.{Db, Ensures, update_merchant}
use c_zdan.Store.Rules.{throw_if_rule, or_throw_rule}
use c_zdan.Ledger.{IsConsistent}
use c_zdan.PaymentCode.{Locale}
use c_zdan.Admin.{set_merchant_commission, set_credit_limit}

module _ (m : ℕ) (f : Merchant → Merchant)
    (same : (r : Merchant) → ((f r).balance ≡ r.balance) × ((f r).cash_pool ≡ r.cash_pool)) where
  put-IsConsistent :
      (db : Db) (r : Merchant)
      → db.merchants m ≡ some r
      → IsConsistent db
      → IsConsistent (record db { merchants = put m (f r) db.merchants })
  put-IsConsistent db r e h = record {
    ledger = h.ledger;
    held_back = h.held_back;
    pooled = λ n. ground (arith, e, same r, h.pooled n);
    settled = λ n. ground (arith, e, same r, h.settled n);
    pool_chain = h.pool_chain;
    settlement_chain = h.settlement_chain;
    withdraws_nonneg = h.withdraws_nonneg;
    codes_nonneg = h.codes_nonneg;
    codes_keyed = h.codes_keyed;
    one_withdraw = h.one_withdraw;
    one_topup = h.one_topup;
  }

  update_merchant-IsConsistent :
      (db : Db) → IsConsistent db → Ensures (λ _ d. IsConsistent d) (update_merchant m f db)
  unfolding update_merchant
  update_merchant-IsConsistent db h = elim (Option-cases (db.merchants m)) [
    | inl e ↦ rw (e, Ensures) h
    | inr (r, e) ↦ elim (Bool-cases (merchant_checks (f r))) [
      | inl c ↦ rw (e, c, Ensures) (put-IsConsistent db r e h)
      | inr c ↦ rw (e, c, Ensures) tt
    ]
  ]

pub set_merchant_commission-IsConsistent :
    (m : ℕ) (pct fixed : ℤ) (db : Db)
    → IsConsistent db
    → Ensures (λ _ d. IsConsistent d) (set_merchant_commission m pct fixed db)
unfolding set_merchant_commission
set_merchant_commission-IsConsistent m pct fixed db h =
    update_merchant-IsConsistent m (λ r. record r { commission_pct = pct; fixed_fee = fixed })
      (λ r. (refl, refl)) db h

pub set_credit_limit-IsConsistent :
    (locale : Locale) (snapshot : Db) (m : ℕ) (limit : ℤ) (reason : String) (db : Db)
    → IsConsistent db
    → Ensures (λ _ d. IsConsistent d) (set_credit_limit locale snapshot m limit reason db)
unfolding set_credit_limit
set_credit_limit-IsConsistent locale snapshot m limit reason db h = throw_if_rule _ _ _ _ db λ _.
    throw_if_rule _ _ _ _ db λ _. or_throw_rule _ _ _ _ db λ r _. throw_if_rule _ _ _ _ db λ _.
      update_merchant-IsConsistent m (λ a. record a { credit_limit = limit }) (λ a. (refl, refl)) db
        h
