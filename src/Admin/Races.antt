-- ===== src/Admin/Races.antt =====
-- What an unlocked read costs: the pool changes between the read and the write of an adjustment.
use c_zdan.Common.{◌≡◌, ◌≢◌, refl, sym, ◌∙◌, none, some, arith}
use c_zdan.Common.Int.{ℤ, ◌+ℤ◌, int_laws}
use c_zdan.Common.Table.{total}
use c_zdan.Schema.{Merchant}
use c_zdan.Store.{ok, Db, Clock, Ensures, Ensures-ok}
use c_zdan.Store.Rules.{throw_if_rule, or_throw_rule, step_ok, bind_rule, update_merchant_rule}
use c_zdan.Ledger.{PoolIsLogged}
use c_zdan.PaymentCode.{Locale}
use c_zdan.Admin.{
  MerchantChange, adjust_pool, adjust_cash_pool, with_admin_idempotency, given_key, AdminOutcome,
}

same_pool : (p q x y : ℤ) → y ≡ p +ℤ x → y ≡ x +ℤ q → p ≡ q
same_pool p q x y e f = grind int_laws

module _ (snapshot : Db) (input : MerchantChange) (db : Db) (m m' : Merchant)
    (read : snapshot.merchants input.merchant_id ≡ some m)
    (there : db.merchants input.merchant_id ≡ some m') (moved : m.cash_pool ≢ m'.cash_pool)
    (logged : PoolIsLogged db) where
  adjust_pool_loses :
      (clock : Clock) → Ensures (λ _ d. ¬ (PoolIsLogged d)) (adjust_pool clock snapshot input db)
  unfolding adjust_pool total
  adjust_pool_loses clock = or_throw_rule _ _ _ _ db λ r er. throw_if_rule _ _ _ _ db λ _.
      throw_if_rule _ _ _ _ db λ _. update_merchant_rule _ _ _ _ db m' there λ _.
        step_ok _ _ _ _ _ _ refl λ l. moved (
          same_pool m.cash_pool m'.cash_pool input.amount (m.cash_pool +ℤ input.amount) refl
            (ground (arith, l input.merchant_id, logged input.merchant_id, sym read ∙ er, there)))

-- An adjustment of a pool without a key, whose unlocked read saw another pool than the one that is
-- there when it writes, leaves a pool that is not the sum of its log, though it was before.
pub adjust_cash_pool_loses :
    (locale : Locale) (clock : Clock) (looked snapshot : Db) (input : MerchantChange) (db : Db)
    (m m' : Merchant) (o : AdminOutcome) (d : Db)
    → given_key input.idempotency_key ≡ none
    → snapshot.merchants input.merchant_id ≡ some m
    → db.merchants input.merchant_id ≡ some m'
    → m.cash_pool ≢ m'.cash_pool
    → PoolIsLogged db
    → adjust_cash_pool locale clock looked snapshot input db ≡ ok (o, d)
    → ¬ (PoolIsLogged d)
adjust_cash_pool_loses locale clock looked snapshot input db m m' o d keyless read there moved
      logged e =
    Ensures-ok _ _ outcome e
  where
    outcome :
        Ensures (λ _ d. ¬ (PoolIsLogged d)) (adjust_cash_pool locale clock looked snapshot input db)
    outcome =
        unfold adjust_cash_pool with_admin_idempotency in
        throw_if_rule _ _ _ _ db λ _. throw_if_rule _ _ _ _ db λ _. rw keyless (
          bind_rule _ _ (adjust_pool clock snapshot input) _ db
            (adjust_pool_loses snapshot input db m m' read there moved logged clock) (λ r d p. p))
