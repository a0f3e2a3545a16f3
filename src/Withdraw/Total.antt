-- ===== src/Withdraw/Total.antt =====
-- When the callback of a failed payout succeeds.
use c_zdan.Common.{ℕ, ◌≡◌, refl, true, false, ◌==◌, some, arith, Bool-cases, inl, inr}
use c_zdan.Common.Int.{pos, ◌-ℤ◌, ◌≤ℤ◌, eqb_ℤ}
use c_zdan.Common.Table.{put, find}
use c_zdan.Schema.{
  Account, account_checks, Merchant, merchant_checks, WithdrawSession, withdraw_id, CallbackStatus,
  LogReason, Reference,
}
use c_zdan.Store.{
  is_ok, ok, Db, Clock, release, get, or_throw, throw_if, ◌>>=◌, update_account, update_merchant,
}
use c_zdan.CashPool.{CashPoolDelta, unmoved, write_cash_pool_delta}
use c_zdan.PaymentCode.Total.{release_holds}
use c_zdan.Withdraw.Finalize.{
  WithdrawCallback, is_final_withdraw, open_session, fail_withdraw, finalize_withdraw_callback,
}

idle_pool :
    (clock : Clock) (input : CashPoolDelta) (db : Db)
    → eqb_ℤ input.delta (pos 0) ≡ true
    → write_cash_pool_delta clock input db ≡ ok (unmoved (db.merchants input.merchant_id), db)
unfolding write_cash_pool_delta
idle_pool clock input db z = rw z refl

module _ (clock : Clock) (input : WithdrawCallback) (db : Db) (s : WithdrawSession) (a : Account)
    (m : Merchant) (ea : db.accounts s.user_id ≡ some a)
    (ha : account_checks (release s.amount a) ≡ true) where
  fail_withdraw_idle :
      eqb_ℤ (s.amount -ℤ s.fee) (pos 0) ≡ true → is_ok (fail_withdraw clock input s db) ≡ true
  unfolding fail_withdraw ◌>>=◌ update_account
  fail_withdraw_idle z = ground (
    arith,
    ea,
    ha,
    idle_pool clock
        (record {
          merchant_id = s.merchant_id;
          delta = s.amount -ℤ s.fee;
          reason = LogReason.withdraw_reversal_cash_pool;
          reference = Reference.withdraw_session s.id;
        })
        (record db { accounts = put s.user_id (release s.amount a) db.accounts }) z,
  )

  fail_withdraw_moves :
      db.merchants s.merchant_id ≡ some m
      → merchant_checks m ≡ true
      → eqb_ℤ (s.amount -ℤ s.fee) (pos 0) ≡ false
      → is_ok (fail_withdraw clock input s db) ≡ true
  unfolding fail_withdraw write_cash_pool_delta ◌>>=◌ update_account update_merchant merchant_checks
  fail_withdraw_moves em hm z = ground (arith, ea, ha, z, em, hm)

  fail_withdraw_total :
      db.merchants s.merchant_id ≡ some m
      → merchant_checks m ≡ true
      → is_ok (fail_withdraw clock input s db) ≡ true
  fail_withdraw_total em hm = elim (Bool-cases (eqb_ℤ (s.amount -ℤ s.fee) (pos 0))) [
    | inl z ↦ fail_withdraw_idle z
    | inr z ↦ fail_withdraw_moves em hm z
  ]

-- A callback that reports a failed payout of an open session of its merchant succeeds, where the
-- member's account and the merchant are there and satisfy the checks of their tables and the amount
-- is not negative.
pub finalize_withdraw_callback_total :
    (clock : Clock) (tx_id : ℕ) (input : WithdrawCallback) (db : Db) (s : WithdrawSession)
    (a : Account) (m : Merchant)
    → input.status ≡ CallbackStatus.failed
    → find withdraw_id input.internal_ref db.withdraws ≡ some s
    → (s.merchant_id == input.merchant_id) ≡ true
    → is_final_withdraw s.status ≡ false
    → db.accounts s.user_id ≡ some a
    → account_checks a ≡ true
    → pos 0 ≤ℤ s.amount
    → db.merchants s.merchant_id ≡ some m
    → merchant_checks m ≡ true
    → is_ok (finalize_withdraw_callback clock tx_id input db) ≡ true
unfolding finalize_withdraw_callback open_session get or_throw throw_if ◌>>=◌
finalize_withdraw_callback_total clock tx_id input db s a m fails found mine open_still ea ha na em
      hm =
    let done = fail_withdraw_total clock input db s a m ea (release_holds s.amount a ha na) em hm in
    ground (arith, found, fails, done)
