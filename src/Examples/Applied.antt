-- ===== src/Examples/Applied.antt =====
-- The theorems applied to the example.
use c_zdan.Common.{ℕ, suc, ◌+◌, ◌*◌, ◌<◌, ◌≡◌, ◌≤◌, refl, Bool, Option, some, arith}
use c_zdan.Common.Int.{ℤ, pos, negsuc, quot_ℤ, rem_ℤ, ◌*ℤ◌, ◌+ℤ◌, ◌-ℤ◌, ◌≤ℤ◌}
use c_zdan.Common.Table.{any, count, find}
use c_zdan.Schema.{
  MerchantType, merchant_checks, CodeStatus, CallbackStatus, Merchant, Profile, PaymentCode,
  WithdrawSession, withdraw_id,
}
use c_zdan.Store.{is_ok, Error, ok, err, Db, Ensures}
use c_zdan.Fees.{FeeInput, compute_fee_minor, net_after_fee, round_bps}
use c_zdan.Fees.Rounding.{IsHalfEven, compute_fee-IsHalfEven, round_bps-negsuc, fee_within_amount}
use c_zdan.Loyalty.{apply_withdraw_penalty}
use c_zdan.Loyalty.Penalty.{apply_withdraw_penalty_once}
use c_zdan.Ledger.{IsConsistent, balance_of, reserved_of, pool_of, settled_of}
use c_zdan.Withdraw.{
  pick_candidate, candidate, capacity, comes_before, request_withdraw, finalize_withdraw_callback,
  scan_withdraw_timeouts, pick_finance_merchant, withdraw_fee, can_pay,
}
use c_zdan.Withdraw.Books.{request_withdraw-IsConsistent}
use c_zdan.Withdraw.Settled.{finalize_withdraw_callback-IsConsistent}
use c_zdan.Withdraw.Swept.{scan_withdraw_timeouts-IsConsistent}
use c_zdan.Withdraw.Routed.{sends, CanPay, beats, pick_finance_merchant_sound}
use c_zdan.Withdraw.Outcome.{request_withdraw_reserves, finalize_withdraw_callback_once}
use c_zdan.PaymentCode.{
  create_payment_code, cancel_payment_code, consume_payment_code, is_taken, is_active_for,
  spend_fee,
}
use c_zdan.PaymentCode.Consumed.{consume_payment_code-IsConsistent}
use c_zdan.PaymentCode.Outcome.{
  IsAsked, IsStored, create_payment_code_reserves, consume_payment_code_pays,
}
use c_zdan.MerchantCredit.{credit_member, total_debit}
use c_zdan.MerchantCredit.Books.{credit_member_moves}
use c_zdan.Topup.{finalize_topup_callback}
use c_zdan.Topup.Books.{finalize_topup_callback-IsConsistent}
use c_zdan.Cashout.{free_balance, request_merchant_cashout}
use c_zdan.Cashout.Outcome.{request_merchant_cashout_reserves}
use c_zdan.PaymentCode.{find_owned_code}
use c_zdan.PaymentCode.Cleared.{expire_stale_payment_codes_clears}
use c_zdan.PaymentCode.{is_stale, expire_stale_payment_codes}
use c_zdan.PaymentCode.Total.{cancel_payment_code_total}
use c_zdan.Withdraw.Total.{finalize_withdraw_callback_total}
use c_zdan.System.{start, then, withdraw_requested, Reach-IsConsistent}
use c_zdan.Examples.Books.{
  account, merchant, active_code, open_withdraw, is_usdt, earned, cashout_input, noon, midnight,
  books, books-IsConsistent, request, payout, first_row, first_row-IsJoin, score, draws,
  code_request, locale, driver, consume_input, credit_input, deposit,
}
use c_zdan.Examples.Runs.{penalty_commits, committed, request_commits, bounced_commits}

abbrev requested :
    (s : WithdrawSession) × ((db : Db) × (request_withdraw noon 7 books request books ≡ ok (s, db)))
requested = committed (request_withdraw noon 7 books request books) request_commits

abbrev failed :
    (r : Option ℕ) × ((db : Db) × (finalize_withdraw_callback noon 7
          (payout CallbackStatus.failed)
          books
        ≡ ok (r, db)))
failed =
    committed (finalize_withdraw_callback noon 7 (payout CallbackStatus.failed) books)
      bounced_commits

Reach-IsConsistent_example : IsConsistent requested.1.0
Reach-IsConsistent_example =
    Reach-IsConsistent
      (then (start books) (withdraw_requested noon 7 books request requested.0 requested.1.1))
      books-IsConsistent

request_withdraw-IsConsistent_example :
    Ensures (λ _ db'. IsConsistent db') (request_withdraw noon 7 books request books)
request_withdraw-IsConsistent_example =
    request_withdraw-IsConsistent noon 7 books request books books-IsConsistent

finalize_withdraw_callback-IsConsistent_example :
    Ensures
      (λ _ db'. IsConsistent db')
      (finalize_withdraw_callback noon 7 (payout CallbackStatus.success) books)
finalize_withdraw_callback-IsConsistent_example =
    finalize_withdraw_callback-IsConsistent noon 7 (payout CallbackStatus.success) books
      books-IsConsistent

scan_withdraw_timeouts-IsConsistent_example :
    Ensures (λ _ db'. IsConsistent db') (scan_withdraw_timeouts first_row midnight books)
scan_withdraw_timeouts-IsConsistent_example =
    scan_withdraw_timeouts-IsConsistent first_row midnight books first_row-IsJoin books-IsConsistent

finalize_withdraw_callback_once_example :
    finalize_withdraw_callback midnight 8 (payout CallbackStatus.success) failed.1.0
    ≡ err Error.already_finalized
finalize_withdraw_callback_once_example =
    finalize_withdraw_callback_once noon midnight 7 8 (payout CallbackStatus.failed)
      (payout CallbackStatus.success) books failed.1.0 failed.0 failed.1.1 refl refl

request_withdraw_reserves_example :
    Ensures
      (λ s db'.
        (pool_of db' s.merchant_id ≡ pool_of books s.merchant_id -ℤ (s.amount -ℤ s.fee))
        × ((reserved_of db' 2 ≡ reserved_of books 2 +ℤ s.amount)
            × ((balance_of db' 2 ≡ balance_of books 2)
                × ((reserved_of db' 2 ≤ℤ balance_of db' 2)
                    × (find withdraw_id s.id db'.withdraws ≡ some s)))))
      (request_withdraw noon 7 books request books)
request_withdraw_reserves_example = request_withdraw_reserves noon 7 books request books

consume_payment_code-IsConsistent_example :
    Ensures
      (λ _ db'. IsConsistent db')
      (consume_payment_code locale driver noon 7 consume_input books)
consume_payment_code-IsConsistent_example =
    consume_payment_code-IsConsistent locale driver noon 7 consume_input books books-IsConsistent

create_payment_code_reserves_example :
    Ensures
      (λ c db'.
        IsStored code_request c db'
        × ((any (is_taken c.code) books.codes ≡ Bool.false)
            × (((count (is_active_for 2) books.codes ≤ 4)
                  × (count (is_active_for 2) db'.codes ≡ suc (count (is_active_for 2) books.codes)))
                × ((reserved_of db' 2 ≡ reserved_of books 2 +ℤ pos 4000)
                    × ((balance_of db' 2 ≡ balance_of books 2)
                        × (reserved_of db' 2 ≤ℤ balance_of db' 2))))))
      (create_payment_code score draws noon 2 books code_request books)
create_payment_code_reserves_example =
    create_payment_code_reserves score draws noon 2 books code_request books

consume_payment_code_pays_example :
    Ensures
      (λ r db'.
        (c : PaymentCode) × ((m : Merchant) × (IsAsked books consume_input c
            × ((books.merchants 20 ≡ some m)
                × ((balance_of db' c.user_id ≡ balance_of books c.user_id -ℤ c.amount)
                    × ((settled_of db' 20
                          ≡ settled_of books 20 +ℤ (c.amount -ℤ spend_fee c.amount m))
                        × (pos 0 ≤ℤ c.amount -ℤ spend_fee c.amount m)))))))
      (consume_payment_code locale driver noon 7 consume_input books)
consume_payment_code_pays_example =
    consume_payment_code_pays locale driver noon 7 consume_input books

credit_member_moves_example :
    Ensures
      (λ r db'.
        (m : Merchant) × ((p : Profile) × ((books.merchants 20 ≡ some m)
            × ((books.profiles "M2" ≡ some p)
                × ((balance_of db' p.id ≡ balance_of books p.id +ℤ pos 40000)
                    × ((settled_of db' 20 ≡ settled_of books 20 -ℤ total_debit (pos 40000) m)
                        × ((pos 0 -ℤ m.credit_limit ≤ℤ settled_of db' 20)
                            × (r.new_member_balance ≡ balance_of db' p.id))))))))
      (credit_member locale noon 7 credit_input books)
credit_member_moves_example = credit_member_moves locale noon 7 credit_input books

finalize_topup_callback-IsConsistent_example :
    Ensures
      (λ _ db'. IsConsistent db')
      (finalize_topup_callback noon 7 (deposit CallbackStatus.success) books)
finalize_topup_callback-IsConsistent_example =
    finalize_topup_callback-IsConsistent noon 7 (deposit CallbackStatus.success) books
      books-IsConsistent

routed :
    pick_finance_merchant noon books "havale" (pos 20000) ≡ some (record { id = 10; fee = pos 400 })
unfolding pick_finance_merchant pick_candidate candidate can_pay capacity comes_before withdraw_fee
    compute_fee_minor round_bps quot_ℤ rem_ℤ ◌+ℤ◌ ◌-ℤ◌ ◌*ℤ◌
routed = refl

pick_finance_merchant_sound_example :
    (m : Merchant) × ((books.merchants 10 ≡ some m)
      × ((any (sends "havale" 10) books.routing ≡ Bool.true)
          × (CanPay noon (pos 20000) m
              × ((any (λ r. beats m (candidate noon books "havale" (pos 20000) r)) books.routing
                    ≡ Bool.false)
                  × (pos 400 ≡ withdraw_fee (pos 20000) m)))))
pick_finance_merchant_sound_example =
    pick_finance_merchant_sound noon books "havale" (pos 20000) (record { id = 10; fee = pos 400 })
      routed

abbrev penalized :
    (p : ℤ) × ((db : Db) × (apply_withdraw_penalty 1 (pos 5000) 7 books ≡ ok (p, db)))
penalized = committed (apply_withdraw_penalty 1 (pos 5000) 7 books) penalty_commits

apply_withdraw_penalty_once_example :
    apply_withdraw_penalty 1 (pos 5000) 7 penalized.1.0 ≡ ok (penalized.0, penalized.1.0)
apply_withdraw_penalty_once_example =
    apply_withdraw_penalty_once 1 (pos 5000) 7 books penalized.1.0 penalized.0 penalized.1.1

compute_fee-IsHalfEven_example :
    (q : ℕ) × (compute_fee_minor (record {
      amount = some (pos 12345);
      commission_pct = some (pos 250);
      fixed_fee = some (pos 10);
    })
      ≡ pos q +ℤ pos 10)
    × IsHalfEven (12345 * 250) q
compute_fee-IsHalfEven_example = compute_fee-IsHalfEven 12345 250 (pos 10)

round_bps-negsuc_example :
    (q : ℕ) × (round_bps (negsuc 14999) ≡ pos 0 -ℤ pos q)
    × (20000 * q < 2 * suc 14999 + 10000)
    × (2 * suc 14999 ≤ 20000 * q + 10000)
round_bps-negsuc_example = round_bps-negsuc 14999

fee_within_amount_example :
    let input : FeeInput = record {
      amount = some (pos 12345);
      commission_pct = some (pos 250);
      fixed_fee = some (pos 0);
    } in
    (pos 0 ≤ℤ compute_fee_minor input)
    × (compute_fee_minor input ≤ℤ pos 12345)
    × (pos 0 ≤ℤ net_after_fee input)
fee_within_amount_example = fee_within_amount 12345 250 (omega arith)

request_merchant_cashout_reserves_example :
    Ensures
      (λ s db'.
        (m : Merchant) × ((m' : Merchant) × ((earned.merchants 30 ≡ some m)
            × ((db'.merchants 30 ≡ some m')
                × ((m'.cashout_reserved_amount ≡ m.cashout_reserved_amount +ℤ (s.amount +ℤ s.fee))
                    × ((m'.balance ≡ m.balance) × (pos 0 ≤ℤ free_balance m')))))))
      (request_merchant_cashout is_usdt noon 2 earned cashout_input earned)
request_merchant_cashout_reserves_example =
    request_merchant_cashout_reserves is_usdt noon 2 earned cashout_input earned

found_code : find_owned_code 1 1 books.codes ≡ some active_code
unfolding find_owned_code find
found_code = refl

cancel_payment_code_total_example :
    (db' : Db) × ((cancel_payment_code noon 1 1 books ≡ ok (tt, db'))
      × (((r : PaymentCode) × ((find_owned_code 1 1 db'.codes ≡ some r)
              × ((r.status ≡ CodeStatus.cancelled) × (r.amount ≡ pos 3000))))
          × ((reserved_of db' 1 ≡ reserved_of books 1 -ℤ pos 3000)
              × ((balance_of db' 1 ≡ balance_of books 1)
                  × (cancel_payment_code midnight 1 1 db' ≡ err Error.code_not_active)))))
cancel_payment_code_total_example =
    cancel_payment_code_total noon 1 1 books active_code (account (pos 100000) (pos 8000)) midnight
      found_code refl refl refl (omega arith) (omega arith)

found_withdraw : find withdraw_id 1 books.withdraws ≡ some open_withdraw
unfolding find
found_withdraw = refl

holding_merchant : merchant_checks (merchant MerchantType.finance (pos 145100) (pos 0)) ≡ Bool.true
unfolding merchant_checks ◌-ℤ◌
holding_merchant = refl

finalize_withdraw_callback_total_example :
    is_ok (finalize_withdraw_callback noon 7 (payout CallbackStatus.failed) books) ≡ Bool.true
finalize_withdraw_callback_total_example =
    finalize_withdraw_callback_total noon 7 (payout CallbackStatus.failed) books open_withdraw
      (account (pos 100000) (pos 8000)) (merchant MerchantType.finance (pos 145100) (pos 0)) refl
      found_withdraw refl refl refl refl (omega arith) refl holding_merchant

expire_stale_payment_codes_clears_example :
    (d : Db) × ((expire_stale_payment_codes midnight books
        ≡ ok (count (is_stale midnight) books.codes, d))
      × (any (is_stale midnight) d.codes ≡ Bool.false))
expire_stale_payment_codes_clears_example =
    expire_stale_payment_codes_clears midnight books (λ u a e. ground arith) (omega arith, tt)
