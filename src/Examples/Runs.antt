-- ===== src/Examples/Runs.antt =====
-- The flows succeed on the example.
use c_zdan.Common.{some, ◌≡◌, refl, true}
use c_zdan.Common.Int.{pos, greatest, quot_ℤ, rem_ℤ, ◌+ℤ◌, ◌-ℤ◌, ◌*ℤ◌}
use c_zdan.Common.Table.{find, modify, total, any, count, filter}
use c_zdan.Schema.{CallbackStatus, merchant_checks}
use c_zdan.Store.{
  is_ok, Error, Db, Result, ok, err, get, throw_if, or_throw, ◌>>=◌, update_account,
  update_merchant, insert_transaction, transaction_fits, insert_withdraw, withdraw_fits,
  insert_code, code_fits, alloc_public_no,
}
use c_zdan.Fees.{compute_fee_minor, round_bps}
use c_zdan.CashPool.{write_cash_pool_delta}
use c_zdan.ProviderLedger.{resolve_provider_method, write_provider_ledger}
use c_zdan.Withdraw.{
  capacity, can_pay, candidate, comes_before, pick_candidate, withdraw_fee, pick_finance_merchant,
  reserve_pool, validate_fields, accept_withdraw, book_withdraw, request_withdraw, open_session,
  fail_withdraw, finalize_withdraw_callback,
}
use c_zdan.Withdraw.{
  succeed_withdraw, timed_out, released_accounts, released_pool, logged, all_accounts_hold,
  scan_withdraw_timeouts,
}
use c_zdan.Loyalty.{
  apply_withdraw_penalty, compute_withdraw_penalty, maybe_set_withdraw_cooldown, withdraw_count,
  load_active_tiers, sort_tiers, insert_tier, current_tier, load_spend_context,
  compute_spend_points, maybe_upgrade_tier, query_lifetime_spend_turnover, lifetime_spend,
  pick_highest_eligible_tier, last_met,
}
use c_zdan.PaymentCode.{
  allocate_code, create_payment_code, usable_code, paying_merchant, book_spend, award_points,
  consume_payment_code,
}
use c_zdan.Cashout.{
  assert_permission, check_method, resolve_target_merchant, cashout_fee, insert_cashout,
  book_cashout, prepare_cashout, request_merchant_cashout, find_cashout, finish_cashout,
  finalize_merchant_cashout_callback,
}
use c_zdan.MerchantCredit.{crediting_merchant, credited_member, book_credit, credit_member}
use c_zdan.Topup.{open_topup_session, book_topup, finalize_topup_callback}
use c_zdan.Examples.Books.{
  is_usdt, earned, cashout_input, noon, midnight, books, request, payout, first_row, score, draws,
  code_request, locale, driver, consume_input, credit_input, deposit,
}

pub err_fails : (A : Type 0) (e : Error) → ¬ (is_ok {A = A} (err e) ≡ true)
err_fails A e h = cc

-- The outcome of a run that succeeds.
unfoldable pub committed :
    {A : Type 0} (r : Result (A × Db)) → is_ok r ≡ true → (a : A) × ((db : Db) × (r ≡ ok (a, db)))
committed {A} (ok (a, db)) h = (a, (db, refl))
committed {A} (err e) h = absurd (err_fails (A × Db) e h)

pub request_commits : is_ok (request_withdraw noon 7 books request books) ≡ true
unfolding request_withdraw accept_withdraw book_withdraw reserve_pool validate_fields
    pick_finance_merchant pick_candidate candidate can_pay capacity comes_before withdraw_fee
    compute_fee_minor round_bps quot_ℤ rem_ℤ ◌+ℤ◌ ◌-ℤ◌ ◌*ℤ◌ any get throw_if or_throw ◌>>=◌
    update_account update_merchant merchant_checks alloc_public_no insert_withdraw withdraw_fits
request_commits = refl

pub bounced_commits :
    is_ok (finalize_withdraw_callback noon 7 (payout CallbackStatus.failed) books) ≡ true
unfolding finalize_withdraw_callback open_session fail_withdraw write_cash_pool_delta find modify
    greatest ◌+ℤ◌ ◌-ℤ◌ get throw_if or_throw ◌>>=◌ update_account update_merchant merchant_checks
bounced_commits = refl

pub penalty_commits : is_ok (apply_withdraw_penalty 1 (pos 5000) 7 books) ≡ true
unfolding apply_withdraw_penalty compute_withdraw_penalty any greatest ◌+ℤ◌ ◌-ℤ◌ ◌>>=◌
    update_account
penalty_commits = refl

pub success_payout_commits :
    is_ok (finalize_withdraw_callback noon 7 (payout CallbackStatus.success) books) ≡ true
unfolding finalize_withdraw_callback open_session succeed_withdraw apply_withdraw_penalty
    compute_withdraw_penalty maybe_set_withdraw_cooldown withdraw_count write_provider_ledger
    resolve_provider_method insert_transaction transaction_fits count any find modify greatest ◌+ℤ◌
    ◌-ℤ◌ get throw_if or_throw ◌>>=◌ update_account
success_payout_commits = refl

pub sweep_commits : is_ok (scan_withdraw_timeouts first_row midnight books) ≡ true
unfolding scan_withdraw_timeouts timed_out released_accounts released_pool logged all_accounts_hold
    count any filter greatest ◌+ℤ◌ ◌-ℤ◌
sweep_commits = refl

pub creation_commits :
    is_ok (create_payment_code score draws noon 2 books code_request books) ≡ true
unfolding create_payment_code allocate_code load_active_tiers sort_tiers insert_tier current_tier
    load_spend_context compute_spend_points insert_code code_fits update_account count any filter
    ◌+ℤ◌ ◌-ℤ◌ get throw_if or_throw ◌>>=◌
creation_commits = refl

pub consumption_commits :
    is_ok (consume_payment_code locale driver noon 7 consume_input books) ≡ true
unfolding consume_payment_code usable_code paying_merchant book_spend award_points
    maybe_upgrade_tier load_active_tiers sort_tiers insert_tier current_tier
    query_lifetime_spend_turnover lifetime_spend pick_highest_eligible_tier last_met
    compute_fee_minor round_bps quot_ℤ rem_ℤ ◌+ℤ◌ ◌-ℤ◌ ◌*ℤ◌ find modify total any filter greatest
    get throw_if or_throw ◌>>=◌ update_account update_merchant merchant_checks alloc_public_no
    insert_transaction transaction_fits
consumption_commits = refl

pub credit_commits : is_ok (credit_member locale noon 7 credit_input books) ≡ true
unfolding credit_member crediting_merchant credited_member book_credit compute_fee_minor round_bps
    quot_ℤ rem_ℤ ◌+ℤ◌ ◌-ℤ◌ ◌*ℤ◌ any get throw_if or_throw ◌>>=◌ update_account update_merchant
    merchant_checks alloc_public_no insert_transaction transaction_fits
credit_commits = refl

pub deposit_commits :
    is_ok (finalize_topup_callback noon 7 (deposit CallbackStatus.success) books) ≡ true
unfolding finalize_topup_callback open_topup_session book_topup write_cash_pool_delta
    write_provider_ledger resolve_provider_method compute_fee_minor round_bps quot_ℤ rem_ℤ ◌+ℤ◌ ◌-ℤ◌
    ◌*ℤ◌ any find modify get throw_if or_throw ◌>>=◌ update_account update_merchant merchant_checks
    insert_transaction transaction_fits
deposit_commits = refl

pub cashout_commits :
    is_ok (request_merchant_cashout is_usdt noon 2 earned cashout_input earned) ≡ true
unfolding request_merchant_cashout prepare_cashout assert_permission check_method
    resolve_target_merchant cashout_fee book_cashout insert_cashout any ◌+ℤ◌ ◌-ℤ◌ get throw_if
    or_throw ◌>>=◌ update_merchant merchant_checks alloc_public_no
cashout_commits = refl

pub ended_cashout_commits :
    is_ok (
      finalize_merchant_cashout_callback driver noon
        (some (record { prefix = "MC"; ymd = 20250101; seq = 9 }))
        CallbackStatus.success
        earned)
    ≡ true
unfolding finalize_merchant_cashout_callback find_cashout finish_cashout ◌+ℤ◌ ◌-ℤ◌ get throw_if
    or_throw ◌>>=◌
ended_cashout_commits = refl
