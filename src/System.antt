-- ===== src/System.antt =====
-- The money flows together: one step for each transaction that commits, and what every sequence of
-- them preserves. A transaction that fails is rolled back and makes no step.
use c_zdan.Common.{ℕ, ◌≡◌, subst, sym, Bool, Option, String}
use c_zdan.Common.Int.{ℤ}
use c_zdan.Schema.{
  WithdrawSession, TopupSession, PaymentCode, CashoutSession, CashoutStatus, CallbackStatus,
  PublicNo,
}
use c_zdan.Store.{ok, Db, Clock, Driver, IsColumnKeyed, Ensures-ok}
use c_zdan.Loyalty.{Score}
use c_zdan.Ledger.{IsConsistent}
use c_zdan.Withdraw.{
  WithdrawRequest, request_withdraw, WithdrawCallback, finalize_withdraw_callback, Join,
  scan_withdraw_timeouts,
}
use c_zdan.Withdraw.Books.{request_withdraw-IsConsistent}
use c_zdan.Withdraw.Settled.{finalize_withdraw_callback-IsConsistent}
use c_zdan.Withdraw.Swept.{IsJoin, scan_withdraw_timeouts-IsConsistent}
use c_zdan.PaymentCode.{
  CodeRequest, create_payment_code, cancel_payment_code, Locale, ConsumeInput, ConsumeOutput,
  consume_payment_code, expire_stale_payment_codes,
}
use c_zdan.PaymentCode.Opening.{create_payment_code-IsConsistent}
use c_zdan.PaymentCode.Cancelled.{cancel_payment_code-IsConsistent}
use c_zdan.PaymentCode.Consumed.{consume_payment_code-IsConsistent}
use c_zdan.PaymentCode.Expired.{expire_stale_payment_codes-IsConsistent}
use c_zdan.MerchantCredit.{CreditMemberInput, CreditMemberResult, credit_member}
use c_zdan.MerchantCredit.Books.{credit_member-IsConsistent}
use c_zdan.Cashout.{CashoutRequest, request_merchant_cashout, finalize_merchant_cashout_callback}
use c_zdan.Cashout.Outcome.{
  request_merchant_cashout-IsConsistent, finalize_merchant_cashout_callback_idle,
}
use c_zdan.Topup.{
  CreateTopup, create_topup_session, confirm_topup_by_member, cancel_topup_by_member, PaymentInfo,
  set_topup_session_payment_info, expire_stale_topup_sessions, TopupCallback,
  finalize_topup_callback,
}
use c_zdan.Topup.Quiet.{
  create_topup_session-IsConsistent, confirm_topup_by_member-IsConsistent,
  cancel_topup_by_member-IsConsistent, set_topup_session_payment_info-IsConsistent,
  expire_stale_topup_sessions-IsConsistent,
}
use c_zdan.Topup.Books.{finalize_topup_callback-IsConsistent}
use c_zdan.Loyalty.Manual.{set_member_tier, set_member_tier-IsConsistent}
use c_zdan.Admin.{
  AdminOutcome, AdjustBalance, adjust_balance, AwardPoints, award_member_points, MerchantChange,
  record_manual_settlement, adjust_cash_pool, set_cash_pool, set_merchant_commission,
  set_credit_limit,
}
use c_zdan.Admin.MemberBooks.{adjust_balance-IsConsistent, award_member_points-IsConsistent}
use c_zdan.Admin.MerchantBooks.{
  record_manual_settlement-IsConsistent, adjust_cash_pool-IsConsistent, set_cash_pool-IsConsistent,
}
use c_zdan.ProfitShare.{
  PreviewInput, Preview, create_campaign, publish_campaign, close_campaign, cancel_campaign,
  ClaimOutput, claim_profit_share_reward,
}
use c_zdan.ProfitShare.Books.{
  create_campaign-IsConsistent, publish_campaign-IsConsistent, close_campaign-IsConsistent,
  cancel_campaign-IsConsistent, claim_profit_share_reward-IsConsistent,
}
use c_zdan.Admin.Terms.{set_merchant_commission-IsConsistent, set_credit_limit-IsConsistent}

-- A transaction that commits.
pub data Step (db db' : Db) : Type 0 where
  withdraw_requested :
      (clock : Clock) (id : ℕ) (snapshot : Db) (input : WithdrawRequest) (s : WithdrawSession)
      → request_withdraw clock id snapshot input db ≡ ok (s, db')
      → Step db db'
  withdraw_called_back :
      (clock : Clock) (tx_id : ℕ) (input : WithdrawCallback) (r : Option ℕ)
      → finalize_withdraw_callback clock tx_id input db ≡ ok (r, db')
      → Step db db'
  withdraws_swept :
      (join : Join) (clock : Clock) (n : ℕ)
      → IsJoin join
      → scan_withdraw_timeouts join clock db ≡ ok (n, db')
      → Step db db'
  code_created :
      (score : Score) (draws : ℕ → ℕ) (clock : Clock) (id : ℕ) (snapshot : Db) (input : CodeRequest)
      (c : PaymentCode)
      → create_payment_code score draws clock id snapshot input db ≡ ok (c, db')
      → Step db db'
  code_cancelled :
      (clock : Clock) (u id : ℕ) → cancel_payment_code clock u id db ≡ ok (tt, db') → Step db db'
  code_consumed :
      (locale : Locale) (driver : Driver) (clock : Clock) (tx_id : ℕ) (input : ConsumeInput)
      (r : ConsumeOutput)
      → consume_payment_code locale driver clock tx_id input db ≡ ok (r, db')
      → Step db db'
  codes_expired :
      (clock : Clock) (n : ℕ) → expire_stale_payment_codes clock db ≡ ok (n, db') → Step db db'
  member_credited :
      (locale : Locale) (clock : Clock) (tx_id : ℕ) (input : CreditMemberInput)
      (r : CreditMemberResult)
      → credit_member locale clock tx_id input db ≡ ok (r, db')
      → Step db db'
  topup_created :
      (draw : ℤ → ℤ) (clock : Clock) (id : ℕ) (snapshot : Db) (input : CreateTopup)
      (s : TopupSession)
      → create_topup_session draw clock id snapshot input db ≡ ok (s, db')
      → Step db db'
  topup_confirmed :
      (clock : Clock) (u id : ℕ) (b : Bool)
      → confirm_topup_by_member clock u id db ≡ ok (b, db')
      → Step db db'
  topup_cancelled :
      (clock : Clock) (u id : ℕ) (b : Bool)
      → cancel_topup_by_member clock u id db ≡ ok (b, db')
      → Step db db'
  topup_informed :
      (input : PaymentInfo) (b : Bool)
      → set_topup_session_payment_info input db ≡ ok (b, db')
      → Step db db'
  topup_called_back :
      (clock : Clock) (tx_id : ℕ) (input : TopupCallback) (r : Option ℕ)
      → finalize_topup_callback clock tx_id input db ≡ ok (r, db')
      → Step db db'
  topups_expired :
      (clock : Clock) (n : ℕ) → expire_stale_topup_sessions clock db ≡ ok (n, db') → Step db db'
  cashout_requested :
      (is_usdt : String → Bool) (clock : Clock) (id : ℕ) (snapshot : Db) (opts : CashoutRequest)
      (s : CashoutSession)
      → request_merchant_cashout is_usdt clock id snapshot opts db ≡ ok (s, db')
      → Step db db'
  cashout_called_back :
      (driver : Driver) (clock : Clock) (key : Option PublicNo) (status : CallbackStatus)
      (r : CashoutStatus)
      → IsColumnKeyed driver
      → finalize_merchant_cashout_callback driver clock key status db ≡ ok (r, db')
      → Step db db'
  balance_adjusted :
      (locale : Locale) (clock : Clock) (tx_id : ℕ) (looked : Db) (input : AdjustBalance)
      (o : AdminOutcome)
      → adjust_balance locale clock tx_id looked input db ≡ ok (o, db')
      → Step db db'
  points_awarded :
      (locale : Locale) (driver : Driver) (input : AwardPoints) (b : Bool)
      → award_member_points locale driver input db ≡ ok (b, db')
      → Step db db'
  tier_set :
      (trim : String → String) (u tier : ℕ) (reason : String) (b : Bool)
      → set_member_tier trim u tier reason db ≡ ok (b, db')
      → Step db db'
  manually_settled :
      (looked snapshot : Db) (input : MerchantChange) (o : AdminOutcome)
      → snapshot.merchants input.merchant_id ≡ db.merchants input.merchant_id
      → record_manual_settlement looked snapshot input db ≡ ok (o, db')
      → Step db db'
  pool_adjusted :
      (locale : Locale) (clock : Clock) (looked snapshot : Db) (input : MerchantChange)
      (o : AdminOutcome)
      → snapshot.merchants input.merchant_id ≡ db.merchants input.merchant_id
      → adjust_cash_pool locale clock looked snapshot input db ≡ ok (o, db')
      → Step db db'
  pool_overwritten :
      (clock : Clock) (looked snapshot : Db) (input : MerchantChange) (o : AdminOutcome)
      → snapshot.merchants input.merchant_id ≡ db.merchants input.merchant_id
      → set_cash_pool clock looked snapshot input db ≡ ok (o, db')
      → Step db db'
  commission_set :
      (m : ℕ) (pct fixed : ℤ) → set_merchant_commission m pct fixed db ≡ ok (tt, db') → Step db db'
  credit_limit_set :
      (locale : Locale) (snapshot : Db) (m : ℕ) (limit : ℤ) (reason : String)
      → set_credit_limit locale snapshot m limit reason db ≡ ok (tt, db')
      → Step db db'
  campaign_created :
      (clock : Clock) (id : ℕ) (id_of : ℕ → ℕ) (input : PreviewInput) (p : Preview) (r : ℕ)
      → create_campaign clock id id_of input p db ≡ ok (r, db')
      → Step db db'
  campaign_published :
      (clock : Clock) (snapshot counted : Db) (id : ℕ)
      → publish_campaign clock snapshot counted id db ≡ ok (tt, db')
      → Step db db'
  campaign_closed :
      (clock : Clock) (snapshot : Db) (id : ℕ)
      → close_campaign clock snapshot id db ≡ ok (tt, db')
      → Step db db'
  campaign_cancelled :
      (clock : Clock) (snapshot : Db) (id : ℕ)
      → cancel_campaign clock snapshot id db ≡ ok (tt, db')
      → Step db db'
  share_claimed :
      (clock : Clock) (tx_id u id : ℕ) (r : ClaimOutput)
      → claim_profit_share_reward clock tx_id u id db ≡ ok (r, db')
      → Step db db'

-- Any sequence of commits, in any order.
pub data Reach : Db → Db → Type 0 where
  start : (db : Db) → Reach db db
  then : {a b c : Db} → Reach a b → Step b c → Reach a c

Step-IsConsistent : {db db' : Db} → Step db db' → IsConsistent db → IsConsistent db'
Step-IsConsistent {db} {db'} (withdraw_requested clock id snapshot input s e) h =
    Ensures-ok _ _ (request_withdraw-IsConsistent clock id snapshot input db h) e
Step-IsConsistent {db} {db'} (withdraw_called_back clock tx_id input r e) h =
    Ensures-ok _ _ (finalize_withdraw_callback-IsConsistent clock tx_id input db h) e
Step-IsConsistent {db} {db'} (withdraws_swept join clock n j e) h =
    Ensures-ok _ _ (scan_withdraw_timeouts-IsConsistent join clock db j h) e
Step-IsConsistent {db} {db'} (code_created score draws clock id snapshot input c e) h =
    Ensures-ok _ _ (create_payment_code-IsConsistent score draws clock id snapshot input db h) e
Step-IsConsistent {db} {db'} (code_cancelled clock u id e) h =
    Ensures-ok _ _ (cancel_payment_code-IsConsistent clock u id db h) e
Step-IsConsistent {db} {db'} (code_consumed locale driver clock tx_id input r e) h =
    Ensures-ok _ _ (consume_payment_code-IsConsistent locale driver clock tx_id input db h) e
Step-IsConsistent {db} {db'} (codes_expired clock n e) h =
    Ensures-ok _ _ (expire_stale_payment_codes-IsConsistent clock db h) e
Step-IsConsistent {db} {db'} (member_credited locale clock tx_id input r e) h =
    Ensures-ok _ _ (credit_member-IsConsistent locale clock tx_id input db h) e
Step-IsConsistent {db} {db'} (topup_created draw clock id snapshot input s e) h =
    Ensures-ok _ _ (create_topup_session-IsConsistent draw clock id snapshot input db h) e
Step-IsConsistent {db} {db'} (topup_confirmed clock u id b e) h =
    Ensures-ok _ _ (confirm_topup_by_member-IsConsistent clock u id db h) e
Step-IsConsistent {db} {db'} (topup_cancelled clock u id b e) h =
    Ensures-ok _ _ (cancel_topup_by_member-IsConsistent clock u id db h) e
Step-IsConsistent {db} {db'} (topup_informed input b e) h =
    Ensures-ok _ _ (set_topup_session_payment_info-IsConsistent input db h) e
Step-IsConsistent {db} {db'} (topup_called_back clock tx_id input r e) h =
    Ensures-ok _ _ (finalize_topup_callback-IsConsistent clock tx_id input db h) e
Step-IsConsistent {db} {db'} (topups_expired clock n e) h =
    Ensures-ok _ _ (expire_stale_topup_sessions-IsConsistent clock db h) e
Step-IsConsistent {db} {db'} (cashout_requested is_usdt clock id snapshot opts s e) h =
    Ensures-ok _ _ (request_merchant_cashout-IsConsistent is_usdt clock id snapshot opts db h) e
Step-IsConsistent {db} {db'} (cashout_called_back driver clock key status r keyed e) h =
    subst IsConsistent
      (sym
        (Ensures-ok _ _ (finalize_merchant_cashout_callback_idle driver clock key status db keyed)
          e).0)
      h
Step-IsConsistent {db} {db'} (balance_adjusted locale clock tx_id looked input o e) h =
    Ensures-ok _ _ (adjust_balance-IsConsistent locale clock tx_id looked input db h) e
Step-IsConsistent {db} {db'} (points_awarded locale driver input b e) h =
    Ensures-ok _ _ (award_member_points-IsConsistent locale driver input db h) e
Step-IsConsistent {db} {db'} (tier_set trim u tier reason b e) h =
    Ensures-ok _ _ (set_member_tier-IsConsistent trim u tier reason db h) e
Step-IsConsistent {db} {db'} (manually_settled looked snapshot input o current e) h =
    Ensures-ok _ _ (record_manual_settlement-IsConsistent snapshot input db current looked h) e
Step-IsConsistent {db} {db'} (pool_adjusted locale clock looked snapshot input o current e) h =
    Ensures-ok _ _ (adjust_cash_pool-IsConsistent snapshot input db current locale clock looked h) e
Step-IsConsistent {db} {db'} (pool_overwritten clock looked snapshot input o current e) h =
    Ensures-ok _ _ (set_cash_pool-IsConsistent snapshot input db current clock looked h) e
Step-IsConsistent {db} {db'} (commission_set m pct fixed e) h =
    Ensures-ok _ _ (set_merchant_commission-IsConsistent m pct fixed db h) e
Step-IsConsistent {db} {db'} (credit_limit_set locale snapshot m limit reason e) h =
    Ensures-ok _ _ (set_credit_limit-IsConsistent locale snapshot m limit reason db h) e
Step-IsConsistent {db} {db'} (campaign_created clock id id_of input p r e) h =
    Ensures-ok _ _ (create_campaign-IsConsistent clock id id_of input p db h) e
Step-IsConsistent {db} {db'} (campaign_published clock snapshot counted id e) h =
    Ensures-ok _ _ (publish_campaign-IsConsistent clock snapshot counted id db h) e
Step-IsConsistent {db} {db'} (campaign_closed clock snapshot id e) h =
    Ensures-ok _ _ (close_campaign-IsConsistent clock snapshot id db h) e
Step-IsConsistent {db} {db'} (campaign_cancelled clock snapshot id e) h =
    Ensures-ok _ _ (cancel_campaign-IsConsistent clock snapshot id db h) e
Step-IsConsistent {db} {db'} (share_claimed clock tx_id u id r e) h =
    Ensures-ok _ _ (claim_profit_share_reward-IsConsistent clock tx_id u id db h) e

-- Every sequence of committed transactions, from a state whose books are consistent, ends in a state
-- whose books are consistent; the sweeps of withdraws join rows as Postgres says, the rows that
-- cashout callbacks read have no property `0`, and the merchant that an operator's settlement or
-- change of a pool reads without a lock is not changed before it writes.
pub Reach-IsConsistent : {db db' : Db} → Reach db db' → IsConsistent db → IsConsistent db'
Reach-IsConsistent (start db) h = h
Reach-IsConsistent (then r s) h = Step-IsConsistent s (Reach-IsConsistent r h)
