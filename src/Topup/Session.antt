-- ===== src/Topup/Session.antt =====
-- The routing of a topup, `createTopupSession`, and what the member and the merchant do with a session.
use c_zdan.Common.{
  ℕ, ◌+◌, Bool, true, false, not, ◌&&◌, Option, none, some, List, [], ◌∷◌, map, String, str_eq, ltb,
  ◌==◌, if◌then◌else◌,
}
use c_zdan.Common.Int.{ℤ, pos, ◌+ℤ◌, leb_ℤ}
use c_zdan.Common.Table.{any, count, filter, find, total}
use c_zdan.Schema.{
  Merchant, is_finance, RoutingRule, Direction, TopupSession, TopupStatus, topup_id, is_open_topup,
  is_open_topup_for, PublicNo,
}
use c_zdan.Store.{
  Error, Db, Clock, Trx, ◌>>=◌, ◌>>◌, ok, pure, get, throw_if, or_throw, insert_topup, update_topup,
  alloc_public_no,
}

abbrev pub session_ttl : ℕ
session_ttl = 1200000

abbrev is_topup : Direction → Bool
is_topup Direction.topup = true
is_topup Direction.withdraw = false

-- The join: an active finance merchant.
abbrev pub takes_topups : Option Merchant → Bool
takes_topups none = false
takes_topups (some m) = m.is_active && is_finance m.merchant_type

abbrev pub is_topup_route : (ℕ → Option Merchant) → String → RoutingRule → Bool
is_topup_route merchants method r =
    r.is_active
    && (is_topup r.direction
        && (str_eq r.method_type method && takes_topups (merchants r.merchant_id)))

abbrev pub weight : RoutingRule → ℤ
weight r = r.weight_pct

-- The loop: the first rule at which the running weight reaches `pick`, else the last rule.
unfoldable pub pick_weighted : ℤ → ℤ → RoutingRule → List RoutingRule → RoutingRule
pick_weighted pick acc r [] = r
pick_weighted pick acc r (s ∷ rules) =
    let rest = pick_weighted pick (acc +ℤ r.weight_pct) s rules in
    if leb_ℤ pick (acc +ℤ r.weight_pct) then r else rest

-- `draw t` is the random number below the total weight `t`, rounded up to a hundredth.
abbrev pub pick_of : (ℤ → ℤ) → List RoutingRule → Option ℕ
pick_of draw [] = none
pick_of draw (r ∷ rules) =
    let t = total weight (r ∷ rules) in
    if leb_ℤ t (pos 0)
    then some r.merchant_id
    else some (pick_weighted (draw t) (pos 0) r rules).merchant_id

unfoldable pub pick_finance_merchant_for_topup : (ℤ → ℤ) → Db → String → Option ℕ
pick_finance_merchant_for_topup draw db method =
    pick_of draw (filter (is_topup_route db.merchants method) db.routing)

pub record CreateTopup : Type 0 where
  pub user_id : ℕ
  pub method_type : String
  pub amount : ℤ
  -- The base that `safeReturnBase` lets pass, with the path of the status page.
  pub return_url : Option String

abbrev pub new_topup : Clock → ℕ → CreateTopup → ℕ → PublicNo → TopupSession
new_topup clock id input merchant_id public_no = record {
  id = id;
  public_no = public_no;
  user_id = input.user_id;
  merchant_id = merchant_id;
  method_type = input.method_type;
  amount = input.amount;
  status = TopupStatus.pending;
  merchant_ref = none;
  redirect_url = none;
  return_url = input.return_url;
  iban = none;
  account_holder = none;
  bank_name = none;
  payment_reference = none;
  member_confirmed_at = none;
  callback_received_at = none;
  finalized_at = none;
  expires_at = clock.now + session_ttl;
}

-- The routing query reads a state of its own, `snapshot`.
unfoldable pub create_topup_session : (ℤ → ℤ) → Clock → ℕ → Db → CreateTopup → Trx TopupSession
create_topup_session draw clock id snapshot input = do
  throw_if (leb_ℤ input.amount (pos 0)) Error.amount_invalid
  db ← get
  throw_if (any (is_open_topup_for input.user_id) db.topups) Error.topup_in_progress
  picked ←
      or_throw (pick_finance_merchant_for_topup draw snapshot input.method_type)
        Error.no_available_provider
  public_no ← alloc_public_no "T" clock.ymd
  let session = new_topup clock id input picked public_no
  insert_topup session
  pure session

-- `WHERE id = … AND user_id = …`.
abbrev pub owned : ℕ → Option TopupSession → Option TopupSession
owned u none = none
owned u (some s) = if s.user_id == u then some s else none

abbrev is_awaiting : TopupStatus → Bool
is_awaiting TopupStatus.awaiting_member_action = true
is_awaiting _ = false

abbrev is_before_payment : TopupStatus → Bool
is_before_payment TopupStatus.pending = true
is_before_payment TopupStatus.awaiting_member_action = true
is_before_payment _ = false

abbrev pub confirmed : Clock → TopupSession → TopupSession
confirmed clock s = record s {
  status = TopupStatus.member_confirmed;
  member_confirmed_at = some clock.now;
}

unfoldable pub confirm_topup_by_member : Clock → ℕ → ℕ → Trx Bool
confirm_topup_by_member clock u id = do
  db ← get
  s ← or_throw (owned u (find topup_id id db.topups)) Error.session_not_found
  throw_if (not (is_awaiting s.status)) Error.wrong_status
  update_topup id (confirmed clock)
  pure true

abbrev pub cancelled : Clock → TopupSession → TopupSession
cancelled clock s = record s { status = TopupStatus.cancelled; finalized_at = some clock.now }

unfoldable pub cancel_topup_by_member : Clock → ℕ → ℕ → Trx Bool
cancel_topup_by_member clock u id = do
  db ← get
  s ← or_throw (owned u (find topup_id id db.topups)) Error.session_not_found
  throw_if (not (is_before_payment s.status)) Error.wrong_status
  update_topup id (cancelled clock)
  pure true

pub record PaymentInfo : Type 0 where
  pub user_id : ℕ
  pub session_id : ℕ
  pub iban : String
  pub account_holder : String
  pub bank_name : Option String
  pub payment_reference : Option String

abbrev pub with_payment_info : PaymentInfo → TopupSession → TopupSession
with_payment_info input s = record s {
  iban = some input.iban;
  account_holder = some input.account_holder;
  bank_name = input.bank_name;
  payment_reference = input.payment_reference;
  status = TopupStatus.awaiting_member_action;
}

unfoldable pub set_topup_session_payment_info : PaymentInfo → Trx Bool
set_topup_session_payment_info input = do
  db ← get
  s ←
      or_throw (owned input.user_id (find topup_id input.session_id db.topups))
        Error.session_not_found
  throw_if (not (is_before_payment s.status)) Error.wrong_status
  update_topup input.session_id (with_payment_info input)
  pure true

abbrev pub is_stale_topup : Clock → TopupSession → Bool
is_stale_topup clock s = is_open_topup s.status && ltb s.expires_at clock.now

abbrev pub expire_topup : Clock → TopupSession → TopupSession
expire_topup clock s =
    if is_stale_topup clock s
    then record s { status = TopupStatus.expired; finalized_at = some clock.now }
    else s

unfoldable pub expire_stale_topup_sessions : Clock → Trx ℕ
expire_stale_topup_sessions clock db = ok (
  count (is_stale_topup clock) db.topups,
  record db { topups = map (expire_topup clock) db.topups },
)
