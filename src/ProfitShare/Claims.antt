-- ===== src/ProfitShare/Claims.antt =====
-- `claimProfitShareReward` of apps/api/src/services/member.service.ts: a member takes its share.
use c_zdan.Common.{ℕ, Bool, true, false, not, none, some, ltb, ◌==◌, if◌then◌else◌}
use c_zdan.Common.Int.{pos, ◌+ℤ◌}
use c_zdan.Common.Table.{find, modify}
use c_zdan.Schema.{
  Account, TxType, TxStatus, Transaction, PublicNo, Allocation, AllocationStatus, allocation_id,
  campaign_id,
}
use c_zdan.Store.{
  Error, ok, Clock, Trx, ◌>>=◌, ◌>>◌, pure, throw, get, throw_if, or_throw, update_account,
  insert_transaction, alloc_public_no,
}
use c_zdan.ProfitShare.Campaigns.{is_published}

pub record ClaimOutput : Type 0 where
  pub amount : ℕ
  pub claim_tx_public_no : PublicNo

abbrev pub is_claimed : AllocationStatus → Bool
is_claimed AllocationStatus.claimed = true
is_claimed _ = false

abbrev pub is_expired : AllocationStatus → Bool
is_expired AllocationStatus.expired = true
is_expired _ = false

abbrev pub update_allocation : ℕ → (Allocation → Allocation) → Trx (Unit {0})
update_allocation k f db =
    ok (tt, record db { allocations = modify allocation_id k f db.allocations })

abbrev pub mark_expired : Clock → Allocation → Allocation
mark_expired clock a = record a { status = AllocationStatus.expired; expired_at = some clock.now }

-- A late claim marks the allocation, and throws in the same transaction.
unfoldable pub check_expiry : Clock → Allocation → Trx (Unit {0})
check_expiry clock a =
    if ltb a.expires_at clock.now
    then update_allocation a.id (mark_expired clock) >> throw Error.expired
    else pure tt

-- The allocation with its campaign: the member's own, published, pending, in time, of some amount.
unfoldable pub claimable : Clock → ℕ → ℕ → Trx Allocation
claimable clock u id = do
  db ← get
  a ← or_throw (find allocation_id id db.allocations) Error.allocation_not_found
  c ← or_throw (find campaign_id a.campaign_id db.campaigns) Error.allocation_not_found
  throw_if (not (a.user_id == u)) Error.allocation_not_found
  throw_if (not (is_published c.status)) Error.allocation_not_found
  throw_if (is_claimed a.status) Error.already_claimed
  throw_if (is_expired a.status) Error.expired
  check_expiry clock a
  throw_if (a.allocated_amount == 0) Error.amount_zero
  pure a

-- The metadata names no merchant.
abbrev pub share_transaction : Clock → ℕ → Allocation → Account → PublicNo → Transaction
share_transaction clock tx_id a acc public_no = record {
  id = tx_id;
  public_no = public_no;
  user_id = a.user_id;
  type = TxType.profit_share;
  status = TxStatus.completed;
  amount = pos a.allocated_amount;
  fee = pos 0;
  balance_after = acc.balance +ℤ pos a.allocated_amount;
  reference_id = some a.id;
  merchant_ref = none;
  external_tx_id = none;
  merchant_id = 0;
  merchant_fee = pos 0;
  is_debit = false;
  created_at = clock.now;
}

abbrev pub mark_claimed : Clock → ℕ → Allocation → Allocation
mark_claimed clock tx_id a = record a {
  status = AllocationStatus.claimed;
  claimed_at = some clock.now;
  claim_tx_id = some tx_id;
}

unfoldable pub pay_share : Clock → ℕ → Allocation → Trx ClaimOutput
pay_share clock tx_id a = do
  db ← get
  acc ← or_throw (db.accounts a.user_id) Error.account_not_found
  public_no ← alloc_public_no "PS" clock.ymd
  insert_transaction (share_transaction clock tx_id a acc public_no)
  update_account a.user_id (λ r. record r { balance = r.balance +ℤ pos a.allocated_amount })
  update_allocation a.id (mark_claimed clock tx_id)
  pure (record { amount = a.allocated_amount; claim_tx_public_no = public_no })

unfoldable pub claim_profit_share_reward : Clock → ℕ → ℕ → ℕ → Trx ClaimOutput
claim_profit_share_reward clock tx_id u id = do a ← claimable clock u id; pay_share clock tx_id a
