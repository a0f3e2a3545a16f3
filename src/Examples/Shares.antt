-- ===== src/Examples/Shares.antt =====
-- A campaign with a share that is pending, and the theorems about campaigns applied.
use native.Mathlib.Nat.{div-mul-le_self}
use c_zdan.Common.{ℕ, ◌*◌, ◌/◌, ◌≡◌, refl, true, none, List, [], ◌∷◌, arith, if◌then◌else◌, ◌==◌}
use c_zdan.Common.Int.{pos, ◌+ℤ◌}
use c_zdan.Common.Table.{find, modify, total, any}
use c_zdan.Schema.{Campaign, CampaignStatus, Allocation, AllocationStatus}
use c_zdan.Store.{
  is_ok, Error, err, ok, run_tx, Db, Ensures, get, throw_if, or_throw, ◌>>=◌, update_account,
  insert_transaction, transaction_fits, alloc_public_no,
}
use c_zdan.Ledger.{balance_of}
use c_zdan.ProfitShare.{
  sum, length, distribute_pro_rata_allocations, PeriodSums, EconomicsRows, Recipient, PreviewInput,
  compute_preview, publish_campaign, set_pending, ClaimOutput, check_expiry, claimable, pay_share,
  claim_profit_share_reward,
}
use c_zdan.ProfitShare.Exact.{IsNear, distribute-sum}
use c_zdan.ProfitShare.Previewed.{compute_preview-empty}
use c_zdan.ProfitShare.Claimed.{IsClaimable, claim_profit_share_reward_once, claim_late_unmarked}
use c_zdan.ProfitShare.Overhead.{published, OverheadIsShared, CampaignStep-OverheadIsShared}
use c_zdan.Examples.Books.{noon, midnight, books}
use c_zdan.Examples.Runs.{committed}

abbrev exact_share : ℕ → ℕ → ℕ → ℕ
exact_share t whole pool = if whole == 0 then 0 else t * pool / whole

exact_share-IsNear : IsNear 1048576 exact_share
exact_share-IsNear = record {
  not_above = λ t whole pool. ground (arith, div-mul-le_self (t * pool) whole);
}

distribute-sum_example :
    (length (distribute_pro_rata_allocations exact_share (500 ∷ 300 ∷ 200 ∷ []) 1001) ≡ 3)
    × (sum (distribute_pro_rata_allocations exact_share (500 ∷ 300 ∷ 200 ∷ []) 1001) ≡ 1001)
unfolding sum
distribute-sum_example =
    distribute-sum 1048576 exact_share (500 ∷ 300 ∷ 200 ∷ []) 1001 exact_share-IsNear (omega arith)
      (omega arith) (omega arith)

abbrev named_rows : EconomicsRows
named_rows = record { zero_of_econ = λ r c. none; zero_of_total = λ t. none }

abbrev preview_input : PreviewInput
preview_input = record {
  distribution_pct = 2500;
  max_recipients = 10;
  claim_expires_hours = 168;
  affiliates_enabled = true;
}

abbrev earnings : PeriodSums
earnings = record { revenue = pos 900000; cost = pos 100000; affiliate = pos 5000 }

abbrev ranking : List Recipient
ranking = (record { user_id = 2; turnover = 40000 }) ∷ []

compute_preview-empty_example :
    Ensures
      (λ p d.
        (d ≡ books) × ((p.net_profit ≡ 0) × ((p.pool_amount ≡ 0) × (sum p.allocated_amounts ≡ 0))))
      (compute_preview exact_share named_rows earnings ranking preview_input books)
compute_preview-empty_example =
    compute_preview-empty exact_share named_rows earnings ranking preview_input books
      (record { no_zero_of_econ = λ r c. refl; no_zero_of_total = λ t. refl })

abbrev campaign : ℕ → CampaignStatus → ℕ → Campaign
campaign id status pool = record {
  id = id;
  status = status;
  distribution_pct = 2500;
  platform_revenue = pos 0;
  platform_cost = pos 0;
  affiliate_cost = pos 0;
  carried_overhead = pos 0;
  net_profit = 4 * pool;
  pool_amount = pool;
  eligible_count = 1;
  claim_expires_hours = 168;
  published_at = none;
  closed_at = none;
  cancelled_at = none;
}

abbrev share_of : ℕ → Allocation
share_of expiry = record {
  id = 7;
  campaign_id = 1;
  user_id = 2;
  rank_no = 1;
  turnover_amount = 40000;
  allocated_amount = 9000;
  status = AllocationStatus.pending;
  claim_tx_id = none;
  expires_at = expiry;
  expired_at = none;
  claimed_at = none;
}

abbrev sharing : Db
sharing = record books {
  campaigns = campaign 2 CampaignStatus.draft 500 ∷ campaign 1 CampaignStatus.published 9000 ∷ [];
  allocations = share_of 6000000 ∷ [];
  cumulative_overhead = 9000;
}

claim_commits : is_ok (claim_profit_share_reward noon 60 2 7 sharing) ≡ true
unfolding claim_profit_share_reward claimable check_expiry pay_share find modify any get throw_if
    or_throw ◌>>=◌ update_account insert_transaction transaction_fits alloc_public_no ◌+ℤ◌
claim_commits = refl

abbrev paid_share :
    (r : ClaimOutput) × ((d : Db) × (claim_profit_share_reward noon 60 2 7 sharing ≡ ok (r, d)))
paid_share = committed (claim_profit_share_reward noon 60 2 7 sharing) claim_commits

claim_profit_share_reward_once_example :
    (a : Allocation) × (IsClaimable noon 2 7 sharing a
      × ((paid_share.0.amount ≡ a.allocated_amount)
          × ((balance_of paid_share.1.0 2 ≡ balance_of sharing 2 +ℤ pos paid_share.0.amount)
              × (claim_profit_share_reward midnight 61 2 7 paid_share.1.0
                  ≡ err Error.already_claimed))))
claim_profit_share_reward_once_example =
    claim_profit_share_reward_once noon 60 2 7 sharing paid_share.0 paid_share.1.0 midnight 61
      paid_share.1.1

claim_late_unmarked_example :
    run_tx (claim_profit_share_reward midnight 60 2 7) sharing ≡ (err Error.expired, sharing)
unfolding find
claim_late_unmarked_example =
    claim_late_unmarked midnight 60 2 7 sharing (share_of 6000000)
      (campaign 1 CampaignStatus.published 9000) refl refl refl refl refl refl (omega arith)

publish_commits : is_ok (publish_campaign noon sharing sharing 2 sharing) ≡ true
unfolding publish_campaign find modify set_pending get throw_if or_throw ◌>>=◌
publish_commits = refl

abbrev publication :
    (r : Unit {0}) × ((d : Db) × (publish_campaign noon sharing sharing 2 sharing ≡ ok (r, d)))
publication = committed (publish_campaign noon sharing sharing 2 sharing) publish_commits

CampaignStep-OverheadIsShared_example : OverheadIsShared publication.1.0
unfolding total ◌+ℤ◌
CampaignStep-OverheadIsShared_example =
    CampaignStep-OverheadIsShared (published noon sharing sharing 2 publication.1.1) (refl, refl)
      refl
