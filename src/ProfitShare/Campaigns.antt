-- ===== src/ProfitShare/Campaigns.antt =====
-- The preview of a campaign and its states, of apps/api/src/services/admin/profit-share.service.ts.
use c_zdan.Common.{
  ℕ, zero, suc, ◌+◌, ◌*◌, Bool, true, false, not, ◌&&◌, ◌||◌, Option, none, some, List, [], ◌∷◌,
  map, ltb, ◌==◌, if◌then◌else◌,
}
use c_zdan.Common.Int.{ℤ, pos}
use c_zdan.Common.Table.{find, modify}
use c_zdan.Schema.{Campaign, CampaignStatus, Allocation, AllocationStatus, campaign_id}
use c_zdan.Store.{Error, ok, Db, Clock, Trx, ◌>>=◌, ◌>>◌, pure, get, throw_if, or_throw}
use c_zdan.ProfitShare.Allocate.{
  compute_profit_share_net_profit, compute_pool_amount, distribute_pro_rata_allocations,
}

-- What the two queries of the period yield: revenue and cost, and the affiliates' accruals.
pub record PeriodSums : Type 0 where
  pub revenue : ℤ
  pub cost : ℤ
  pub affiliate : ℤ

-- What JavaScript reads as property `0` of a row object: of the row of revenue and cost, and of the
-- row of the affiliates' total.
pub record EconomicsRows : Type 0 where
  pub zero_of_econ : ℤ → ℤ → Option (ℤ × ℤ)
  pub zero_of_total : ℤ → Option ℤ

abbrev revenue_of : Option (ℤ × ℤ) → ℤ
revenue_of none = pos 0
revenue_of (some (r, c)) = r

abbrev cost_of : Option (ℤ × ℤ) → ℤ
cost_of none = pos 0
cost_of (some (r, c)) = c

abbrev or_zero : Option ℤ → ℤ
or_zero none = pos 0
or_zero (some a) = a

-- Each row is taken out of its result by a pattern, and indexed once more.
unfoldable pub fetch_platform_economics : EconomicsRows → Bool → PeriodSums → PeriodSums
fetch_platform_economics rows affiliates_enabled sums = record {
  revenue = revenue_of (rows.zero_of_econ sums.revenue sums.cost);
  cost = cost_of (rows.zero_of_econ sums.revenue sums.cost);
  affiliate = if affiliates_enabled then or_zero (rows.zero_of_total sums.affiliate) else pos 0;
}

-- A row of the turnover query: a member with the sum of its spends, the largest first.
pub record Recipient : Type 0 where
  pub user_id : ℕ
  pub turnover : ℕ

pub record PreviewInput : Type 0 where
  pub distribution_pct : ℕ
  pub max_recipients : ℕ
  pub claim_expires_hours : ℕ
  pub affiliates_enabled : Bool

pub record Preview : Type 0 where
  pub economics : PeriodSums
  pub carried_overhead : ℤ
  pub net_profit : ℕ
  pub pool_amount : ℕ
  pub top : List Recipient
  pub allocated_amounts : List ℕ

-- `LIMIT`.
unfoldable pub limit : ℕ → List Recipient → List Recipient
limit zero rows = []
limit (suc n) [] = []
limit (suc n) (r ∷ rows) = r ∷ limit n rows

abbrev pub turnover_of : Recipient → ℕ
turnover_of r = r.turnover

abbrev preview_of : (ℕ → ℕ → ℕ → ℕ) → PreviewInput → PeriodSums → ℕ → List Recipient → Preview
preview_of share input econ overhead top =
    let net : ℕ =
      compute_profit_share_net_profit econ.revenue econ.cost econ.affiliate (pos overhead) in
    let pool : ℕ = compute_pool_amount net input.distribution_pct in
    record {
      economics = econ;
      carried_overhead = pos overhead;
      net_profit = net;
      pool_amount = pool;
      top = top;
      allocated_amounts = distribute_pro_rata_allocations share (map turnover_of top) pool;
    }

unfoldable pub compute_preview :
    (ℕ → ℕ → ℕ → ℕ) → EconomicsRows → PeriodSums → List Recipient → PreviewInput → Trx Preview
compute_preview share rows sums ranking input = do
  throw_if (input.distribution_pct == 0 || ltb 10000 input.distribution_pct)
      Error.distribution_pct_out_of_range
  throw_if (input.max_recipients == 0) Error.max_recipients_invalid
  db ← get
  pure (
      preview_of share input (fetch_platform_economics rows input.affiliates_enabled sums)
        db.cumulative_overhead (limit input.max_recipients ranking))

abbrev pub hour : ℕ
hour = 3600000

-- `allocatedAmounts[i] ?? 0`; the ids are random, and rank `n` has `id_of n`.
unfoldable pub allocation_rows : (ℕ → ℕ) → ℕ → ℕ → ℕ → List Recipient → List ℕ → List Allocation
allocation_rows id_of campaign expires_at rank [] amounts = []
allocation_rows id_of campaign expires_at rank (r ∷ top) amounts =
    (record {
      id = id_of rank;
      campaign_id = campaign;
      user_id = r.user_id;
      rank_no = rank;
      turnover_amount = r.turnover;
      allocated_amount = elim amounts [ [] ↦ 0 | a ∷ as_left ↦ a ];
      status = AllocationStatus.pending;
      claim_tx_id = none;
      expires_at = expires_at;
      expired_at = none;
      claimed_at = none;
    })
    ∷ allocation_rows id_of campaign expires_at (rank + 1) top
        (elim amounts [ [] ↦ [] | a ∷ as_left ↦ as_left ])

abbrev pub count_rows : List Recipient → ℕ
count_rows [] = 0
count_rows (r ∷ rows) = suc (count_rows rows)

abbrev draft_campaign : ℕ → PreviewInput → Preview → Campaign
draft_campaign id input p = record {
  id = id;
  status = CampaignStatus.draft;
  distribution_pct = input.distribution_pct;
  platform_revenue = p.economics.revenue;
  platform_cost = p.economics.cost;
  affiliate_cost = p.economics.affiliate;
  carried_overhead = p.carried_overhead;
  net_profit = p.net_profit;
  pool_amount = p.pool_amount;
  eligible_count = count_rows p.top;
  claim_expires_hours = input.claim_expires_hours;
  published_at = none;
  closed_at = none;
  cancelled_at = none;
}

abbrev append : List Allocation → List Allocation → List Allocation
append xs ys = mathlib.Core.List.◌++◌ xs ys

-- `createCampaign`, from its preview on. The preview was read before the transaction.
unfoldable pub create_campaign : Clock → ℕ → (ℕ → ℕ) → PreviewInput → Preview → Trx ℕ
create_campaign clock id id_of input p db = ok (
  id,
  record db {
    campaigns = draft_campaign id input p ∷ db.campaigns;
    allocations =
        append
          (allocation_rows id_of id (clock.now + input.claim_expires_hours * hour) 1 p.top
            p.allocated_amounts)
          db.allocations;
  },
)

abbrev pub is_draft : CampaignStatus → Bool
is_draft CampaignStatus.draft = true
is_draft _ = false

abbrev pub is_published : CampaignStatus → Bool
is_published CampaignStatus.published = true
is_published _ = false

abbrev pub is_pending : AllocationStatus → Bool
is_pending AllocationStatus.pending = true
is_pending _ = false

-- `WHERE campaign_id = … AND status = 'pending'`.
unfoldable pub set_pending : ℕ → (Allocation → Allocation) → List Allocation → List Allocation
set_pending c f [] = []
set_pending c f (a ∷ rows) =
    (if a.campaign_id == c && is_pending a.status then f a else a) ∷ set_pending c f rows

abbrev update_campaign : ℕ → (Campaign → Campaign) → Trx (Unit {0})
update_campaign k f db = ok (tt, record db { campaigns = modify campaign_id k f db.campaigns })

abbrev update_pending : ℕ → (Allocation → Allocation) → Trx (Unit {0})
update_pending k f db = ok (tt, record db { allocations = set_pending k f db.allocations })

-- `addCumulativeOverhead`: the value is read without a lock, in the state `counted`, and the sum
-- written back.
abbrev add_cumulative_overhead : Db → ℕ → Trx (Unit {0})
add_cumulative_overhead counted delta db =
    ok (tt, record db { cumulative_overhead = counted.cumulative_overhead + delta })

-- The campaign is read first and without a lock, in the state `snapshot`, by each of the three.
unfoldable pub publish_campaign : Clock → Db → Db → ℕ → Trx (Unit {0})
publish_campaign clock snapshot counted id = do
  c ← or_throw (find campaign_id id snapshot.campaigns) Error.campaign_not_found
  throw_if (not (is_draft c.status)) Error.wrong_status
  update_campaign id
      (λ r. record r { status = CampaignStatus.published; published_at = some clock.now })
  update_pending id (λ a. record a { expires_at = clock.now + c.claim_expires_hours * hour })
  if c.pool_amount == 0 then pure tt else add_cumulative_overhead counted c.pool_amount

unfoldable pub close_campaign : Clock → Db → ℕ → Trx (Unit {0})
close_campaign clock snapshot id = do
  c ← or_throw (find campaign_id id snapshot.campaigns) Error.campaign_not_found
  throw_if (not (is_published c.status)) Error.wrong_status
  update_campaign id (λ r. record r { status = CampaignStatus.closed; closed_at = some clock.now })
  update_pending id
      (λ a. record a { status = AllocationStatus.expired; expired_at = some clock.now })

unfoldable pub cancel_campaign : Clock → Db → ℕ → Trx (Unit {0})
cancel_campaign clock snapshot id = do
  c ← or_throw (find campaign_id id snapshot.campaigns) Error.campaign_not_found
  throw_if (not (is_draft c.status)) Error.wrong_status
  update_campaign id
      (λ r. record r { status = CampaignStatus.cancelled; cancelled_at = some clock.now })
