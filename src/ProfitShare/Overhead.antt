-- ===== src/ProfitShare/Overhead.antt =====
-- The overhead that later campaigns carry.
use c_zdan.Common.{
  ℕ, ◌+◌, ◌≡◌, refl, sym, ◌∙◌, Bool, true, false, not, arith, ◌==◌, Bool-cases, inl, inr,
  if◌then◌else◌,
}
use c_zdan.Common.Int.{ℤ, pos, ◌+ℤ◌, ◌-ℤ◌, int_laws, zero_+ℤ}
use c_zdan.Common.Table.{find, total, total-modify}
use c_zdan.Schema.{Campaign, CampaignStatus, campaign_id}
use c_zdan.Store.{ok, Db, Clock, Ensures, Ensures-ok}
use c_zdan.Store.Rules.{throw_if_rule, or_throw_rule, step_ok}
use c_zdan.ProfitShare.{
  create_campaign, publish_campaign, close_campaign, cancel_campaign, PreviewInput, Preview,
  is_draft, is_published,
}

abbrev is_shared : CampaignStatus → Bool
is_shared CampaignStatus.published = true
is_shared CampaignStatus.closed = true
is_shared _ = false

abbrev pub shared_pool : Campaign → ℤ
shared_pool c = if is_shared c.status then pos c.pool_amount else pos 0

-- The carried overhead is the sum of the pools that were ever published.
abbrev pub OverheadIsShared : Db → Type 0
OverheadIsShared db = pos db.cumulative_overhead ≡ total shared_pool db.campaigns

draft_pool : (c : Campaign) → not (is_draft c.status) ≡ false → shared_pool c ≡ pos 0
draft_pool c h = ground arith

published_pool :
    (c : Campaign) → not (is_published c.status) ≡ false → shared_pool c ≡ pos c.pool_amount
published_pool c h = ground arith

gains : (o p : ℕ) (t w : ℤ) → pos o ≡ t → w ≡ pos 0 → pos (o + p) ≡ t -ℤ w +ℤ pos p
gains o p t w e z = rw (← e, z) (omega int_laws)

stays : (o : ℤ) (t w v : ℤ) → o ≡ t → w ≡ v → o ≡ t -ℤ w +ℤ v
stays o t w v e z = rw (e, z) (omega int_laws)

gains_nothing : (o p : ℕ) (t w : ℤ) → pos o ≡ t → w ≡ pos 0 → p ≡ 0 → pos o ≡ t -ℤ w +ℤ pos p
gains_nothing o p t w e z n = rw (n, z, e) (omega int_laws)

-- An operation on campaigns that commits, whatever states its reads saw.
pub data CampaignStep (db db' : Db) : Type 0 where
  created :
      (clock : Clock) (id : ℕ) (id_of : ℕ → ℕ) (input : PreviewInput) (p : Preview) (r : ℕ)
      → create_campaign clock id id_of input p db ≡ ok (r, db')
      → CampaignStep db db'
  published :
      (clock : Clock) (snapshot counted : Db) (id : ℕ)
      → publish_campaign clock snapshot counted id db ≡ ok (tt, db')
      → CampaignStep db db'
  closed :
      (clock : Clock) (snapshot : Db) (id : ℕ)
      → close_campaign clock snapshot id db ≡ ok (tt, db')
      → CampaignStep db db'
  cancelled :
      (clock : Clock) (snapshot : Db) (id : ℕ)
      → cancel_campaign clock snapshot id db ≡ ok (tt, db')
      → CampaignStep db db'

-- The campaign was not changed since it was read.
abbrev pub IsCurrent : Db → ℕ → Db → Type 0
IsCurrent snapshot id db = find campaign_id id snapshot.campaigns ≡ find campaign_id id db.campaigns

-- Neither the campaign nor the overhead was changed between its read and the commit.
abbrev pub ReadsCurrent : {db db' : Db} → CampaignStep db db' → Type 0
ReadsCurrent (created clock id id_of input p r e) = Unit {0}
ReadsCurrent {db} (published clock snapshot counted id e) =
    IsCurrent snapshot id db × (counted.cumulative_overhead ≡ db.cumulative_overhead)
ReadsCurrent {db} (closed clock snapshot id e) = IsCurrent snapshot id db
ReadsCurrent {db} (cancelled clock snapshot id e) = IsCurrent snapshot id db

module _ (clock : Clock) (db : Db) (h : OverheadIsShared db) where
  create_keeps :
      (id : ℕ) (id_of : ℕ → ℕ) (input : PreviewInput) (p : Preview)
      → Ensures (λ _ d. OverheadIsShared d) (create_campaign clock id id_of input p db)
  unfolding create_campaign total
  create_keeps id id_of input p = h ∙ sym (zero_+ℤ (total shared_pool db.campaigns))

  publish_keeps :
      (snapshot counted : Db) (id : ℕ)
      → IsCurrent snapshot id db
      → counted.cumulative_overhead ≡ db.cumulative_overhead
      → Ensures (λ _ d. OverheadIsShared d) (publish_campaign clock snapshot counted id db)
  unfolding publish_campaign
  publish_keeps snapshot counted id now carried = or_throw_rule _ _ _ _ db λ c seen.
      throw_if_rule _ _ _ _ db λ draft. step_ok _ _ _ _ _ _ refl (
        step_ok _ _ _ _ _ _ refl (elim (Bool-cases (c.pool_amount == 0)) [
          | inl e ↦
              rw
                (
                  e,
                  Ensures,
                  total-modify shared_pool campaign_id id _ db.campaigns c (sym now ∙ seen),
                )
                (gains_nothing db.cumulative_overhead c.pool_amount _ _ h (draft_pool c draft)
                  (ground arith))
          | inr e ↦
              rw
                (
                  e,
                  Ensures,
                  carried,
                  total-modify shared_pool campaign_id id _ db.campaigns c (sym now ∙ seen),
                )
                (gains db.cumulative_overhead c.pool_amount _ _ h (draft_pool c draft))
        ]))

  close_keeps :
      (snapshot : Db) (id : ℕ)
      → IsCurrent snapshot id db
      → Ensures (λ _ d. OverheadIsShared d) (close_campaign clock snapshot id db)
  unfolding close_campaign
  close_keeps snapshot id now = or_throw_rule _ _ _ _ db λ c seen.
      throw_if_rule _ _ _ _ db λ published. step_ok _ _ _ _ _ _ refl (
        stays _ _ _ _ h (published_pool c published)
        ∙ sym (total-modify shared_pool campaign_id id _ db.campaigns c (sym now ∙ seen)))

  cancel_keeps :
      (snapshot : Db) (id : ℕ)
      → IsCurrent snapshot id db
      → Ensures (λ _ d. OverheadIsShared d) (cancel_campaign clock snapshot id db)
  unfolding cancel_campaign
  cancel_keeps snapshot id now = or_throw_rule _ _ _ _ db λ c seen.
      throw_if_rule _ _ _ _ db λ draft.
        stays _ _ _ _ h (draft_pool c draft)
        ∙ sym (total-modify shared_pool campaign_id id _ db.campaigns c (sym now ∙ seen))

-- A creation, and a publication, closing or cancellation whose unlocked reads saw the campaign, and
-- the overhead, that are there when it commits, keeps the carried overhead the sum of the pools of the
-- campaigns that are published or closed.
pub CampaignStep-OverheadIsShared :
    {db db' : Db} (step : CampaignStep db db')
    → ReadsCurrent step
    → OverheadIsShared db
    → OverheadIsShared db'
CampaignStep-OverheadIsShared {db} (created clock id id_of input p r e) now h =
    Ensures-ok _ _ (create_keeps clock db h id id_of input p) e
CampaignStep-OverheadIsShared {db} (published clock snapshot counted id e) (now, carried) h =
    Ensures-ok _ _ (publish_keeps clock db h snapshot counted id now carried) e
CampaignStep-OverheadIsShared {db} (closed clock snapshot id e) now h =
    Ensures-ok _ _ (close_keeps clock db h snapshot id now) e
CampaignStep-OverheadIsShared {db} (cancelled clock snapshot id e) now h =
    Ensures-ok _ _ (cancel_keeps clock db h snapshot id now) e
