-- ===== src/Ledger/Keeps.antt =====
-- Statements that move no money: what they leave as it was, and what follows for the books.
use c_zdan.Common.{ℕ, ◌≡◌, refl, ◌∙◌, some, arith, Option-cases, Bool-cases, inl, inr}
use c_zdan.Common.Table.{put}
use c_zdan.Schema.{Account, account_checks}
use c_zdan.Store.{Result, ok, err, Db, Trx, Ensures, Ensures-map, update_account, ◌>>=◌}
use c_zdan.Store.Rules.{bind_rule}
use c_zdan.Ledger.{balance_of, reserved_of, IsConsistent}

pub record KeepsMoney (db db' : Db) : Type 0 where
  pub balances : (u : ℕ) → balance_of db' u ≡ balance_of db u
  pub reserves : (u : ℕ) → reserved_of db' u ≡ reserved_of db u
  pub merchants_kept : db'.merchants ≡ db.merchants
  pub withdraws_kept : db'.withdraws ≡ db.withdraws
  pub topups_kept : db'.topups ≡ db.topups
  pub codes_kept : db'.codes ≡ db.codes
  pub transactions_kept : db'.transactions ≡ db.transactions
  pub pool_log_kept : db'.pool_log ≡ db.pool_log
  pub settlement_log_kept : db'.settlement_log ≡ db.settlement_log

pub KeepsMoney-refl : (db : Db) → KeepsMoney db db
KeepsMoney-refl db = record {
  balances = λ u. refl;
  reserves = λ u. refl;
  merchants_kept = refl;
  withdraws_kept = refl;
  topups_kept = refl;
  codes_kept = refl;
  transactions_kept = refl;
  pool_log_kept = refl;
  settlement_log_kept = refl;
}

pub KeepsMoney-trans : {a b c : Db} → KeepsMoney a b → KeepsMoney b c → KeepsMoney a c
KeepsMoney-trans p q = record {
  balances = λ u. q.balances u ∙ p.balances u;
  reserves = λ u. q.reserves u ∙ p.reserves u;
  merchants_kept = q.merchants_kept ∙ p.merchants_kept;
  withdraws_kept = q.withdraws_kept ∙ p.withdraws_kept;
  topups_kept = q.topups_kept ∙ p.topups_kept;
  codes_kept = q.codes_kept ∙ p.codes_kept;
  transactions_kept = q.transactions_kept ∙ p.transactions_kept;
  pool_log_kept = q.pool_log_kept ∙ p.pool_log_kept;
  settlement_log_kept = q.settlement_log_kept ∙ p.settlement_log_kept;
}

pub KeepsMoney-IsConsistent : {a b : Db} → KeepsMoney a b → IsConsistent a → IsConsistent b
KeepsMoney-IsConsistent k h = record {
  ledger = λ u. k.balances u ∙ rw k.transactions_kept (h.ledger u);
  held_back = λ u. k.reserves u ∙ rw (k.withdraws_kept, k.codes_kept) (h.held_back u);
  pooled = rw (k.merchants_kept, k.pool_log_kept) h.pooled;
  settled = rw (k.merchants_kept, k.settlement_log_kept) h.settled;
  pool_chain = rw k.pool_log_kept h.pool_chain;
  settlement_chain = rw k.settlement_log_kept h.settlement_chain;
  withdraws_nonneg = rw k.withdraws_kept h.withdraws_nonneg;
  codes_nonneg = rw k.codes_kept h.codes_nonneg;
  codes_keyed = rw k.codes_kept h.codes_keyed;
  one_withdraw = rw k.withdraws_kept h.one_withdraw;
  one_topup = rw k.topups_kept h.one_topup;
}

abbrev pub Keeps : {A : Type 0} → Trx A → Type 0
Keeps m = (db : Db) → Ensures (λ _ db'. KeepsMoney db db') (m db)

pub Keeps-IsConsistent :
    {A : Type 0} (m : Trx A)
    → Keeps m
    → (db : Db) → IsConsistent db
    → Ensures (λ _ db'. IsConsistent db') (m db)
Keeps-IsConsistent {A} m k db h =
    Ensures-map {A = A} (λ _ d. KeepsMoney db d) (λ _ d. IsConsistent d) (m db)
      (λ _ d q. KeepsMoney-IsConsistent q h) (k db)

weaken :
    {B : Type 0} (db d : Db) (r : Result (B × Db))
    → KeepsMoney db d
    → Ensures (λ _ e. KeepsMoney d e) r
    → Ensures (λ _ e. KeepsMoney db e) r
weaken db d (ok (b, e)) p q = KeepsMoney-trans p q
weaken db d (err e) p q = tt

pub bind-Keeps :
    {A B : Type 0} (m : Trx A) (f : A → Trx B) → Keeps m → ((a : A) → Keeps (f a)) → Keeps (m >>= f)
bind-Keeps m f hm hf db =
    bind_rule _ (λ _ d. KeepsMoney db d) m f db (hm db) λ a d p. weaken db d (f a d) p (hf a d)

put-Keeps :
    (db : Db) (u : ℕ) (a b : Account)
    → db.accounts u ≡ some a
    → b.balance ≡ a.balance
    → b.reserved_balance ≡ a.reserved_balance
    → KeepsMoney db (record db { accounts = put u b db.accounts })
put-Keeps db u a b e p q = record {
  balances = λ v. ground (arith, e);
  reserves = λ v. ground (arith, e);
  merchants_kept = refl;
  withdraws_kept = refl;
  topups_kept = refl;
  codes_kept = refl;
  transactions_kept = refl;
  pool_log_kept = refl;
  settlement_log_kept = refl;
}

pub update_account-Keeps :
    (u : ℕ) (f : Account → Account)
    → ((a : Account) → ((f a).balance ≡ a.balance) × ((f a).reserved_balance ≡ a.reserved_balance))
    → Keeps (update_account u f)
unfolding update_account
update_account-Keeps u f same db = elim (Option-cases (db.accounts u)) [
  | inl e ↦ rw (e, Ensures) (KeepsMoney-refl db)
  | inr (a, e) ↦ elim (Bool-cases (account_checks (f a))) [
    | inl c ↦ rw (e, c, Ensures) (put-Keeps db u a (f a) e (same a).0 (same a).1)
    | inr c ↦ rw (e, c, Ensures) tt
  ]
]
