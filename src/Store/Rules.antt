-- ===== src/Store/Rules.antt =====
-- How to prove what holds at every successful end of a transaction: one rule for each statement,
-- from what holds of the rest of the block in the state that the statement leaves.
use c_zdan.Common.{
  ℕ, ◌≡◌, refl, sym, subst, inl, inr, Bool, true, false, Option, none, some, ◌∷◌, arith, Bool-cases,
  Option-cases, String,
}
use c_zdan.Common.Table.{put}
use c_zdan.Schema.{
  Account, account_checks, Merchant, merchant_checks, Transaction, WithdrawSession, TopupSession,
  PaymentCode, PublicNo,
}
use c_zdan.Store.Monad.{
  Error, check_violation, unique_violation, Result, ok, err, Db, Trx, ◌>>=◌, get, throw_if,
  or_throw, Ensures,
}
use c_zdan.Store.Tables.{
  update_account, update_merchant, insert_transaction, transaction_fits, insert_withdraw,
  withdraw_fits, insert_topup, topup_fits, insert_code, code_fits, alloc_public_no,
}

abbrev after : {A B : Type 0} → (A → Trx B) → Result (A × Db) → Result (B × Db)
after f r = elim r [ ok (a, db) ↦ f a db | err e ↦ err e ]

module _ {B : Type 0} (Q : B → Db → Type 0) where
  -- A statement whose outcome is known.
  pub step_ok :
      {A : Type 0} (m : Trx A) (f : A → Trx B) (db : Db) (a : A) (db' : Db)
      → m db ≡ ok (a, db')
      → Ensures Q (f a db')
      → Ensures Q ((m >>= f) db)
  unfolding ◌>>=◌
  step_ok m f db a db' e h = subst (λ r. Ensures Q (after f r)) (sym e) h

  pub step_err :
      {A : Type 0} (m : Trx A) (f : A → Trx B) (db : Db) (e : Error)
      → m db ≡ err e
      → Ensures Q ((m >>= f) db)
  unfolding ◌>>=◌
  step_err m f db e p = subst (λ r. Ensures Q (after f r)) (sym p) tt

  -- A statement of which a postcondition is known.
  pub bind_rule :
      {A : Type 0} (P : A → Db → Type 0) (m : Trx A) (f : A → Trx B) (db : Db)
      → Ensures P (m db)
      → ((a : A) (db' : Db) → P a db' → Ensures Q (f a db'))
      → Ensures Q ((m >>= f) db)
  unfolding ◌>>=◌
  bind_rule {A} P m f db h k = go (m db) h
    where
      go : (r : Result (A × Db)) → Ensures P r → Ensures Q (after f r)
      go (ok (a, db')) p = k a db' p
      go (err e) p = tt

  -- A block that only reads and checks.
  pub read_rule :
      {A : Type 0} (P : A → Type 0) (m : Trx A) (f : A → Trx B) (db : Db)
      → Ensures (λ a db'. (db' ≡ db) × P a) (m db)
      → ((a : A) → P a → Ensures Q (f a db))
      → Ensures Q ((m >>= f) db)
  read_rule P m f db h k =
      bind_rule (λ a db'. (db' ≡ db) × P a) m f db h
        (λ a db' (e, p). subst (λ d. Ensures Q (f a d)) (sym e) (k a p))

  pub throw_if_rule :
      (b : Bool) (e : Error) (f : Unit {0} → Trx B) (db : Db)
      → (b ≡ false → Ensures Q (f tt db))
      → Ensures Q ((throw_if b e >>= f) db)
  unfolding throw_if ◌>>=◌
  throw_if_rule true e f db h = tt
  throw_if_rule false e f db h = h refl

  pub get_rule : (f : Db → Trx B) (db : Db) → Ensures Q (f db db) → Ensures Q ((get >>= f) db)
  unfolding get ◌>>=◌
  get_rule f db h = h

  pub or_throw_rule :
      {A : Type 0} (o : Option A) (e : Error) (k : A → Trx B) (db : Db)
      → ((a : A) → o ≡ some a → Ensures Q (k a db))
      → Ensures Q ((or_throw o e >>= k) db)
  unfolding or_throw ◌>>=◌
  or_throw_rule none e k db h = tt
  or_throw_rule (some a) e k db h = h a refl

  -- The same statements at the end of a block.
  pub or_throw_end :
      (o : Option B) (e : Error) (db : Db)
      → ((a : B) → o ≡ some a → Q a db)
      → Ensures Q (or_throw o e db)
  unfolding or_throw
  or_throw_end none e db h = tt
  or_throw_end (some a) e db h = h a refl

pub throw_if_end :
    (Q : Unit {0} → Db → Type 0) (b : Bool) (e : Error) (db : Db)
    → (b ≡ false → Q tt db)
    → Ensures Q (throw_if b e db)
unfolding throw_if
throw_if_end Q true e db h = tt
throw_if_end Q false e db h = h refl

update_account_ok :
    (u : ℕ) (f : Account → Account) (db : Db) (a : Account)
    → db.accounts u ≡ some a
    → account_checks (f a) ≡ true
    → update_account u f db ≡ ok (tt, record db { accounts = put u (f a) db.accounts })
unfolding update_account
update_account_ok u f db a e c = ground arith

update_account_err :
    (u : ℕ) (f : Account → Account) (db : Db) (a : Account)
    → db.accounts u ≡ some a
    → account_checks (f a) ≡ false
    → update_account u f db ≡ err check_violation
unfolding update_account
update_account_err u f db a e c = ground arith

pub update_account_rule :
    {B : Type 0} (Q : B → Db → Type 0) (u : ℕ) (f : Account → Account) (k : Unit {0} → Trx B)
    (db : Db) (a : Account)
    → db.accounts u ≡ some a
    → (account_checks (f a) ≡ true
        → Ensures Q (k tt (record db { accounts = put u (f a) db.accounts })))
    → Ensures Q ((update_account u f >>= k) db)
update_account_rule Q u f k db a e h = elim (Bool-cases (account_checks (f a))) [
  | inl c ↦ step_ok Q (update_account u f) k db tt _ (update_account_ok u f db a e c) (h c)
  | inr c ↦ step_err Q (update_account u f) k db check_violation (update_account_err u f db a e c)
]

update_merchant_ok :
    (u : ℕ) (f : Merchant → Merchant) (db : Db) (a : Merchant)
    → db.merchants u ≡ some a
    → merchant_checks (f a) ≡ true
    → update_merchant u f db ≡ ok (tt, record db { merchants = put u (f a) db.merchants })
unfolding update_merchant
update_merchant_ok u f db a e c = ground arith

update_merchant_err :
    (u : ℕ) (f : Merchant → Merchant) (db : Db) (a : Merchant)
    → db.merchants u ≡ some a
    → merchant_checks (f a) ≡ false
    → update_merchant u f db ≡ err check_violation
unfolding update_merchant
update_merchant_err u f db a e c = ground arith

pub update_merchant_rule :
    {B : Type 0} (Q : B → Db → Type 0) (u : ℕ) (f : Merchant → Merchant) (k : Unit {0} → Trx B)
    (db : Db) (a : Merchant)
    → db.merchants u ≡ some a
    → (merchant_checks (f a) ≡ true
        → Ensures Q (k tt (record db { merchants = put u (f a) db.merchants })))
    → Ensures Q ((update_merchant u f >>= k) db)
update_merchant_rule Q u f k db a e h = elim (Bool-cases (merchant_checks (f a))) [
  | inl c ↦ step_ok Q (update_merchant u f) k db tt _ (update_merchant_ok u f db a e c) (h c)
  | inr c ↦ step_err Q (update_merchant u f) k db check_violation (update_merchant_err u f db a e c)
]

pub insert_transaction_rule :
    {B : Type 0} (Q : B → Db → Type 0) (r : Transaction) (k : Unit {0} → Trx B) (db : Db)
    → (transaction_fits r db.transactions ≡ true
        → Ensures Q (k tt (record db { transactions = r ∷ db.transactions })))
    → Ensures Q ((insert_transaction r >>= k) db)
unfolding insert_transaction
insert_transaction_rule Q r k db h = elim (Bool-cases (transaction_fits r db.transactions)) [
  | inl c ↦
      step_ok Q (insert_transaction r) k db tt (record db { transactions = r ∷ db.transactions })
        (rw c) (h c)
  | inr c ↦ step_err Q (insert_transaction r) k db unique_violation (rw c)
]

pub insert_withdraw_rule :
    {B : Type 0} (Q : B → Db → Type 0) (r : WithdrawSession) (k : Unit {0} → Trx B) (db : Db)
    → (withdraw_fits r db.withdraws ≡ true
        → Ensures Q (k tt (record db { withdraws = r ∷ db.withdraws })))
    → Ensures Q ((insert_withdraw r >>= k) db)
unfolding insert_withdraw
insert_withdraw_rule Q r k db h = elim (Bool-cases (withdraw_fits r db.withdraws)) [
  | inl c ↦
      step_ok Q (insert_withdraw r) k db tt (record db { withdraws = r ∷ db.withdraws }) (rw c)
        (h c)
  | inr c ↦ step_err Q (insert_withdraw r) k db unique_violation (rw c)
]

pub insert_topup_rule :
    {B : Type 0} (Q : B → Db → Type 0) (r : TopupSession) (k : Unit {0} → Trx B) (db : Db)
    → (topup_fits r db.topups ≡ true → Ensures Q (k tt (record db { topups = r ∷ db.topups })))
    → Ensures Q ((insert_topup r >>= k) db)
unfolding insert_topup
insert_topup_rule Q r k db h = elim (Bool-cases (topup_fits r db.topups)) [
  | inl c ↦ step_ok Q (insert_topup r) k db tt (record db { topups = r ∷ db.topups }) (rw c) (h c)
  | inr c ↦ step_err Q (insert_topup r) k db unique_violation (rw c)
]

pub insert_code_rule :
    {B : Type 0} (Q : B → Db → Type 0) (r : PaymentCode) (k : Unit {0} → Trx B) (db : Db)
    → (code_fits r db.codes ≡ true → Ensures Q (k tt (record db { codes = r ∷ db.codes })))
    → Ensures Q ((insert_code r >>= k) db)
unfolding insert_code
insert_code_rule Q r k db h = elim (Bool-cases (code_fits r db.codes)) [
  | inl c ↦ step_ok Q (insert_code r) k db tt (record db { codes = r ∷ db.codes }) (rw c) (h c)
  | inr c ↦ step_err Q (insert_code r) k db unique_violation (rw c)
]

-- The counters are the only thing that changes, and no property here reads them.
pub alloc_public_no_rule :
    {B : Type 0} (Q : B → Db → Type 0) (prefix : String) (ymd : ℕ) (k : PublicNo → Trx B) (db : Db)
    → ((p : PublicNo) (counters : String → ℕ → Option ℕ)
        → Ensures Q (k p (record db { counters = counters })))
    → Ensures Q ((alloc_public_no prefix ymd >>= k) db)
unfolding alloc_public_no ◌>>=◌
alloc_public_no_rule Q prefix ymd k db h = h _ _

update_account_missing :
    (u : ℕ) (f : Account → Account) (db : Db)
    → db.accounts u ≡ none
    → update_account u f db ≡ ok (tt, db)
unfolding update_account
update_account_missing u f db e = ground arith

-- Where the row may be missing, nothing changes if it is.
pub update_account_rule_any :
    {B : Type 0} (Q : B → Db → Type 0) (u : ℕ) (f : Account → Account) (k : Unit {0} → Trx B)
    (db : Db)
    → (db.accounts u ≡ none → Ensures Q (k tt db))
    → ((a : Account)
        → db.accounts u ≡ some a
        → Ensures Q (k tt (record db { accounts = put u (f a) db.accounts })))
    → Ensures Q ((update_account u f >>= k) db)
update_account_rule_any Q u f k db missing h = elim (Option-cases (db.accounts u)) [
  | inl e ↦ step_ok Q (update_account u f) k db tt db (update_account_missing u f db e) (missing e)
  | inr (a, e) ↦ update_account_rule Q u f k db a e (λ _. h a e)
]

-- The same at the end of a block.
pub update_account_end :
    (Q : Unit {0} → Db → Type 0) (u : ℕ) (f : Account → Account) (db : Db)
    → (db.accounts u ≡ none → Q tt db)
    → ((a : Account)
        → db.accounts u ≡ some a
        → Q tt (record db { accounts = put u (f a) db.accounts }))
    → Ensures Q (update_account u f db)
update_account_end Q u f db missing h = elim (Option-cases (db.accounts u)) [
  | inl e ↦ rw (update_account_missing u f db e) (missing e)
  | inr (a, e) ↦ elim (Bool-cases (account_checks (f a))) [
    | inl c ↦ rw (update_account_ok u f db a e c) (h a e)
    | inr c ↦ rw (update_account_err u f db a e c) tt
  ]
]
