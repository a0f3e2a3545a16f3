-- ===== src/PaymentCode/Cleared.antt =====
-- The expiry of stale codes always comes to an end, with no stale code left.
use c_zdan.Common.{
  ℕ, ◌≡◌, refl, ap, ◌∙◌, true, false, Option, none, some, List, [], ◌∷◌, map, arith, ◌==◌,
  Option-cases, Bool-cases, inl, inr,
}
use c_zdan.Common.Table.{put, any, count, filter}
use c_zdan.Schema.{Account, account_checks, PaymentCode}
use c_zdan.Store.{ok, Db, Clock, release, update_account, get, ◌>>=◌}
use c_zdan.Ledger.{CodesNonneg}
use c_zdan.PaymentCode.Expire.{is_stale, expire, release_all, expire_stale_payment_codes}
use c_zdan.PaymentCode.Expired.{stale-nonneg}
use c_zdan.PaymentCode.Total.{release_holds}

-- Every account satisfies its checks, as it does in a table with those constraints.
abbrev pub AccountsHold : (ℕ → Option Account) → Type 0
AccountsHold accounts = (u : ℕ) (a : Account) → accounts u ≡ some a → account_checks a ≡ true

any-expire_stale :
    (clock : Clock) (rows : List PaymentCode)
    → any (is_stale clock) (map (expire clock) rows) ≡ false
unfolding any
any-expire_stale clock [] = refl
any-expire_stale clock (c ∷ rows) = ground (arith, any-expire_stale clock rows)

put-holds :
    (v : ℕ) (b : Account) (u : ℕ) (a : Account) (accounts : ℕ → Option Account)
    → account_checks a ≡ true
    → (accounts v ≡ some b → account_checks b ≡ true)
    → put u a accounts v ≡ some b
    → account_checks b ≡ true
put-holds v b u a accounts checks before e = elim (Bool-cases (u == v)) [
  | inl same ↦
      let eq : some a ≡ some b = rw same at e in let found : a ≡ b = cc in rw⁻¹ found checks
  | inr other ↦ before (rw other at e)
]

release_none_first :
    (c : PaymentCode) (rows : List PaymentCode) (db : Db)
    → db.accounts c.user_id ≡ none
    → release_all (c ∷ rows) db ≡ release_all rows db
unfolding release_all ◌>>=◌ update_account
release_none_first c rows db e = ground (arith, e)

release_first :
    (c : PaymentCode) (rows : List PaymentCode) (db : Db) (a : Account)
    → db.accounts c.user_id ≡ some a
    → account_checks (release c.amount a) ≡ true
    → release_all (c ∷ rows) db
      ≡ release_all rows (record db { accounts = put c.user_id (release c.amount a) db.accounts })
unfolding release_all ◌>>=◌ update_account
release_first c rows db a e checks = ground (arith, e, checks)

-- The releases succeed one after the other.
release_all_total :
    (rows : List PaymentCode) (db : Db)
    → AccountsHold db.accounts
    → CodesNonneg rows
    → (accounts : ℕ → Option Account) × (release_all rows db
        ≡ ok (tt, record db { accounts = accounts }))
unfolding release_all
release_all_total [] db holds nonneg = (db.accounts, refl)
release_all_total (c ∷ rows) db holds nonneg = elim (Option-cases (db.accounts c.user_id)) [
  | inl e ↦
      let (accounts, h) = release_all_total rows db holds nonneg.1 in
      (accounts, release_none_first c rows db e ∙ h)
  | inr (a, e) ↦
      let checks = release_holds c.amount a (holds c.user_id a e) nonneg.0 in
      let (accounts, h) =
        release_all_total rows
          (record db { accounts = put c.user_id (release c.amount a) db.accounts })
          (λ v b eb. put-holds v b c.user_id (release c.amount a) db.accounts checks (holds v b) eb)
          nonneg.1 in
      (accounts, release_first c rows db a e checks ∙ h)
]

count-filter :
    (clock : Clock) (rows : List PaymentCode)
    → count (λ _. true) (filter (is_stale clock) rows) ≡ count (is_stale clock) rows
unfolding count filter
count-filter clock [] = refl
count-filter clock (c ∷ rows) = ground (arith, count-filter clock rows)

expire_after_releases :
    (clock : Clock) (db d : Db)
    → release_all
        (filter (is_stale clock) db.codes)
        (record db { codes = map (expire clock) db.codes })
      ≡ ok (tt, d)
    → expire_stale_payment_codes clock db
      ≡ ok (count (λ _. true) (filter (is_stale clock) db.codes), d)
unfolding expire_stale_payment_codes get ◌>>=◌
expire_after_releases clock db d h = ground (arith, h)

-- Where every account satisfies its checks and no amount of a code is negative, the expiry succeeds,
-- reports the number of active codes past their expiry, and leaves none.
pub expire_stale_payment_codes_clears :
    (clock : Clock) (db : Db)
    → AccountsHold db.accounts
    → CodesNonneg db.codes
    → (d : Db) × ((expire_stale_payment_codes clock db ≡ ok (count (is_stale clock) db.codes, d))
        × (any (is_stale clock) d.codes ≡ false))
expire_stale_payment_codes_clears clock db holds nonneg =
    let start : Db = record db { codes = map (expire clock) db.codes } in
    let (accounts, h) =
      release_all_total (filter (is_stale clock) db.codes) start holds
        (stale-nonneg clock db.codes nonneg) in
    (
      record start { accounts = accounts },
      (
        expire_after_releases clock db _ h
            ∙ ap (λ n. ok (n, record start { accounts = accounts })) (count-filter clock db.codes),
        any-expire_stale clock db.codes,
      ),
    )
