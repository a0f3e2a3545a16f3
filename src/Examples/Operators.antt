-- ===== src/Examples/Operators.antt =====
-- An operator corrects a balance and a pool on the example, and the theorems about that applied.
use c_zdan.Common.{◌≡◌, refl, true, none, some, arith}
use c_zdan.Common.Int.{pos, negsuc, ◌+ℤ◌, ◌-ℤ◌}
use c_zdan.Common.Table.{any}
use c_zdan.Schema.{MerchantType, merchant_checks}
use c_zdan.Store.{
  is_ok, Db, ok, get, throw_if, or_throw, ◌>>=◌, update_account, update_merchant,
  insert_transaction, transaction_fits, alloc_public_no,
}
use c_zdan.Ledger.{balance_of, PoolIsLogged}
use c_zdan.Admin.{
  AdminOutcome, AdjustBalance, adjust_balance, adjust_balance_inner, MerchantChange,
  adjust_cash_pool, adjust_pool, with_admin_idempotency, given_key, stored_result, remember,
}
use c_zdan.Admin.Submitted.{adjust_balance_once, adjust_balance_races}
use c_zdan.Admin.Races.{adjust_cash_pool_loses}
use c_zdan.Examples.Books.{noon, midnight, books, books-IsConsistent, locale, merchant}
use c_zdan.Examples.Runs.{committed}

abbrev correction : AdjustBalance
correction = record {
  actor_id = 9;
  user_id = 2;
  amount = negsuc 1499;
  reason = "chargeback";
  idempotency_key = some "k1";
}

first_commits : is_ok (adjust_balance locale noon 40 books correction books) ≡ true
unfolding adjust_balance adjust_balance_inner with_admin_idempotency given_key stored_result
    remember any get throw_if or_throw ◌>>=◌ update_account insert_transaction transaction_fits
    alloc_public_no ◌+ℤ◌ ◌-ℤ◌
first_commits = refl

abbrev first :
    (o : AdminOutcome) × ((d : Db) × (adjust_balance locale noon 40 books correction books
        ≡ ok (o, d)))
first = committed (adjust_balance locale noon 40 books correction books) first_commits

adjust_balance_once_example :
    adjust_balance locale midnight 41 first.1.0
      (record correction { user_id = 1; amount = pos 700 })
      books
    ≡ ok (record { result = first.0.result; idempotent = true }, books)
unfolding given_key
adjust_balance_once_example =
    adjust_balance_once locale noon 40 books correction books "k1" first.0 first.1.0 refl refl
      first.1.1 locale midnight 41 first.1.0 (record correction { user_id = 1; amount = pos 700 })
      books refl refl refl refl refl

second_commits : is_ok (adjust_balance locale noon 41 books correction first.1.0) ≡ true
unfolding committed adjust_balance adjust_balance_inner with_admin_idempotency given_key
    stored_result remember any get throw_if or_throw ◌>>=◌ update_account insert_transaction
    transaction_fits alloc_public_no ◌+ℤ◌ ◌-ℤ◌
second_commits = refl

abbrev second :
    (o : AdminOutcome) × ((d : Db) × (adjust_balance locale noon 41 books correction first.1.0
        ≡ ok (o, d)))
second = committed (adjust_balance locale noon 41 books correction first.1.0) second_commits

adjust_balance_races_example :
    balance_of second.1.0 2 ≡ balance_of books 2 +ℤ negsuc 1499 +ℤ negsuc 1499
unfolding given_key stored_result
adjust_balance_races_example =
    adjust_balance_races locale noon noon 40 41 books correction books "k1" first.0 second.0
      first.1.0 second.1.0 refl refl first.1.1 second.1.1

-- Before the pool was topped up to what it is.
abbrev earlier : Db
earlier = record books {
  merchants = λ m. some (merchant MerchantType.finance (pos 100000) (pos 0));
}

abbrev collection : MerchantChange
collection = record {
  actor_id = 9;
  merchant_id = 10;
  amount = negsuc 49999;
  reason = "collected";
  idempotency_key = none;
}

collection_commits : is_ok (adjust_cash_pool locale noon books earlier collection books) ≡ true
unfolding adjust_cash_pool adjust_pool with_admin_idempotency given_key throw_if or_throw ◌>>=◌
    update_merchant merchant_checks ◌+ℤ◌ ◌-ℤ◌
collection_commits = refl

abbrev collected :
    (o : AdminOutcome) × ((d : Db) × (adjust_cash_pool locale noon books earlier collection books
        ≡ ok (o, d)))
collected =
    committed (adjust_cash_pool locale noon books earlier collection books) collection_commits

adjust_cash_pool_loses_example : ¬ (PoolIsLogged collected.1.0)
unfolding given_key
adjust_cash_pool_loses_example =
    adjust_cash_pool_loses locale noon books earlier collection books
      (merchant MerchantType.finance (pos 100000) (pos 0))
      (merchant MerchantType.finance (pos 145100) (pos 0)) collected.0 collected.1.0 refl refl refl
      (ground arith) books-IsConsistent.pooled collected.1.1
