-- ===== src/PaymentCode/Expire.antt =====
-- `expireStalePaymentCodes`.
use c_zdan.Common.{ℕ, Bool, ◌&&◌, some, List, [], ◌∷◌, map, ltb, if◌then◌else◌}
use c_zdan.Common.Table.{count, filter}
use c_zdan.Schema.{PaymentCode, CodeStatus, is_active_code}
use c_zdan.Store.{ok, Clock, Trx, ◌>>=◌, ◌>>◌, pure, get, update_account, release}

-- `status = 'active' AND expires_at < now()`.
abbrev pub is_stale : Clock → PaymentCode → Bool
is_stale clock c = is_active_code c.status && ltb c.expires_at clock.now

abbrev pub expire : Clock → PaymentCode → PaymentCode
expire clock c =
    if is_stale clock c
    then record c { status = CodeStatus.expired; cancelled_at = some clock.now }
    else c

-- The loop over the returned rows.
unfoldable pub release_all : List PaymentCode → Trx (Unit {0})
release_all [] = pure tt
release_all (c ∷ rows) = update_account c.user_id (release c.amount) >> release_all rows

abbrev pub set_codes : List PaymentCode → Trx (Unit {0})
set_codes rows db = ok (tt, record db { codes = rows })

unfoldable pub expire_stale_payment_codes : Clock → Trx ℕ
expire_stale_payment_codes clock = do
  db ← get
  let stale = filter (is_stale clock) db.codes
  set_codes (map (expire clock) db.codes)
  release_all stale
  pure (count (λ _. Bool.true) stale)
