-- ===== src/Admin/Idempotency.antt =====
-- apps/api/src/services/admin/idempotency.ts: `withAdminIdempotency`.
use c_zdan.Common.{
  ℕ, Bool, true, false, Option, none, some, List, [], ◌∷◌, String, str_eq, if◌then◌else◌,
}
use c_zdan.Common.Table.{any}
use c_zdan.Schema.{AdminResult, AdminIdempotencyRow, is_keyed}
use c_zdan.Store.{ok, Db, Trx, ◌>>=◌, ◌>>◌, pure}

pub record AdminIdempotencyOpts : Type 0 where
  pub actor_id : ℕ
  pub action : String
  pub key : Option String

-- `T & { idempotent?: boolean }`.
pub record AdminOutcome : Type 0 where
  pub result : AdminResult
  pub idempotent : Bool

-- `!opts.key`: an empty key is none.
unfoldable pub given_key : Option String → Option String
given_key none = none
given_key (some k) = if str_eq k "" then none else some k

unfoldable pub stored_result : ℕ → String → String → List AdminIdempotencyRow → Option AdminResult
stored_result actor action key [] = none
stored_result actor action key (r ∷ rows) =
    let rest = stored_result actor action key rows in
    if is_keyed actor action key r then some r.result else rest

-- INSERT … ON CONFLICT DO NOTHING.
unfoldable pub remember : ℕ → String → String → AdminResult → Trx (Unit {0})
remember actor action key result db = ok (
  tt,
  record db {
    admin_idempotency =
        if any (is_keyed actor action key) db.admin_idempotency
        then db.admin_idempotency
        else (record { actor_id = actor; action = action; key = key; result = result })
          ∷ db.admin_idempotency;
  },
)

-- What follows the lookup: the stored answer, or the operation and its own answer, stored.
abbrev pub run_unless :
    AdminIdempotencyOpts → String → Trx AdminResult → Option AdminResult → Trx AdminOutcome
run_unless opts k fn (some r) = pure (record { result = r; idempotent = true })
run_unless opts k fn none = do
  r ← fn
  remember opts.actor_id opts.action k r
  pure (record { result = r; idempotent = false })

abbrev pub run_under :
    Db → AdminIdempotencyOpts → Trx AdminResult → Option String → Trx AdminOutcome
run_under looked opts fn none = do r ← fn; pure (record { result = r; idempotent = false })
run_under looked opts fn (some k) =
    run_unless opts k fn (stored_result opts.actor_id opts.action k looked.admin_idempotency)

-- The lookup takes no lock: `looked` is the state that it reads.
unfoldable pub with_admin_idempotency :
    Db → AdminIdempotencyOpts → Trx AdminResult → Trx AdminOutcome
with_admin_idempotency looked opts fn = run_under looked opts fn (given_key opts.key)
