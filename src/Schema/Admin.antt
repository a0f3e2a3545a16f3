-- ===== src/Schema/Admin.antt =====
-- `admin_idempotency` of apps/api/src/db/schema: the cached results of operators' money operations.
use c_zdan.Common.{ℕ, Bool, ◌&&◌, Option, String, str_eq, ◌==◌}

-- `result`: the transaction of an adjustment, nothing for the other operations, whose log rows have
-- no id here.
pub record AdminResult : Type 0 where
  pub transaction_id : Option ℕ

pub record AdminIdempotencyRow : Type 0 where
  pub actor_id : ℕ
  pub action : String
  pub key : String
  pub result : AdminResult

-- `admin_idempotency_actor_action_key_unique`.
abbrev pub is_keyed : ℕ → String → String → AdminIdempotencyRow → Bool
is_keyed actor action key r = r.actor_id == actor && (str_eq r.action action && str_eq r.key key)
