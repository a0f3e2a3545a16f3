-- ===== src/Sessions/Passwords.antt =====
-- `confirmPasswordReset`, `changePassword` and `logout` of apps/api/src/services/auth.service.ts.
use c_zdan.Common.{
  ℕ, Bool, true, false, not, ◌&&◌, Option, none, some, List, [], ◌∷◌, String, str_eq, ltb, ◌==◌,
  if◌then◌else◌,
}
use c_zdan.Common.Table.{modify}
use c_zdan.Schema.{User, RefreshToken, ResetToken, reset_id, is_absent}
use c_zdan.Store.{Error, ok, Db, Clock, Trx, ◌>>=◌, ◌>>◌, get, throw_if, or_throw}
use c_zdan.Sessions.Tokens.{AuthRuntime, revoke_at, revoke_all_for_user, set_tokens}

-- The library of password hashes.
pub record Hasher : Type 0 where
  pub hash_password : String → String
  pub verify_password : String → String → Bool

unfoldable pub reset_by_hash : String → List ResetToken → Option ResetToken
reset_by_hash h [] = none
reset_by_hash h (t ∷ rows) = if str_eq t.token_hash h then some t else reset_by_hash h rows

abbrev set_password : String → Option User → Option User
set_password h none = none
set_password h (some u) = some (record u { password_hash = h })

-- UPDATE users SET password_hash = … WHERE id = u.
abbrev pub update_password : ℕ → String → Trx (Unit {0})
update_password u h db =
    ok (tt, record db { users = λ v. if u == v then set_password h (db.users v) else db.users v })

abbrev pub consume_reset : Clock → ℕ → Trx (Unit {0})
consume_reset clock id db = ok (
  tt,
  record db {
    reset_tokens =
        modify reset_id id (λ t. record t { consumed_at = some clock.now }) db.reset_tokens;
  },
)

-- UPDATE refresh_tokens SET revoked_at = … WHERE user_id = u, revoked ones too.
unfoldable pub revoke_every : ℕ → ℕ → List RefreshToken → List RefreshToken
revoke_every now u [] = []
revoke_every now u (t ∷ rows) =
    (if t.user_id == u then revoke_at now t else t) ∷ revoke_every now u rows

-- The token is read before the transaction: `snapshot` is the state that the read sees.
unfoldable pub confirm_password_reset :
    AuthRuntime → Hasher → Clock → Db → String → String → Trx (Unit {0})
confirm_password_reset rt hasher clock snapshot token password = do
  t ← or_throw (reset_by_hash (rt.sha256_hex token) snapshot.reset_tokens) Error.token_invalid
  throw_if (not (is_absent t.consumed_at)) Error.token_invalid
  throw_if (ltb t.expires_at clock.now) Error.token_invalid
  consume_reset clock t.id
  update_password t.user_id (hasher.hash_password password)
  db ← get
  set_tokens (revoke_every clock.now t.user_id db.refresh_tokens)

-- Three statements, each of which commits.
unfoldable pub change_password : Hasher → Clock → ℕ → String → String → Trx (Unit {0})
change_password hasher clock u current password = do
  db ← get
  user ← or_throw (db.users u) Error.not_found
  throw_if (not (hasher.verify_password current user.password_hash)) Error.bad_current_password
  update_password u (hasher.hash_password password)
  revoke_all_for_user clock u

unfoldable pub revoke_presented : ℕ → ℕ → String → List RefreshToken → List RefreshToken
revoke_presented now u h [] = []
revoke_presented now u h (t ∷ rows) =
    (if str_eq t.token_hash h && t.user_id == u then revoke_at now t else t)
    ∷ revoke_presented now u h rows

unfoldable pub logout : AuthRuntime → Clock → ℕ → Option String → Bool → Trx (Unit {0})
logout rt clock u presented true db = revoke_all_for_user clock u db
logout rt clock u none false db = ok (tt, db)
logout rt clock u (some p) false db =
    if str_eq p ""
    then ok (tt, db)
    else ok (
      tt,
      record db {
        refresh_tokens = revoke_presented clock.now u (rt.sha256_hex p) db.refresh_tokens;
      },
    )
