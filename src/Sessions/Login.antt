-- ===== src/Sessions/Login.antt =====
-- `login` of apps/api/src/services/auth.service.ts.
use c_zdan.Common.{
  ℕ, ◌+◌, ◌*◌, Bool, false, not, ◌||◌, Option, none, some, String, leb, ltb, ◌==◌, if◌then◌else◌,
}
use c_zdan.Schema.{User, RefreshToken, is_absent}
use c_zdan.Store.{Error, Result, ok, err, Db, Clock, run_tx, Auto}
use c_zdan.Sessions.Tokens.{AuthRuntime, issue_tokens}
use c_zdan.Sessions.Passwords.{Hasher}

-- What the queries of profiles and user_roles return.
pub record LoginReads : Type 0 where
  pub is_frozen : ℕ → Bool
  pub is_staff : ℕ → Bool

-- `id` and `opaque` are those of the session that is opened; `email` is lower case and trimmed.
pub record LoginInput : Type 0 where
  pub email : String
  pub password : String
  pub id : ℕ
  pub opaque : String

abbrev pub lockout_threshold : ℕ
lockout_threshold = 10

abbrev pub lockout_window_sec : ℕ
lockout_window_sec = 15 * 60

abbrev pub is_past : ℕ → Option ℕ → Bool
is_past now none = false
is_past now (some t) = ltb now t

-- The account is locked.
abbrev pub is_locked : ℕ → User → Bool
is_locked now u = is_past now u.locked_until

abbrev pub on_user : (User → User) → Option User → Option User
on_user f none = none
on_user f (some u) = some (f u)

abbrev pub set_user : ℕ → (User → User) → Db → Db
set_user id f db = record db { users = λ v. if id == v then on_user f (db.users v) else db.users v }

-- The lock is decided on the counter that was read, the counter is raised in the row.
abbrev pub count_failure : ℕ → ℕ → User → User
count_failure now seen u = record u {
  failed_login_count = u.failed_login_count + 1;
  locked_until =
      if leb lockout_threshold (seen + 1)
      then some (now + lockout_window_sec * 1000)
      else u.locked_until;
}

abbrev clear_failures : User → User
clear_failures u = record u { failed_login_count = 0; locked_until = none }

abbrev has_failures : User → Bool
has_failures u = not (u.failed_login_count == 0) || not (is_absent u.locked_until)

abbrev with_mfa : Bool → Result RefreshToken × Db → Result (RefreshToken × Bool) × Db
with_mfa needed (ok t, db) = (ok (t, needed), db)
with_mfa needed (err e, db) = (err e, db)

-- The rest of a login whose password was right.
unfoldable pub begin_session :
    AuthRuntime → LoginReads → Clock → LoginInput → ℕ → User → Auto (RefreshToken × Bool)
begin_session rt reads clock input id u db =
    if reads.is_frozen id
    then (err Error.account_frozen, db)
    else with_mfa (reads.is_staff id) (
        run_tx (issue_tokens rt clock input.id id input.opaque "aal1")
          (if has_failures u then set_user id clear_failures db else db))

unfoldable pub check_password :
    AuthRuntime
    → Hasher
    → LoginReads
    → Clock
    → LoginInput
    → ℕ
    → Option User
    → Auto (RefreshToken × Bool)
check_password rt hasher reads clock input id none db = (err Error.bad_credentials, db)
check_password rt hasher reads clock input id (some u) db =
    if is_locked clock.now u
    then (err Error.bad_credentials, db)
    else if not u.is_active || not (hasher.verify_password input.password u.password_hash)
    then (err Error.bad_credentials, set_user id (count_failure clock.now u.failed_login_count) db)
    else begin_session rt reads clock input id u db

-- The user's row is read first and without a lock: `snapshot` is the state that the read sees.
unfoldable pub login :
    AuthRuntime → Hasher → LoginReads → Clock → Db → LoginInput → Auto (RefreshToken × Bool)
login rt hasher reads clock snapshot input db = elim (snapshot.user_ids input.email) [
  | none ↦ (err Error.bad_credentials, db)
  | some id ↦ check_password rt hasher reads clock input id (snapshot.users id) db
]
