-- ===== src/Sessions/Tokens.antt =====
-- Refresh tokens: issued, rotated, revoked. The client holds an opaque text, the table its hash.
use c_zdan.Common.{
  ℕ, ◌+◌, ◌*◌, Bool, not, ◌&&◌, ◌||◌, Option, none, some, List, [], ◌∷◌, String, str_eq, ltb, ◌==◌,
  if◌then◌else◌,
}
use c_zdan.Common.Table.{any}
use c_zdan.Schema.{User, RefreshToken, is_absent}
use c_zdan.Store.{
  Error, unique_violation, ok, err, Clock, Trx, ◌>>=◌, ◌>>◌, throw, get, throw_if, or_throw,
}

-- The hash, the length in UTF-16 units, and the lifetime of a refresh token in seconds.
pub record AuthRuntime : Type 0 where
  pub sha256_hex : String → String
  pub length : String → ℕ
  pub refresh_ttl_sec : ℕ

-- `WHERE token_hash = …`.
unfoldable pub by_hash : String → List RefreshToken → Option RefreshToken
by_hash h [] = none
by_hash h (t ∷ rows) = if str_eq t.token_hash h then some t else by_hash h rows

abbrev pub has_hash : String → RefreshToken → Bool
has_hash h t = str_eq t.token_hash h

-- Not revoked, and not past its expiry.
abbrev pub is_active_token : ℕ → RefreshToken → Bool
is_active_token now t = is_absent t.revoked_at && not (ltb t.expires_at now)

-- `findActiveRefreshTokenForUpdate`.
abbrev pub active_only : ℕ → Option RefreshToken → Option RefreshToken
active_only now none = none
active_only now (some t) = if is_active_token now t then some t else none

abbrev pub set_tokens : List RefreshToken → Trx (Unit {0})
set_tokens rows db = ok (tt, record db { refresh_tokens = rows })

abbrev pub revoke_at : ℕ → RefreshToken → RefreshToken
revoke_at now t = record t { revoked_at = some now }

unfoldable pub revoke_id : ℕ → ℕ → List RefreshToken → List RefreshToken
revoke_id now id [] = []
revoke_id now id (t ∷ rows) = (if t.id == id then revoke_at now t else t) ∷ revoke_id now id rows

-- `revokeRefreshToken`.
abbrev pub revoke_refresh_token : Clock → ℕ → Trx (Unit {0})
revoke_refresh_token clock id db =
    ok (tt, record db { refresh_tokens = revoke_id clock.now id db.refresh_tokens })

unfoldable pub revoke_rows : ℕ → ℕ → List RefreshToken → List RefreshToken
revoke_rows now u [] = []
revoke_rows now u (t ∷ rows) =
    (if t.user_id == u && is_absent t.revoked_at then revoke_at now t else t)
    ∷ revoke_rows now u rows

-- `revokeAllForUser`.
abbrev pub revoke_all_for_user : Clock → ℕ → Trx (Unit {0})
revoke_all_for_user clock u db =
    ok (tt, record db { refresh_tokens = revoke_rows clock.now u db.refresh_tokens })

abbrev pub new_token : AuthRuntime → Clock → ℕ → ℕ → String → String → RefreshToken
new_token rt clock id u opaque aal = record {
  id = id;
  user_id = u;
  token_hash = rt.sha256_hex opaque;
  aal = aal;
  expires_at = clock.now + rt.refresh_ttl_sec * 1000;
  revoked_at = none;
}

-- `issueTokens`: `opaque` is the random text, and the new hash has to be new
-- (`refresh_tokens_hash_unique`).
unfoldable pub issue_tokens : AuthRuntime → Clock → ℕ → ℕ → String → String → Trx RefreshToken
issue_tokens rt clock id u opaque aal db =
    if any (λ t. t.id == id || has_hash (rt.sha256_hex opaque) t) db.refresh_tokens
    then err unique_violation
    else ok (
      new_token rt clock id u opaque aal,
      record db { refresh_tokens = new_token rt clock id u opaque aal ∷ db.refresh_tokens },
    )

-- No active row: a known token revokes its user's family, and both throw.
abbrev pub refuse_refresh : Clock → Option RefreshToken → Trx RefreshToken
refuse_refresh clock none = throw Error.refresh_invalid
refuse_refresh clock (some t) = revoke_all_for_user clock t.user_id >> throw Error.refresh_revoked

abbrev pub user_of : (ℕ → Option User) → ℕ → Trx User
user_of users u = or_throw (users u) Error.user_disabled

-- The rotation of an active row.
unfoldable pub rotate : AuthRuntime → Clock → ℕ → String → RefreshToken → Trx RefreshToken
rotate rt clock id opaque t = do
  revoke_refresh_token clock t.id
  db ← get
  u ← user_of db.users t.user_id
  throw_if (not u.is_active) Error.user_disabled
  issue_tokens rt clock id t.user_id opaque t.aal

abbrev pub rotate_or_refuse :
    AuthRuntime → Clock → ℕ → String → Option RefreshToken → Option RefreshToken → Trx RefreshToken
rotate_or_refuse rt clock id opaque known (some t) = rotate rt clock id opaque t
rotate_or_refuse rt clock id opaque known none = refuse_refresh clock known

-- `refresh`: `id` and `opaque` are those of the token that is issued.
unfoldable pub refresh : AuthRuntime → Clock → ℕ → String → String → Trx RefreshToken
refresh rt clock id opaque presented = do
  throw_if (ltb (rt.length presented) 32) Error.refresh_invalid
  db ← get
  rotate_or_refuse rt clock id opaque (by_hash (rt.sha256_hex presented) db.refresh_tokens)
      (active_only clock.now (by_hash (rt.sha256_hex presented) db.refresh_tokens))
