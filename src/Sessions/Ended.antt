-- ===== src/Sessions/Ended.antt =====
-- A new password ends every session of its user.
use c_zdan.Common.{
  ℕ, ◌≡◌, refl, sym, subst, ◌∙◌, Bool, false, ◌&&◌, Option, none, some, List, [], ◌∷◌, String,
  arith, ◌==◌,
}
use c_zdan.Common.Table.{any}
use c_zdan.Schema.{User, RefreshToken, ResetToken, is_absent}
use c_zdan.Store.{Db, Clock, Ensures}
use c_zdan.Store.Rules.{get_rule, throw_if_rule, or_throw_rule, step_ok}
use c_zdan.Sessions.{
  AuthRuntime, Hasher, revoke_rows, revoke_every, reset_by_hash, confirm_password_reset,
  change_password,
}

-- A session of the user that can still be refreshed.
abbrev pub is_live_for : ℕ → RefreshToken → Bool
is_live_for u t = t.user_id == u && is_absent t.revoked_at

any-revoke_every :
    (now u : ℕ) (rows : List RefreshToken) → any (is_live_for u) (revoke_every now u rows) ≡ false
unfolding any revoke_every
any-revoke_every now u [] = refl
any-revoke_every now u (t ∷ rows) = ground (arith, any-revoke_every now u rows)

pub any-revoke_rows :
    (now u : ℕ) (rows : List RefreshToken) → any (is_live_for u) (revoke_rows now u rows) ≡ false
unfolding any revoke_rows
any-revoke_rows now u [] = refl
any-revoke_rows now u (t ∷ rows) = ground (arith, any-revoke_rows now u rows)

-- The password of the user, if there is such a user.
abbrev pub password_of : Option User → Option String
password_of none = none
password_of (some u) = some u.password_hash

abbrev pub new_password : String → Option User → Option String
new_password h none = none
new_password h (some u) = some h

-- A password reset that succeeds leaves its user with the new password, and with no session that can
-- still be refreshed; the user is that of the token's row.
pub confirm_password_reset_ends :
    (rt : AuthRuntime) (hasher : Hasher) (clock : Clock) (snapshot : Db) (token password : String)
    (db : Db) (t : ResetToken)
    → reset_by_hash (rt.sha256_hex token) snapshot.reset_tokens ≡ some t
    → Ensures
        (λ _ d.
          (any (is_live_for t.user_id) d.refresh_tokens ≡ false)
          × (password_of (d.users t.user_id)
              ≡ new_password (hasher.hash_password password) (db.users t.user_id)))
        (confirm_password_reset rt hasher clock snapshot token password db)
unfolding confirm_password_reset
confirm_password_reset_ends rt hasher clock snapshot token password db t known =
    or_throw_rule _ _ _ _ db λ r found. throw_if_rule _ _ _ _ db λ _. throw_if_rule _ _ _ _ db λ _.
      step_ok _ _ _ _ _ _ refl
        (step_ok _ _ _ _ _ _ refl (get_rule _ _ _ (ended r found, ground (arith, found, known))))
  where
    ended :
        (r : ResetToken)
        → reset_by_hash (rt.sha256_hex token) snapshot.reset_tokens ≡ some r
        → any (is_live_for t.user_id) (revoke_every clock.now r.user_id db.refresh_tokens) ≡ false
    ended r found =
        let e : some r ≡ some t = sym found ∙ known in
        let same : r ≡ t = cc in
        subst
          (λ x.
            any (is_live_for x.user_id) (revoke_every clock.now r.user_id db.refresh_tokens)
            ≡ false)
          same (any-revoke_every clock.now r.user_id db.refresh_tokens)

-- A changed password leaves no session of its user either.
pub change_password_ends :
    (hasher : Hasher) (clock : Clock) (u : ℕ) (current password : String) (db : Db)
    → Ensures
        (λ _ d. any (is_live_for u) d.refresh_tokens ≡ false)
        (change_password hasher clock u current password db)
unfolding change_password
change_password_ends hasher clock u current password db = get_rule _ _ db (
    or_throw_rule _ _ _ _ db λ user _.
      throw_if_rule _ _ _ _ db
        λ _. step_ok _ _ _ _ _ _ refl (any-revoke_rows clock.now u db.refresh_tokens))
