-- ===== src/Sessions/Rotation.antt =====
-- A refresh token is rotated once; what presenting it again does.
use text.Mathlib.TextEquality.{eq_iff}
use c_zdan.Common.{
  ℕ, ◌≡◌, refl, true, false, ◌||◌, Option, none, some, List, [], ◌∷◌, String, str_eq, arith, ltb,
  ◌==◌, Bool-cases, inl, inr,
}
use c_zdan.Common.Table.{any}
use c_zdan.Schema.{RefreshToken}
use c_zdan.Store.{
  Error, ok, err, run_tx, Db, Clock, Ensures, Ensures-ok, Ensures-map, get, throw_if, ◌>>=◌,
}
use c_zdan.Store.Rules.{get_rule, throw_if_rule, or_throw_rule, step_ok}
use c_zdan.Sessions.{
  AuthRuntime, by_hash, has_hash, is_active_token, active_only, revoke_at, revoke_id, new_token,
  issue_tokens, rotate, refresh, rotate_or_refuse,
}

by_hash-revoke_id :
    (now : ℕ) (h : String) (rows : List RefreshToken) (t : RefreshToken)
    → by_hash h rows ≡ some t
    → by_hash h (revoke_id now t.id rows) ≡ some (revoke_at now t)
unfolding by_hash revoke_id
by_hash-revoke_id now h [] t e = absurd (ground arith)
by_hash-revoke_id now h (x ∷ rows) t e = ground (arith, by_hash-revoke_id now h rows t)

-- A hash that is found is not a new one.
by_hash-other :
    (h g : String) (id : ℕ) (rows : List RefreshToken) (t : RefreshToken)
    → by_hash h rows ≡ some t
    → any (λ x. x.id == id || has_hash g x) rows ≡ false
    → str_eq g h ≡ false
unfolding by_hash any
by_hash-other h g id [] t e none_has = absurd (ground arith)
by_hash-other h g id (x ∷ rows) t e none_has =
    ground
      (arith, eq_iff x.token_hash h, eq_iff x.token_hash g, eq_iff g h, by_hash-other h g id rows t)

-- Presenting a token whose row is there but revoked or expired is refused, and leaves the state as it
-- was: no other token of the user is revoked.
pub refresh_reuse_keeps :
    (rt : AuthRuntime) (clock : Clock) (id : ℕ) (opaque presented : String) (db : Db)
    (t : RefreshToken)
    → ltb (rt.length presented) 32 ≡ false
    → by_hash (rt.sha256_hex presented) db.refresh_tokens ≡ some t
    → is_active_token clock.now t ≡ false
    → run_tx (refresh rt clock id opaque presented) db ≡ (err Error.refresh_revoked, db)
unfolding refresh get throw_if ◌>>=◌
refresh_reuse_keeps rt clock id opaque presented db t long known dead = ground arith

-- What a rotation leaves.
record IsRotated (now : ℕ) (h : String) (db d : Db) : Type 0 where
  old : RefreshToken
  there : by_hash h db.refresh_tokens ≡ some old
  was_active : is_active_token now old ≡ true
  revoked : by_hash h d.refresh_tokens ≡ some (revoke_at now old)

issue_tokens_shadows :
    (rt : AuthRuntime) (clock : Clock) (id u : ℕ) (opaque aal h : String) (db : Db)
    (t : RefreshToken)
    → by_hash h db.refresh_tokens ≡ some t
    → Ensures
        (λ _ d. by_hash h d.refresh_tokens ≡ some t)
        (issue_tokens rt clock id u opaque aal db)
unfolding issue_tokens
issue_tokens_shadows rt clock id u opaque aal h db t there =
    elim (Bool-cases
      (any (λ x. x.id == id || has_hash (rt.sha256_hex opaque) x) db.refresh_tokens)) [
        | inl taken ↦ rw (taken, Ensures) tt
        | inr free ↦
            rw (free, Ensures)
              (shadowed (by_hash-other h (rt.sha256_hex opaque) id db.refresh_tokens t there free))
      ]
  where
    shadowed :
        str_eq (rt.sha256_hex opaque) h ≡ false
        → by_hash h (new_token rt clock id u opaque aal ∷ db.refresh_tokens) ≡ some t
    shadowed differs = unfold by_hash in rw differs there

rotate_revokes :
    (rt : AuthRuntime) (clock : Clock) (id : ℕ) (opaque h : String) (t : RefreshToken) (db : Db)
    → by_hash h db.refresh_tokens ≡ some t
    → Ensures
        (λ _ d. by_hash h d.refresh_tokens ≡ some (revoke_at clock.now t))
        (rotate rt clock id opaque t db)
unfolding rotate
rotate_revokes rt clock id opaque h t db there = step_ok _ _ _ _ _ _ refl (
    get_rule _ _ _ (
      or_throw_rule _ _ _ _ _ λ u _. throw_if_rule _ _ _ _ _ λ _.
        issue_tokens_shadows rt clock id t.user_id opaque t.aal h _ (revoke_at clock.now t)
          (by_hash-revoke_id clock.now h db.refresh_tokens t there)))

rotate_or_refuse-IsRotated :
    (rt : AuthRuntime) (clock : Clock) (id : ℕ) (opaque h : String) (db : Db)
    (found : Option RefreshToken)
    → by_hash h db.refresh_tokens ≡ found
    → Ensures
        (λ _ d. IsRotated clock.now h db d)
        (rotate_or_refuse rt clock id opaque found (active_only clock.now found) db)
unfolding ◌>>=◌
rotate_or_refuse-IsRotated rt clock id opaque h db none there = tt
rotate_or_refuse-IsRotated rt clock id opaque h db (some t) there =
    elim (Bool-cases (is_active_token clock.now t)) [
      | inl alive ↦
          rw (alive, Ensures)
            (Ensures-map _ _ (rotate rt clock id opaque t db)
              (λ _ d revoked. record {
                old = t;
                there = there;
                was_active = alive;
                revoked = revoked;
              })
              (rotate_revokes rt clock id opaque h t db there))
      | inr dead ↦ rw (dead, Ensures) tt
    ]

refresh-IsRotated :
    (rt : AuthRuntime) (clock : Clock) (id : ℕ) (opaque presented : String) (db : Db)
    → Ensures
        (λ _ d.
          (ltb (rt.length presented) 32 ≡ false)
          × IsRotated clock.now (rt.sha256_hex presented) db d)
        (refresh rt clock id opaque presented db)
unfolding refresh
refresh-IsRotated rt clock id opaque presented db = throw_if_rule _ _ _ _ db λ long.
    get_rule _ _ db (
      Ensures-map _ _
        (rotate_or_refuse rt clock id opaque (by_hash (rt.sha256_hex presented) db.refresh_tokens)
          (active_only clock.now (by_hash (rt.sha256_hex presented) db.refresh_tokens)) db)
        (λ _ d r. (long, r))
        (rotate_or_refuse-IsRotated rt clock id opaque (rt.sha256_hex presented) db _ refl))

-- A refresh that succeeds was given a token whose row was there, not revoked and not past its
-- expiry; and presenting that token again, at any time and in the state that the refresh left, is
-- refused as revoked and changes nothing.
pub refresh_once :
    (rt : AuthRuntime) (clock : Clock) (id : ℕ) (opaque presented : String) (db : Db)
    (issued : RefreshToken) (d : Db) (clock' : Clock) (id' : ℕ) (opaque' : String)
    → refresh rt clock id opaque presented db ≡ ok (issued, d)
    → ((t : RefreshToken) × ((by_hash (rt.sha256_hex presented) db.refresh_tokens ≡ some t)
          × (is_active_token clock.now t ≡ true)))
      × (run_tx (refresh rt clock' id' opaque' presented) d ≡ (err Error.refresh_revoked, d))
refresh_once rt clock id opaque presented db issued d clock' id' opaque' e =
    let (long, r) = Ensures-ok _ _ (refresh-IsRotated rt clock id opaque presented db) e in
    (
      (r.old, (r.there, r.was_active)),
      refresh_reuse_keeps rt clock' id' opaque' presented d (revoke_at clock.now r.old) long
          r.revoked refl,
    )
