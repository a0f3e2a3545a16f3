-- ===== src/Admin/Once.antt =====
-- A submission with a key that was answered is answered again and not run; what that needs of the
-- lookup.
use c_zdan.Common.{
  ℕ, ◌≡◌, refl, sym, ap, ◌∙◌, true, false, none, some, List, [], ◌∷◌, String, arith, inl, inr,
  Option-cases,
}
use text.Mathlib.TextPositions.{eq_refl}
use c_zdan.Common.Table.{any}
use c_zdan.Schema.{AdminResult, AdminIdempotencyRow, is_keyed}
use c_zdan.Store.{ok, Db, Trx, Ensures}
use c_zdan.Store.Rules.{bind_rule, step_ok}
use c_zdan.Admin.{AdminIdempotencyOpts, given_key, stored_result, remember, with_admin_idempotency}

any-stored :
    (actor : ℕ) (action key : String) (rows : List AdminIdempotencyRow)
    → stored_result actor action key rows ≡ none
    → any (is_keyed actor action key) rows ≡ false
unfolding stored_result any
any-stored actor action key [] h = refl
any-stored actor action key (r ∷ rows) h = ground (arith, any-stored actor action key rows)

-- What is remembered for a new key is found.
remember_stores :
    (actor : ℕ) (action key : String) (r : AdminResult) (db d : Db)
    → stored_result actor action key db.admin_idempotency ≡ none
    → remember actor action key r db ≡ ok (tt, d)
    → stored_result actor action key d.admin_idempotency ≡ some r
unfolding stored_result remember
remember_stores actor action key r db d new e =
    ground (arith, any-stored actor action key db.admin_idempotency, eq_refl action, eq_refl key)

module _ (opts : AdminIdempotencyOpts) (k : String) (given : given_key opts.key ≡ some k) where
  -- The stored answer is given, and nothing is run.
  pub with_admin_idempotency_replay :
      (looked : Db) (fn : Trx AdminResult) (r : AdminResult) (db : Db)
      → stored_result opts.actor_id opts.action k looked.admin_idempotency ≡ some r
      → with_admin_idempotency looked opts fn db ≡ ok (record { result = r; idempotent = true }, db)
  unfolding with_admin_idempotency
  with_admin_idempotency_replay looked fn r db e = rw (given, e) refl

  -- With a lookup that is not stale, the answer is stored, if the operation leaves the table alone.
  pub with_admin_idempotency_stores :
      (looked : Db) (fn : Trx AdminResult) (db : Db)
      → looked.admin_idempotency ≡ db.admin_idempotency
      → Ensures (λ _ d. d.admin_idempotency ≡ db.admin_idempotency) (fn db)
      → Ensures
          (λ o d. stored_result opts.actor_id opts.action k d.admin_idempotency ≡ some o.result)
          (with_admin_idempotency looked opts fn db)
  unfolding with_admin_idempotency remember
  with_admin_idempotency_stores looked fn db fresh quiet =
      elim (Option-cases (stored_result opts.actor_id opts.action k looked.admin_idempotency)) [
        | inl e ↦
            rw (given, e)
              (bind_rule _ _ fn _ db quiet λ r d same. step_ok _ _ _ _ _ _ refl (
                remember_stores _ _ _ r d _ (ap (stored_result _ _ k) (same ∙ sym fresh) ∙ e) refl))
        | inr (r, e) ↦ rw (given, e) (ap (stored_result _ _ k) (sym fresh) ∙ e)
      ]

  -- With a lookup that misses the key, the operation is run whatever is stored by then.
  pub with_admin_idempotency_runs :
      (Q : Db → Type 0) (looked : Db) (fn : Trx AdminResult) (db : Db)
      → stored_result opts.actor_id opts.action k looked.admin_idempotency ≡ none
      → ((d : Db) (rows : List AdminIdempotencyRow)
          → Q d
          → Q (record d { admin_idempotency = rows }))
      → Ensures (λ _ d. Q d) (fn db)
      → Ensures (λ _ d. Q d) (with_admin_idempotency looked opts fn db)
  unfolding with_admin_idempotency remember
  with_admin_idempotency_runs Q looked fn db miss blind h =
      rw (given, miss) (bind_rule _ _ fn _ db h λ r d q. step_ok _ _ _ _ _ _ refl (blind d _ q))

-- What the operation keeps, the helper keeps, where the table is not spoken of.
pub with_admin_idempotency_keeps :
    (Q : Db → Type 0) (looked : Db) (opts : AdminIdempotencyOpts) (fn : Trx AdminResult) (db : Db)
    → ((d : Db) (rows : List AdminIdempotencyRow) → Q d → Q (record d { admin_idempotency = rows }))
    → Q db
    → Ensures (λ _ d. Q d) (fn db)
    → Ensures (λ _ d. Q d) (with_admin_idempotency looked opts fn db)
unfolding with_admin_idempotency
with_admin_idempotency_keeps Q looked opts fn db blind q h =
    elim (Option-cases (given_key opts.key)) [
      | inl e ↦ rw e (bind_rule _ _ fn _ db h λ r d p. p)
      | inr (k, e) ↦
          elim (Option-cases (stored_result opts.actor_id opts.action k looked.admin_idempotency)) [
            | inl miss ↦ with_admin_idempotency_runs opts k e Q looked fn db miss blind h
            | inr (r, hit) ↦ rw (e, hit) q
          ]
    ]
