-- ===== src/Sessions/Codes.antt =====
-- A TOTP code is accepted once by requests that follow each other, and more than once by requests that
-- overlap; a backup code is used up by one request.
use c_zdan.Common.{
  ℕ, ◌≡◌, refl, sym, ap, ◌∙◌, true, false, ◌||◌, Option, none, some, List, [], ◌∷◌, String, arith,
  ltb, leb, ◌==◌, if◌then◌else◌, Bool-cases, Option-cases, inl, inr,
}
use c_zdan.Common.Int.{ℤ, leb_ℤ}
use c_zdan.Common.Table.{any, filter}
use c_zdan.Schema.{RefreshToken, MfaFactor, BackupCode}
use c_zdan.Store.{Error, Result, ok, err, Db, Clock, run_tx, is_ok}
use c_zdan.Sessions.{
  AuthRuntime, has_hash, issue_tokens, MfaRuntime, now_step, verify_totp_code_with_step,
  is_verified_of, is_used_up, match_factor, use_step, set_factor, is_unused_code, consume_rows,
  normalise_backup_code, consume_mfa_backup_code, pass_totp, challenge, mfa_challenge,
}

filter-set_factor :
    (now u id : ℕ) (s : ℤ) (factors : List MfaFactor)
    → filter (is_verified_of u) (set_factor id (use_step now s) factors)
      ≡ set_factor id (use_step now s) (filter (is_verified_of u) factors)
unfolding filter set_factor
filter-set_factor now u id s [] = refl
filter-set_factor now u id s (f ∷ factors) = ground (arith, filter-set_factor now u id s factors)

leb_ℤ_self : (s : ℤ) → leb_ℤ s s ≡ true
leb_ℤ_self s = ground arith

-- Once the step that a code matched is recorded, the same code in the same step is refused.
match_factor-set_factor :
    (rt : MfaRuntime) (n s : ℤ) (code : String) (now id : ℕ) (factors : List MfaFactor)
    → match_factor rt n code factors ≡ ok (some (id, s))
    → match_factor rt n code (set_factor id (use_step now s) factors) ≡ err Error.code_reused
unfolding match_factor set_factor
match_factor-set_factor rt n s code now id [] e = absurd (ground arith)
match_factor-set_factor rt n s code now id (f ∷ factors) e =
    elim (Option-cases (verify_totp_code_with_step rt n code (rt.decode f.secret_encrypted))) [
      | inl miss ↦
          let later : match_factor rt n code factors ≡ ok (some (id, s)) =
            rw (match_factor, miss) at e in
          elim (Bool-cases (f.id == id)) [
            | inl same ↦
                rw (same, match_factor, miss)
                  (match_factor-set_factor rt n s code now id factors later)
            | inr other ↦
                rw (other, match_factor, miss)
                  (match_factor-set_factor rt n s code now id factors later)
          ]
      | inr (found, hit) ↦
          let here : if◌then◌else◌ (is_used_up found f.last_used_step) (err Error.code_reused)
                (ok (some (f.id, found)))
              ≡ ok (some (id, s)) =
            rw (match_factor, hit) at e in
          elim (Bool-cases (is_used_up found f.last_used_step)) [
            | inl used ↦ absurd (ground (arith, used, here))
            | inr free ↦
                let taken : Result.ok (Option.some (f.id, found)) ≡ ok (some (id, s)) =
                  rw free at here in
                let found_s : found ≡ s = cc in
                let f_id : f.id ≡ id = cc in
                let same : (f.id == id) ≡ true = ground arith in
                rw (match_factor, same, hit, same, found_s, leb_ℤ_self s) refl
          ]
    ]

module _ (rt : AuthRuntime) (mfa : MfaRuntime) (clock : Clock) (id : ℕ) (opaque : String) (u : ℕ)
    (code : String) where
  -- A challenge that can be no backup code, by what the loop over the factors found.
  challenge_refused :
      (factors : List MfaFactor) (db : Db) (e : Error)
      → leb 9 (rt.length (mfa.strip code)) ≡ false
      → match_factor mfa (now_step clock) code factors ≡ err e
      → challenge rt mfa clock id opaque u code factors db ≡ (err e, db)
  unfolding challenge match_factor
  challenge_refused [] db e short h = absurd (ground (arith, h))
  challenge_refused (f ∷ factors) db e short h =
      rw (challenge, short) (ap (λ r. pass_totp rt clock id opaque u r db) h)

  challenge_matched :
      (factors : List MfaFactor) (db : Db) (m : ℕ × ℤ)
      → leb 9 (rt.length (mfa.strip code)) ≡ false
      → match_factor mfa (now_step clock) code factors ≡ ok (some m)
      → challenge rt mfa clock id opaque u code factors db
        ≡ pass_totp rt clock id opaque u (ok (some m)) db
  unfolding challenge match_factor
  challenge_matched [] db m short h = absurd (ground (arith, h))
  challenge_matched (f ∷ factors) db m short h =
      rw (challenge, short) (ap (λ r. pass_totp rt clock id opaque u r db) h)

  pass_totp-matched :
      (r : Result (Option (ℕ × ℤ))) (db : Db) (t : RefreshToken) (d : Db)
      → pass_totp rt clock id opaque u r db ≡ (ok t, d)
      → (m : ℕ × ℤ) × (r ≡ ok (some m))
  pass_totp-matched (err e) db t d h = absurd (ground (arith, h))
  pass_totp-matched (ok none) db t d h = absurd (ground (arith, h))
  pass_totp-matched (ok (some m)) db t d h = (m, refl)

  challenge-matched :
      (factors : List MfaFactor) (db : Db) (t : RefreshToken) (d : Db)
      → leb 9 (rt.length (mfa.strip code)) ≡ false
      → challenge rt mfa clock id opaque u code factors db ≡ (ok t, d)
      → (m : ℕ × ℤ) × (match_factor mfa (now_step clock) code factors ≡ ok (some m))
  unfolding challenge
  challenge-matched [] db t d short h = absurd (ground (arith, h))
  challenge-matched (f ∷ factors) db t d short h =
      pass_totp-matched _ db t d (rw (challenge, short) at h)

issue_tokens_keeps :
    (rt : AuthRuntime) (clock : Clock) (id u : ℕ) (opaque aal : String) (db : Db) (t : RefreshToken)
    (d : Db)
    → run_tx (issue_tokens rt clock id u opaque aal) db ≡ (ok t, d)
    → d.mfa_factors ≡ db.mfa_factors
unfolding issue_tokens
issue_tokens_keeps rt clock id u opaque aal db t d h = ground (arith, h)

-- After a challenge that passes with a TOTP code, and whose read saw the current factors, the same
-- code in the same 30-second step is refused as reused, and changes nothing.
pub mfa_challenge_replay :
    (rt : AuthRuntime) (mfa : MfaRuntime) (clock : Clock) (id : ℕ) (opaque : String) (u : ℕ)
    (code : String) (db : Db) (t : RefreshToken) (d : Db) (clock' : Clock) (id' : ℕ)
    (opaque' : String)
    → leb 9 (rt.length (mfa.strip code)) ≡ false
    → now_step clock' ≡ now_step clock
    → mfa_challenge rt mfa clock db id opaque u code db ≡ (ok t, d)
    → mfa_challenge rt mfa clock' d id' opaque' u code d ≡ (err Error.code_reused, d)
unfolding mfa_challenge
mfa_challenge_replay rt mfa clock id opaque u code db t d clock' id' opaque' short again h =
    let mine = filter (is_verified_of u) db.mfa_factors in
    let ((factor, s), found) =
      challenge-matched rt mfa clock id opaque u code mine db t d short h in
    let passed : pass_totp rt clock id opaque u (ok (some (factor, s))) db ≡ (ok t, d) =
      sym (challenge_matched rt mfa clock id opaque u code mine db (factor, s) short found) ∙ h in
    let kept = issue_tokens_keeps rt clock id u opaque "aal2" _ t d passed in
    let used : filter (is_verified_of u) d.mfa_factors
        ≡ set_factor factor (use_step clock.now s) mine =
      ap (filter (is_verified_of u)) kept ∙ filter-set_factor clock.now u factor s db.mfa_factors in
    challenge_refused rt mfa clock' id' opaque' u code (filter (is_verified_of u) d.mfa_factors) d
      Error.code_reused short
      (rw (used, again)
        (match_factor-set_factor mfa (now_step clock) s code clock.now factor mine found))

pass_totp_fresh :
    (rt : AuthRuntime) (clock : Clock) (id : ℕ) (opaque : String) (u : ℕ) (m : ℕ × ℤ) (db : Db)
    → any (λ x. x.id == id || has_hash (rt.sha256_hex opaque) x) db.refresh_tokens ≡ false
    → is_ok (pass_totp rt clock id opaque u (ok (some m)) db).0 ≡ true
unfolding issue_tokens
pass_totp_fresh rt clock id opaque u (factor, s) db free = ground (arith, free)

-- Of two challenges with one TOTP code in one step, whose reads of the factors both saw the same
-- state, the second passes in whatever state its session is inserted, if the id and the hash of the
-- session are new there.
pub mfa_challenge_races :
    (rt : AuthRuntime) (mfa : MfaRuntime) (clock : Clock) (snapshot : Db) (id : ℕ) (opaque : String)
    (u : ℕ) (code : String) (db : Db) (t : RefreshToken) (d : Db) (clock' : Clock) (id' : ℕ)
    (opaque' : String) (now : Db)
    → leb 9 (rt.length (mfa.strip code)) ≡ false
    → now_step clock' ≡ now_step clock
    → mfa_challenge rt mfa clock snapshot id opaque u code db ≡ (ok t, d)
    → any (λ x. x.id == id' || has_hash (rt.sha256_hex opaque') x) now.refresh_tokens ≡ false
    → is_ok (mfa_challenge rt mfa clock' snapshot id' opaque' u code now).0 ≡ true
unfolding mfa_challenge
mfa_challenge_races rt mfa clock snapshot id opaque u code db t d clock' id' opaque' now short again
      h free =
    let mine = filter (is_verified_of u) snapshot.mfa_factors in
    let (m, found) = challenge-matched rt mfa clock id opaque u code mine db t d short h in
    let found' : match_factor mfa (now_step clock') code mine ≡ ok (some m) = rw again found in
    rw (challenge_matched rt mfa clock' id' opaque' u code mine now m short found')
      (pass_totp_fresh rt clock' id' opaque' u m now free)

any-consume_rows :
    (now u : ℕ) (h : String) (codes : List BackupCode)
    → any (is_unused_code u h) (consume_rows now u h codes) ≡ false
unfolding any consume_rows
any-consume_rows now u h [] = refl
any-consume_rows now u h (c ∷ codes) = ground (arith, any-consume_rows now u h codes)

consume_rows_idle :
    (now u : ℕ) (h : String) (codes : List BackupCode)
    → any (is_unused_code u h) codes ≡ false
    → consume_rows now u h codes ≡ codes
unfolding any consume_rows
consume_rows_idle now u h [] none_left = refl
consume_rows_idle now u h (c ∷ codes) none_left = ground (arith, consume_rows_idle now u h codes)

consume_mfa_backup_code_idle :
    (rt : AuthRuntime) (mfa : MfaRuntime) (clock : Clock) (u : ℕ) (code : String) (db : Db)
    → any (is_unused_code u (rt.sha256_hex (normalise_backup_code mfa code))) db.backup_codes
      ≡ false
    → consume_mfa_backup_code rt mfa clock u code db ≡ (false, db)
unfolding consume_mfa_backup_code
consume_mfa_backup_code_idle rt mfa clock u code db none_left =
    elim (Bool-cases (ltb (rt.length (normalise_backup_code mfa code)) 6)) [
      | inl short ↦ rw short refl
      | inr long ↦
          rw (long, none_left, consume_rows_idle clock.now u _ db.backup_codes none_left) refl
    ]

-- Whether a backup code is accepted or not, any later use of it, or of another text with the same
-- normal form, by the user is refused and changes nothing.
pub consume_mfa_backup_code_once :
    (rt : AuthRuntime) (mfa : MfaRuntime) (clock : Clock) (u : ℕ) (code : String) (db : Db)
    (clock' : Clock) (code' : String)
    → normalise_backup_code mfa code' ≡ normalise_backup_code mfa code
    → consume_mfa_backup_code rt mfa clock' u code'
        (consume_mfa_backup_code rt mfa clock u code db).1
      ≡ (false, (consume_mfa_backup_code rt mfa clock u code db).1)
unfolding consume_mfa_backup_code
consume_mfa_backup_code_once rt mfa clock u code db clock' code' same =
    elim (Bool-cases (ltb (rt.length (normalise_backup_code mfa code)) 6)) [
      | inl short ↦ rw (same, short) refl
      | inr long ↦
          consume_mfa_backup_code_idle rt mfa clock' u code'
            (consume_mfa_backup_code rt mfa clock u code db).1
            (rw (same, long) (any-consume_rows clock.now u _ db.backup_codes))
    ]
