-- ===== src/Sessions/Mfa.antt =====
-- TOTP codes and backup codes: apps/api/src/auth/mfa.ts, and `mfaChallenge`, `mfaUnenroll` and the
-- backup codes of apps/api/src/services/auth.service.ts.
use c_zdan.Common.{
  ℕ, ◌/◌, Bool, true, false, not, ◌&&◌, Option, none, some, List, [], ◌∷◌, String, str_eq, leb, ltb,
  ◌==◌, if◌then◌else◌,
}
use c_zdan.Common.Int.{ℤ, pos, ◌+ℤ◌, ◌-ℤ◌, leb_ℤ}
use c_zdan.Common.Table.{any, filter}
use c_zdan.Schema.{RefreshToken, MfaFactor, BackupCode, is_absent}
use c_zdan.Store.{Error, Result, ok, err, Db, Clock, run_tx, Auto}
use c_zdan.Sessions.Tokens.{AuthRuntime, issue_tokens}

-- Decryption, the code of a secret at a step, the test for six to eight digits, and a text without
-- what is no letter or digit, as it is and in upper case.
pub record MfaRuntime : Type 0 where
  pub decode : String → String
  pub generate : String → ℤ → String
  pub is_digits : String → Bool
  pub strip : String → String
  pub upper : String → String

abbrev pub totp_step_sec : ℕ
totp_step_sec = 30

abbrev pub now_step : Clock → ℤ
now_step clock = pos (clock.now / 1000 / totp_step_sec)

unfoldable pub first_match : MfaRuntime → String → String → List ℤ → Option ℤ
first_match rt code secret [] = none
first_match rt code secret (s ∷ steps) =
    if str_eq (rt.generate secret s) code then some s else first_match rt code secret steps

-- The step before this one, this one, and the next.
abbrev window : ℤ → List ℤ
window n = (n -ℤ pos 1) ∷ n ∷ (n +ℤ pos 1) ∷ []

-- `verifyTotpCodeWithStep`: the step that the code matched.
unfoldable pub verify_totp_code_with_step : MfaRuntime → ℤ → String → String → Option ℤ
verify_totp_code_with_step rt n code secret =
    if rt.is_digits code then first_match rt code secret (window n) else none

abbrev pub is_verified_of : ℕ → MfaFactor → Bool
is_verified_of u f = f.user_id == u && not (is_absent f.verified_at)

abbrev pub is_used_up : ℤ → Option ℤ → Bool
is_used_up s none = false
is_used_up s (some last) = leb_ℤ s last

-- The loop over the factors: the factor and the step that the code matched.
unfoldable pub match_factor : MfaRuntime → ℤ → String → List MfaFactor → Result (Option (ℕ × ℤ))
match_factor rt n code [] = ok none
match_factor rt n code (f ∷ factors) =
    elim (verify_totp_code_with_step rt n code (rt.decode f.secret_encrypted)) [
      | none ↦ match_factor rt n code factors
      | some s ↦
          if is_used_up s f.last_used_step then err Error.code_reused else ok (some (f.id, s))
    ]

abbrev pub use_step : ℕ → ℤ → MfaFactor → MfaFactor
use_step now s f = record f { last_used_at = some now; last_used_step = some s }

-- UPDATE user_mfa_factors SET … WHERE id = id.
unfoldable pub set_factor : ℕ → (MfaFactor → MfaFactor) → List MfaFactor → List MfaFactor
set_factor id g [] = []
set_factor id g (f ∷ factors) = (if f.id == id then g f else f) ∷ set_factor id g factors

abbrev pub is_unused_code : ℕ → String → BackupCode → Bool
is_unused_code u h c = c.user_id == u && str_eq c.code_hash h && is_absent c.consumed_at

unfoldable pub consume_rows : ℕ → ℕ → String → List BackupCode → List BackupCode
consume_rows now u h [] = []
consume_rows now u h (c ∷ codes) =
    (if is_unused_code u h c then record c { consumed_at = some now } else c)
    ∷ consume_rows now u h codes

abbrev pub normalise_backup_code : MfaRuntime → String → String
normalise_backup_code rt code = rt.upper (rt.strip code)

-- One UPDATE … RETURNING, so that no other request comes between the test and the write.
unfoldable pub consume_mfa_backup_code :
    AuthRuntime → MfaRuntime → Clock → ℕ → String → Db → Bool × Db
consume_mfa_backup_code rt mfa clock u code db =
    let h = rt.sha256_hex (normalise_backup_code mfa code) in
    if ltb (rt.length (normalise_backup_code mfa code)) 6 then (false, db) else (
      any (is_unused_code u h) db.backup_codes,
      record db { backup_codes = consume_rows clock.now u h db.backup_codes },
    )

-- The session that a passed challenge opens.
abbrev pub open_aal2 : AuthRuntime → Clock → ℕ → String → ℕ → Auto RefreshToken
open_aal2 rt clock id opaque u = run_tx (issue_tokens rt clock id u opaque "aal2")

-- The part after the loop over the factors.
abbrev pub pass_totp :
    AuthRuntime → Clock → ℕ → String → ℕ → Result (Option (ℕ × ℤ)) → Auto RefreshToken
pass_totp rt clock id opaque u (err e) db = (err e, db)
pass_totp rt clock id opaque u (ok none) db = (err Error.bad_code, db)
pass_totp rt clock id opaque u (ok (some (factor, s))) db =
    open_aal2 rt clock id opaque u
      (record db { mfa_factors = set_factor factor (use_step clock.now s) db.mfa_factors })

abbrev touch : Clock → MfaFactor → Db → Db
touch clock f db = record db {
  mfa_factors = set_factor f.id (λ g. record g { last_used_at = some clock.now }) db.mfa_factors;
}

abbrev by_backup_code :
    AuthRuntime
    → Clock
    → ℕ
    → String
    → ℕ
    → MfaFactor
    → Result (Option (ℕ × ℤ))
    → Bool × Db
    → Result RefreshToken × Db
by_backup_code rt clock id opaque u f matched (true, db) =
    open_aal2 rt clock id opaque u (touch clock f db)
by_backup_code rt clock id opaque u f matched (false, db) =
    pass_totp rt clock id opaque u matched db

-- With the factors that were read.
unfoldable pub challenge :
    AuthRuntime → MfaRuntime → Clock → ℕ → String → ℕ → String → List MfaFactor → Auto RefreshToken
challenge rt mfa clock id opaque u code [] db = (err Error.mfa_not_enrolled, db)
challenge rt mfa clock id opaque u code (f ∷ factors) db =
    if leb 9 (rt.length (mfa.strip code))
    then by_backup_code rt clock id opaque u f
        (match_factor mfa (now_step clock) code (f ∷ factors))
        (consume_mfa_backup_code rt mfa clock u code db)
    else pass_totp rt clock id opaque u (match_factor mfa (now_step clock) code (f ∷ factors)) db

-- `mfaChallenge`: the factors are read first and without a lock, in the state `snapshot`.
unfoldable pub mfa_challenge :
    AuthRuntime → MfaRuntime → Clock → Db → ℕ → String → ℕ → String → Auto RefreshToken
mfa_challenge rt mfa clock snapshot id opaque u code =
    challenge rt mfa clock id opaque u code (filter (is_verified_of u) snapshot.mfa_factors)
