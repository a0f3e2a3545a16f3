-- ===== src/Examples/SignedIn.antt =====
-- Two sessions and a reset token of a member, and the theorems about them applied.
use c_zdan.Common.{
  List, arith, ℕ, ◌≡◌, refl, true, false, Option, some, none, [], ◌∷◌, String, str_eq,
  if◌then◌else◌, ◌==◌,
}
use c_zdan.Common.Table.{any, filter}
use c_zdan.Common.Int.{◌-ℤ◌, ◌+ℤ◌}
use c_zdan.Schema.{User, RefreshToken}
use c_zdan.Store.{
  Result, Clock, is_ok, Error, err, ok, run_tx, Db, Ensures, get, throw_if, or_throw, ◌>>=◌,
}
use c_zdan.Sessions.{
  AuthRuntime, Hasher, by_hash, revoke_id, issue_tokens, rotate, refresh, is_active_token,
  reset_by_hash, confirm_password_reset,
}
use c_zdan.Sessions.Rotation.{refresh_once, refresh_reuse_keeps}
use c_zdan.Sessions.Ended.{is_live_for, password_of, new_password, confirm_password_reset_ends}
use c_zdan.Sessions.{
  LoginReads, LoginInput, login, MfaRuntime, first_match, verify_totp_code_with_step, match_factor,
  set_factor, challenge, mfa_challenge,
}
use c_zdan.Sessions.Lockout.{Attempt, IsWrong, after_logins, login_lockout}
use c_zdan.Sessions.Codes.{mfa_challenge_replay, mfa_challenge_races}
use c_zdan.Common.{◌⊎◌}
use c_zdan.Schema.{MfaFactor}
use c_zdan.Sessions.{
  Unenroll, is_aal2, is_factor, find_factor, drop_factor, step_up, mfa_unenroll, revoke_rows,
}
use c_zdan.Sessions.StepUp.{IsFreshCode, mfa_unenroll_proved}
use c_zdan.Examples.Books.{noon, midnight, books}
use c_zdan.Examples.Runs.{committed, err_fails}

abbrev plain : AuthRuntime
plain = record { sha256_hex = λ s. s; length = λ s. 64; refresh_ttl_sec = 86400 }

abbrev hasher : Hasher
hasher = record { hash_password = λ p. p; verify_password = str_eq }

abbrev session : ℕ → String → Option ℕ → RefreshToken
session id h revoked = record {
  id = id;
  user_id = 2;
  token_hash = h;
  aal = "aal1";
  expires_at = 6000000;
  revoked_at = revoked;
}

abbrev member : ℕ → User
member failures = record {
  email = "ada";
  password_hash = "old";
  is_active = true;
  failed_login_count = failures;
  locked_until = none;
}

abbrev signed_in : Db
signed_in = record books {
  users = λ u. if u == 2 then some (member 0) else none;
  refresh_tokens =
      session 1 "phone" none ∷ session 2 "laptop" none ∷ session 3 "stolen" (some 4000000) ∷ [];
  user_ids = λ e. if str_eq e "ada" then some 2 else none;
  mfa_factors =
      (record {
        id = 1;
        user_id = 2;
        secret_encrypted = "seed";
        verified_at = some 1000;
        last_used_at = none;
        last_used_step = none;
      })
      ∷ [];
  reset_tokens =
      (record {
        id = 1;
        user_id = 2;
        token_hash = "mail";
        expires_at = 6000000;
        consumed_at = none;
      })
      ∷ [];
}

refresh_commits : is_ok (refresh plain noon 4 "next" "phone" signed_in) ≡ true
unfolding refresh rotate issue_tokens by_hash revoke_id any get throw_if or_throw ◌>>=◌
refresh_commits = refl

abbrev refreshed :
    (t : RefreshToken) × ((d : Db) × (refresh plain noon 4 "next" "phone" signed_in ≡ ok (t, d)))
refreshed = committed (refresh plain noon 4 "next" "phone" signed_in) refresh_commits

refresh_once_example :
    ((t : RefreshToken) × ((by_hash "phone" signed_in.refresh_tokens ≡ some t)
        × (is_active_token 5000000 t ≡ true)))
    × (run_tx (refresh plain midnight 5 "other" "phone") refreshed.1.0
        ≡ (err Error.refresh_revoked, refreshed.1.0))
refresh_once_example =
    refresh_once plain noon 4 "next" "phone" signed_in refreshed.0 refreshed.1.0 midnight 5 "other"
      refreshed.1.1

refresh_reuse_keeps_example :
    run_tx (refresh plain noon 4 "next" "stolen") signed_in ≡ (err Error.refresh_revoked, signed_in)
unfolding by_hash
refresh_reuse_keeps_example =
    refresh_reuse_keeps plain noon 4 "next" "stolen" signed_in (session 3 "stolen" (some 4000000))
      refl refl refl

confirm_password_reset_ends_example :
    Ensures
      (λ _ d.
        (any (is_live_for 2) d.refresh_tokens ≡ false)
        × (password_of (d.users 2) ≡ new_password "new" (signed_in.users 2)))
      (confirm_password_reset plain hasher noon signed_in "mail" "new" signed_in)
unfolding reset_by_hash
confirm_password_reset_ends_example =
    confirm_password_reset_ends plain hasher noon signed_in "mail" "new" signed_in
      (record {
        id = 1;
        user_id = 2;
        token_hash = "mail";
        expires_at = 6000000;
        consumed_at = none;
      })
      refl

abbrev reads : LoginReads
reads = record { is_frozen = λ u. false; is_staff = λ u. false }

abbrev guess : String → LoginInput
guess p = record { email = "ada"; password = p; id = 9; opaque = "fresh" }

abbrev wrong : Attempt
wrong = record { at = noon; input = guess "guess" }

abbrev nine_wrong : List Attempt
nine_wrong = wrong ∷ wrong ∷ wrong ∷ wrong ∷ wrong ∷ wrong ∷ wrong ∷ wrong ∷ wrong ∷ []

abbrev soon : Clock
soon = record { now = 5800000; ymd = 20250101 }

login_lockout_example :
    let before = after_logins plain hasher reads nine_wrong signed_in in
    let d = (login plain hasher reads noon before (guess "guess") before).1 in
    login plain hasher reads soon d (guess "old") d ≡ (err Error.bad_credentials, d)
login_lockout_example =
    let w : IsWrong plain hasher reads "ada" "old" wrong = record {
      address = refl;
      rejected = refl;
    } in
    login_lockout plain hasher reads "ada" 2 nine_wrong wrong signed_in (member 0) soon
      (guess "old") refl refl refl refl (w, (w, (w, (w, (w, (w, (w, (w, (w, tt))))))))) refl w
      (omega arith) refl

-- A code of six digits.
abbrev six : AuthRuntime
six = record plain { length = λ s. 6 }

abbrev totp : MfaRuntime
totp = record {
  decode = λ s. s;
  generate = λ secret step. "123456";
  is_digits = λ s. true;
  strip = λ s. s;
  upper = λ s. s;
}

challenge_commits :
    is_ok (mfa_challenge six totp noon signed_in 4 "next" 2 "123456" signed_in).0 ≡ true
unfolding mfa_challenge challenge match_factor verify_totp_code_with_step first_match issue_tokens
    set_factor filter any ◌-ℤ◌ ◌+ℤ◌
challenge_commits = refl

abbrev settled : Result RefreshToken × Db → RefreshToken × Db
settled (ok t, d) = (t, d)
settled (err e, d) = (session 0 "" none, d)

settled_ok :
    (r : Result RefreshToken × Db) → is_ok r.0 ≡ true → r ≡ (ok (settled r).0, (settled r).1)
settled_ok (ok t, d) h = refl
settled_ok (err e, d) h = absurd (err_fails RefreshToken e h)

abbrev challenged : RefreshToken × Db
challenged = settled (mfa_challenge six totp noon signed_in 4 "next" 2 "123456" signed_in)

mfa_challenge_replay_example :
    mfa_challenge six totp noon challenged.1 5 "more" 2 "123456" challenged.1
    ≡ (err Error.code_reused, challenged.1)
mfa_challenge_replay_example =
    mfa_challenge_replay six totp noon 4 "next" 2 "123456" signed_in challenged.0 challenged.1 noon
      5 "more" refl refl (settled_ok _ challenge_commits)

mfa_challenge_races_example :
    is_ok (mfa_challenge six totp noon signed_in 5 "more" 2 "123456" challenged.1).0 ≡ true
unfolding mfa_challenge challenge match_factor verify_totp_code_with_step first_match issue_tokens
    set_factor filter any ◌-ℤ◌ ◌+ℤ◌
mfa_challenge_races_example =
    mfa_challenge_races six totp noon signed_in 4 "next" 2 "123456" signed_in challenged.0
      challenged.1 noon 5 "more" challenged.1 refl refl (settled_ok _ challenge_commits) refl

abbrev removal : Unenroll
removal = record {
  user_id = 2;
  factor_id = 1;
  code = some "123456";
  aal = "aal1";
  is_enforced = false;
}

removal_commits : is_ok (mfa_unenroll totp noon signed_in removal signed_in) ≡ true
unfolding mfa_unenroll find_factor drop_factor step_up verify_totp_code_with_step first_match
    revoke_rows get throw_if or_throw ◌>>=◌ ◌-ℤ◌ ◌+ℤ◌
removal_commits = refl

mfa_unenroll_proved_example :
    Ensures
      (λ _ d.
        ((is_aal2 removal ≡ true)
          ⊎ ((removal.is_enforced ≡ false)
              × ((f : MfaFactor) × ((find_factor 2 1 signed_in.mfa_factors ≡ some f)
                    × IsFreshCode totp noon f removal.code))))
        × ((any (is_factor 2 1) d.mfa_factors ≡ false)
            × (any (is_live_for 2) d.refresh_tokens ≡ false)))
      (mfa_unenroll totp noon signed_in removal signed_in)
mfa_unenroll_proved_example = mfa_unenroll_proved totp noon signed_in removal signed_in
