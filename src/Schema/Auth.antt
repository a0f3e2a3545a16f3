-- ===== src/Schema/Auth.antt =====
-- apps/api/src/db/schema/auth.ts: users, their tokens, MFA factors and backup codes.
use c_zdan.Common.{ℕ, Bool, true, false, Option, none, some, String}
use c_zdan.Common.Int.{ℤ}

pub record User : Type 0 where
  pub email : String
  pub password_hash : String
  pub is_active : Bool
  pub failed_login_count : ℕ
  pub locked_until : Option ℕ

pub record RefreshToken : Type 0 where
  pub id : ℕ
  pub user_id : ℕ
  pub token_hash : String
  pub aal : String
  pub expires_at : ℕ
  pub revoked_at : Option ℕ

pub record ResetToken : Type 0 where
  pub id : ℕ
  pub user_id : ℕ
  pub token_hash : String
  pub expires_at : ℕ
  pub consumed_at : Option ℕ

abbrev pub reset_id : ResetToken → ℕ
reset_id t = t.id

abbrev pub is_absent : Option ℕ → Bool
is_absent none = true
is_absent (some n) = false

-- `last_used_step` is the number of the 30-second step whose code was used last.
pub record MfaFactor : Type 0 where
  pub id : ℕ
  pub user_id : ℕ
  pub secret_encrypted : String
  pub verified_at : Option ℕ
  pub last_used_at : Option ℕ
  pub last_used_step : Option ℤ

pub record BackupCode : Type 0 where
  pub user_id : ℕ
  pub code_hash : String
  pub consumed_at : Option ℕ
