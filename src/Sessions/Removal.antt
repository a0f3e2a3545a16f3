-- ===== src/Sessions/Removal.antt =====
-- `mfaUnenroll` of apps/api/src/services/auth.service.ts.
use c_zdan.Common.{
  ℕ, Bool, true, false, not, ◌&&◌, Option, none, some, List, [], ◌∷◌, String, str_eq, ◌==◌,
  if◌then◌else◌,
}
use c_zdan.Common.Int.{ℤ}
use c_zdan.Schema.{MfaFactor}
use c_zdan.Store.{Error, ok, Db, Clock, Trx, ◌>>=◌, ◌>>◌, pure, throw, throw_if, or_throw}
use c_zdan.Sessions.Tokens.{revoke_all_for_user}
use c_zdan.Sessions.Mfa.{MfaRuntime, now_step, verify_totp_code_with_step, is_used_up}

-- `aal` is the level of the caller's access token; `is_enforced` says that STAFF_AAL2_REQUIRED is on
-- and the caller is staff.
pub record Unenroll : Type 0 where
  pub user_id : ℕ
  pub factor_id : ℕ
  pub code : Option String
  pub aal : String
  pub is_enforced : Bool

abbrev pub is_factor : ℕ → ℕ → MfaFactor → Bool
is_factor u id f = f.id == id && f.user_id == u

unfoldable pub find_factor : ℕ → ℕ → List MfaFactor → Option MfaFactor
find_factor u id [] = none
find_factor u id (f ∷ factors) = if is_factor u id f then some f else find_factor u id factors

unfoldable pub drop_factor : ℕ → ℕ → List MfaFactor → List MfaFactor
drop_factor u id [] = []
drop_factor u id (f ∷ factors) =
    let rest = drop_factor u id factors in if is_factor u id f then rest else f ∷ rest

abbrev pub is_aal2 : Unenroll → Bool
is_aal2 input = str_eq input.aal "aal2"

-- By the step that the code matched.
abbrev pub accept_step : MfaFactor → Option ℤ → Trx Bool
accept_step f none = pure false
accept_step f (some s) =
    if is_used_up s f.last_used_step then throw Error.code_reused else pure true

-- `okByCode`.
abbrev pub check_code : MfaRuntime → Clock → MfaFactor → Option String → Trx Bool
check_code mfa clock f none = pure false
check_code mfa clock f (some code) =
    if str_eq code ""
    then pure false
    else accept_step f
        (verify_totp_code_with_step mfa (now_step clock) code (mfa.decode f.secret_encrypted))

-- `okByAal2 || okByCode`.
unfoldable pub step_up : MfaRuntime → Clock → Unenroll → MfaFactor → Trx Bool
step_up mfa clock input f = if is_aal2 input then pure true else check_code mfa clock f input.code

abbrev pub delete_factor : ℕ → ℕ → Trx (Unit {0})
delete_factor u id db = ok (tt, record db { mfa_factors = drop_factor u id db.mfa_factors })

-- The factor is read first and without a lock, in the state `snapshot`.
unfoldable pub mfa_unenroll : MfaRuntime → Clock → Db → Unenroll → Trx (Unit {0})
mfa_unenroll mfa clock snapshot input = do
  f ←
      or_throw (find_factor input.user_id input.factor_id snapshot.mfa_factors)
        Error.factor_not_found
  throw_if (input.is_enforced && not (is_aal2 input)) Error.aal2_required
  proved ← step_up mfa clock input f
  throw_if (not proved) Error.mfa_step_up_required
  delete_factor input.user_id input.factor_id
  revoke_all_for_user clock input.user_id
