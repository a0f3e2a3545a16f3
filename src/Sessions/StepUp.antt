-- ===== src/Sessions/StepUp.antt =====
-- An MFA factor goes only with proof of possession, and its user's sessions go with it.
use c_zdan.Common.{
  ℕ, ◌≡◌, refl, Bool, true, false, not, ◌&&◌, Option, none, some, List, [], ◌∷◌, String, str_eq,
  arith, Bool-cases, ◌⊎◌, inl, inr,
}
use c_zdan.Common.Int.{ℤ}
use c_zdan.Common.Table.{any}
use c_zdan.Schema.{MfaFactor}
use c_zdan.Store.{Db, Clock, Ensures, Ensures-map}
use c_zdan.Store.Rules.{throw_if_rule, or_throw_rule, step_ok, read_rule}
use c_zdan.Sessions.{
  MfaRuntime, now_step, verify_totp_code_with_step, is_used_up, Unenroll, is_factor, find_factor,
  drop_factor, is_aal2, accept_step, check_code, step_up, mfa_unenroll,
}
use c_zdan.Sessions.Ended.{is_live_for, any-revoke_rows}

any-drop_factor :
    (u id : ℕ) (factors : List MfaFactor) → any (is_factor u id) (drop_factor u id factors) ≡ false
unfolding any drop_factor
any-drop_factor u id [] = refl
any-drop_factor u id (f ∷ factors) = ground (arith, any-drop_factor u id factors)

-- A code of the factor, at a step that it has not used yet.
pub record IsFreshCode (mfa : MfaRuntime) (clock : Clock) (f : MfaFactor) (code : Option String)
    : Type 0 where
  pub text : String
  pub given : code ≡ some text
  pub step : ℤ
  pub matched :
      verify_totp_code_with_step mfa (now_step clock) text (mfa.decode f.secret_encrypted)
      ≡ some step
  pub unused : is_used_up step f.last_used_step ≡ false

accept_step-fresh :
    (mfa : MfaRuntime) (clock : Clock) (f : MfaFactor) (text : String) (o : Option ℤ) (db : Db)
    → verify_totp_code_with_step mfa (now_step clock) text (mfa.decode f.secret_encrypted) ≡ o
    → Ensures
        (λ b d. (d ≡ db) × (b ≡ true → IsFreshCode mfa clock f (some text)))
        (accept_step f o db)
accept_step-fresh mfa clock f text none db e = (refl, λ h. absurd (ground (arith, h)))
accept_step-fresh mfa clock f text (some s) db e =
    elim (Bool-cases (is_used_up s f.last_used_step)) [
      | inl used ↦ rw (used, Ensures) tt
      | inr free ↦
          rw (free, Ensures)
            (refl, λ _. record { text = text; given = refl; step = s; matched = e; unused = free })
    ]

check_code-fresh :
    (mfa : MfaRuntime) (clock : Clock) (f : MfaFactor) (code : Option String) (db : Db)
    → Ensures
        (λ b d. (d ≡ db) × (b ≡ true → IsFreshCode mfa clock f code))
        (check_code mfa clock f code db)
check_code-fresh mfa clock f none db = (refl, λ h. absurd (ground (arith, h)))
check_code-fresh mfa clock f (some text) db = elim (Bool-cases (str_eq text "")) [
  | inl nothing ↦ rw (nothing, Ensures) (refl, λ h. absurd (ground (arith, h)))
  | inr something ↦ rw something (accept_step-fresh mfa clock f text _ db refl)
]

step_up-proved :
    (mfa : MfaRuntime) (clock : Clock) (input : Unenroll) (f : MfaFactor) (db : Db)
    → Ensures
        (λ b d. (d ≡ db) × (is_aal2 input ≡ false → b ≡ true → IsFreshCode mfa clock f input.code))
        (step_up mfa clock input f db)
unfolding step_up
step_up-proved mfa clock input f db = elim (Bool-cases (is_aal2 input)) [
  | inl strong ↦ rw (strong, Ensures) (refl, λ weak. absurd (ground (arith, weak)))
  | inr weak ↦ rw weak (
      Ensures-map _ _ (check_code mfa clock f input.code db) (λ b d (e, k). (e, λ _. k))
        (check_code-fresh mfa clock f input.code db))
]

-- The removal of a factor that succeeds was asked for with an aal2 token, or, where aal2 is not
-- enforced, with a code of the factor that was read at a step it had not used. It leaves no such
-- factor, and no session of the user that can still be refreshed.
pub mfa_unenroll_proved :
    (mfa : MfaRuntime) (clock : Clock) (snapshot : Db) (input : Unenroll) (db : Db)
    → Ensures
        (λ _ d.
          ((is_aal2 input ≡ true)
            ⊎ ((input.is_enforced ≡ false)
                × ((f : MfaFactor) × ((find_factor input.user_id input.factor_id
                          snapshot.mfa_factors
                        ≡ some f)
                      × IsFreshCode mfa clock f input.code))))
          × ((any (is_factor input.user_id input.factor_id) d.mfa_factors ≡ false)
              × (any (is_live_for input.user_id) d.refresh_tokens ≡ false)))
        (mfa_unenroll mfa clock snapshot input db)
unfolding mfa_unenroll
mfa_unenroll_proved mfa clock snapshot input db = or_throw_rule _ _ _ _ db λ f found.
    throw_if_rule _ _ _ _ db λ allowed.
      read_rule _ _ _ _ db (step_up-proved mfa clock input f db) λ b proof.
        throw_if_rule _ _ _ _ db λ proved. step_ok _ _ _ _ _ _ refl (
          reason f found allowed b proof proved,
          (
            any-drop_factor input.user_id input.factor_id db.mfa_factors,
            any-revoke_rows clock.now input.user_id db.refresh_tokens,
          ),
        )
  where
    reason :
        (f : MfaFactor)
        → find_factor input.user_id input.factor_id snapshot.mfa_factors ≡ some f
        → (input.is_enforced && not (is_aal2 input)) ≡ false
        → (b : Bool) → (is_aal2 input ≡ false → b ≡ true → IsFreshCode mfa clock f input.code)
        → not b ≡ false
        → (is_aal2 input ≡ true)
          ⊎ ((input.is_enforced ≡ false)
              × ((f : MfaFactor) × ((find_factor input.user_id input.factor_id snapshot.mfa_factors
                      ≡ some f)
                    × IsFreshCode mfa clock f input.code)))
    reason f found allowed b proof proved = elim (Bool-cases (is_aal2 input)) [
      | inl strong ↦ inl strong
      | inr weak ↦
          inr (ground (arith, allowed, weak), (f, (found, proof weak (ground (arith, proved)))))
    ]
