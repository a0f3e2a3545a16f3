-- ===== src/Sessions/Lockout.antt =====
-- Ten wrong passwords in a row lock the account.
use c_zdan.Common.{
  ℕ, suc, ◌+◌, ◌<◌, ◌≡◌, refl, sym, ap, ◌∙◌, subst, true, false, none, some, List, [], ◌∷◌, String,
  arith,
}
use c_zdan.Schema.{User}
use c_zdan.Store.{Error, err, Db, Clock}
use c_zdan.Sessions.{
  AuthRuntime, Hasher, LoginReads, LoginInput, lockout_threshold, is_locked, set_user,
  count_failure, check_password, login,
}

pub record Attempt : Type 0 where
  pub at : Clock
  pub input : LoginInput

abbrev pub number_of : List Attempt → ℕ
number_of [] = 0
number_of (a ∷ tries) = suc (number_of tries)

module _ (rt : AuthRuntime) (hasher : Hasher) (reads : LoginReads) where
  -- The state after logins that come one after the other.
  unfoldable pub after_logins : List Attempt → Db → Db
  after_logins [] db = db
  after_logins (a ∷ tries) db = after_logins tries (login rt hasher reads a.at db a.input db).1

  -- A login of the address with a password that is not the user's.
  pub record IsWrong (email stored : String) (a : Attempt) : Type 0 where
    pub address : a.input.email ≡ email
    pub rejected : hasher.verify_password a.input.password stored ≡ false

  abbrev pub AllWrong : String → String → List Attempt → Type 0
  AllWrong email stored [] = Unit {0}
  AllWrong email stored (a ∷ tries) = IsWrong email stored a × AllWrong email stored tries

  wrong_login :
      (email : String) (id : ℕ) (db : Db) (u : User) (a : Attempt)
      → db.user_ids email ≡ some id
      → db.users id ≡ some u
      → u.locked_until ≡ none
      → IsWrong email u.password_hash a
      → login rt hasher reads a.at db a.input db
        ≡ (err Error.bad_credentials, set_user id (count_failure a.at.now u.failed_login_count) db)
  unfolding login check_password
  wrong_login email id db u a known there unlocked wrong =
      let found : db.user_ids a.input.email ≡ some id = rw wrong.address known in
      ground (arith, found, wrong.rejected)

  locked_login :
      (email : String) (id : ℕ) (db : Db) (u : User) (clock : Clock) (input : LoginInput)
      → input.email ≡ email
      → db.user_ids email ≡ some id
      → db.users id ≡ some u
      → is_locked clock.now u ≡ true
      → login rt hasher reads clock db input db ≡ (err Error.bad_credentials, db)
  unfolding login check_password
  locked_login email id db u clock input same known there locked =
      let found : db.user_ids input.email ≡ some id = rw same known in ground (arith, found)

  wrong_logins :
      (email : String) (id : ℕ) (tries : List Attempt) (db : Db) (u : User)
      → db.user_ids email ≡ some id
      → db.users id ≡ some u
      → u.locked_until ≡ none
      → AllWrong email u.password_hash tries
      → u.failed_login_count + number_of tries < lockout_threshold
      → ((after_logins tries db).user_ids email ≡ some id)
        × ((after_logins tries db).users id
            ≡ some (record u {
              failed_login_count = u.failed_login_count + number_of tries;
              locked_until = none;
            }))
  unfolding after_logins
  wrong_logins email id [] db u known there unlocked wrong few =
      (known, ground (arith, there, unlocked))
  wrong_logins email id (a ∷ tries) db u known there unlocked (w, ws) few =
      let there' : d.users id ≡ some counted = ground (arith, there, unlocked) in
      let (k, r) = wrong_logins email id tries d counted known there' refl ws (omega arith) in
      let sums : some (record u {
        failed_login_count = u.failed_login_count + 1 + number_of tries;
        locked_until = none;
      })
          ≡ some (record u {
            failed_login_count = u.failed_login_count + suc (number_of tries);
            locked_until = none;
          }) =
        ap (λ n. some (record u { failed_login_count = n; locked_until = none })) (omega arith) in
      rw (after_logins, wrong_login email id db u a known there unlocked w) (k, r ∙ sums)
    where
      counted : User
      counted = record u { failed_login_count = u.failed_login_count + 1; locked_until = none }

      d : Db
      d = set_user id (count_failure a.at.now u.failed_login_count) db

  -- Ten logins one after the other, none with the password of an unlocked user whose counter is 0,
  -- lock the account: for 15 minutes after the last of them, a login with any password is refused as
  -- bad credentials and changes nothing.
  pub login_lockout :
      (email : String) (id : ℕ) (tries : List Attempt) (last : Attempt) (db : Db) (u : User)
      (clock : Clock) (input : LoginInput)
      → db.user_ids email ≡ some id
      → db.users id ≡ some u
      → u.locked_until ≡ none
      → u.failed_login_count ≡ 0
      → AllWrong email u.password_hash tries
      → number_of tries ≡ 9
      → IsWrong email u.password_hash last
      → clock.now < last.at.now + 900000
      → input.email ≡ email
      → (let d =
            (login rt hasher reads last.at
              (after_logins tries db)
              last.input
              (after_logins tries db)).1 in
          login rt hasher reads clock d input d ≡ (err Error.bad_credentials, d))
  login_lockout email id tries last db u clock input known there unlocked fresh wrong nine w soon
        same =
      let (k, r) = wrong_logins email id tries db u known there unlocked wrong (omega arith) in
      let e = wrong_login email id (after_logins tries db) nearly last k r refl w in
      subst (λ d. login rt hasher reads clock d input d ≡ (err Error.bad_credentials, d))
        (sym (ap (λ o. o.1) e))
        (locked_login email id _ (count_failure last.at.now nearly.failed_login_count nearly) clock
          input same k (ground (arith, r)) (ground (arith, nine, fresh)))
    where
      nearly : User
      nearly = record u {
        failed_login_count = u.failed_login_count + number_of tries;
        locked_until = none;
      }
