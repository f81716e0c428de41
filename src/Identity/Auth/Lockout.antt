-- ===== src/Identity/Auth/Lockout.antt =====
-- Brute-force protection: wrong passwords are counted, and at the limit the account is locked.
use egreen_quanta_tes.Base.{
  ℕ, ◌+◌, ◌<◌, String, ◌≡◌, ap, ◌∙◌, false, Option, some, List, [], ◌∷◌, arith, str_eq, eq_iff,
  find, All, length,
}
use egreen_quanta_tes.Base.Text.{lower, strip}
use egreen_quanta_tes.Audit.Chain.{Platform}
use egreen_quanta_tes.Identity.Models.{User, Db, err, account_locked, is_locked, save_user}
use egreen_quanta_tes.Identity.Auth.{
  Security, seconds, locks, count_failure, check_user, user_by_email, authenticate,
}

-- A stored user is found again by the address that it keeps.
find-save_user :
    (email : String) (u v : User) (xs : List User)
    → find (λ x. str_eq x.email email) xs ≡ some u
    → v.id ≡ u.id
    → v.email ≡ email
    → find (λ x. str_eq x.email email) (save_user v xs) ≡ some v
unfolding save_user
find-save_user email u v [] h i e = cc
find-save_user email u v (x ∷ xs) h i e = ground (
  arith,
  find-save_user email u v xs,
  eq_iff x.email email,
  eq_iff v.email email,
  eq_iff x.id v.id,
)

find-email :
    (email : String) (u : User) (xs : List User)
    → find (λ x. str_eq x.email email) xs ≡ some u
    → u.email ≡ email
find-email email u [] h = cc
find-email email u (x ∷ xs) h = ground (arith, find-email email u xs, eq_iff x.email email)

-- One call with an address: its instant, password, code and client.
pub record Guess : Type 0 where
  pub at : ℕ
  pub password : String
  pub totp_code : Option String
  pub ip : Option String

-- The instant at which the last guess of a run was made.
abbrev pub end_of : Guess → List Guess → ℕ
end_of g [] = g.at
end_of g (g' ∷ gs) = end_of g' gs

module _ (sec : Security) where
  count_failure-keeps :
      (now : ℕ) (u : User)
      → ((count_failure sec now u).id ≡ u.id)
        × ((count_failure sec now u).email ≡ u.email)
        × ((count_failure sec now u).hashed_password ≡ u.hashed_password)
  unfolding count_failure
  count_failure-keeps now u = ground arith

  -- Below the limit a failure is only counted.
  count_failure-below :
      (now : ℕ) (u : User)
      → u.failed_login_count + 1 < sec.login_max_attempts
      → count_failure sec now u ≡ record u { failed_login_count = u.failed_login_count + 1 }
  unfolding count_failure locks
  count_failure-below now u h = ground arith

  count_failure-at_limit :
      (now : ℕ) (u : User)
      → u.failed_login_count + 1 ≡ sec.login_max_attempts
      → (count_failure sec now u).locked_until ≡ some (now + seconds sec.login_lockout_seconds)
  unfolding count_failure locks
  count_failure-at_limit now u h = ground arith

module _ (p : Platform) (sec : Security) where
  pub guess : String → Db → Guess → Db
  guess email db g = (authenticate p sec g.at email g.password g.totp_code g.ip db).1

  pub guesses : String → Db → List Guess → Db
  guesses email db [] = db
  guesses email db (g ∷ gs) = guesses email (guess email db g) gs

  guess_saves :
      (email : String) (db : Db) (u : User) (g : Guess)
      → user_by_email (lower (strip email)) db ≡ some u
      → is_locked u g.at ≡ false
      → sec.verify_password g.password u.hashed_password ≡ false
      → (guess email db g).users ≡ save_user (count_failure sec g.at u) db.users
  unfolding guess authenticate check_user
  guess_saves email db u g e unlocked wrong = ground arith

  guess_wrong :
      (email : String) (db : Db) (u : User) (g : Guess)
      → user_by_email (lower (strip email)) db ≡ some u
      → is_locked u g.at ≡ false
      → sec.verify_password g.password u.hashed_password ≡ false
      → user_by_email (lower (strip email)) (guess email db g) ≡ some (count_failure sec g.at u)
  unfolding user_by_email
  guess_wrong email db u g e unlocked wrong =
      let name = lower (strip email) in
      let (same_id, same_email, _) = count_failure-keeps sec g.at u in
      rw (guess_saves email db u g (unfold user_by_email in e) unlocked wrong) (
        find-save_user name u (count_failure sec g.at u) db.users e same_id
          (same_email ∙ find-email name u db.users e))

  -- After as many wrong passwords in a row as are left, the stored user is locked.
  guesses_lock :
      (email : String) (gs : List Guess) (g : Guess) (db : Db) (u : User)
      → user_by_email (lower (strip email)) db ≡ some u
      → All (λ x. is_locked u x.at ≡ false) (g ∷ gs)
      → u.failed_login_count + length (g ∷ gs) ≡ sec.login_max_attempts
      → All (λ x. sec.verify_password x.password u.hashed_password ≡ false) (g ∷ gs)
      → (v : User) × (user_by_email (lower (strip email)) (guesses email db (g ∷ gs)) ≡ some v)
        × (v.locked_until ≡ some (end_of g gs + seconds sec.login_lockout_seconds))
  unfolding guesses is_locked
  guesses_lock email [] g db u e open_ count wrong = (
    count_failure sec g.at u,
    guess_wrong email db u g e open_.0 wrong.0,
    count_failure-at_limit sec g.at u (omega arith),
  )
  guesses_lock email (g' ∷ gs) g db u e open_ count wrong =
      guesses_lock email gs g' (guess email db g)
        (record u { failed_login_count = u.failed_login_count + 1 })
        (guess_wrong email db u g e open_.0 wrong.0
          ∙ ap some (count_failure-below sec g.at u (omega arith)))
        open_.1 (omega arith) wrong.1

  -- An account that has `n` failures counted is locked by `max - n` wrong passwords in a row, if no
  -- lock of the account runs at the instants of those calls (it has none, or one that has expired):
  -- until the lockout time after the last of them has passed, every further
  -- call is refused as locked and changes no user, whatever password it brings.
  pub lockout :
      (email : String) (gs : List Guess) (g : Guess) (db : Db) (u : User) (later : Guess)
      → user_by_email (lower (strip email)) db ≡ some u
      → All (λ x. is_locked u x.at ≡ false) (g ∷ gs)
      → u.failed_login_count + length (g ∷ gs) ≡ sec.login_max_attempts
      → All (λ x. sec.verify_password x.password u.hashed_password ≡ false) (g ∷ gs)
      → later.at < end_of g gs + seconds sec.login_lockout_seconds
      → let after = guesses email db (g ∷ gs) in
        let (result, db') =
          authenticate p sec later.at email later.password later.totp_code later.ip after in
        (result ≡ err account_locked) × (db'.users ≡ after.users)
  unfolding authenticate check_user is_locked
  lockout email gs g db u later e open_ count wrong soon =
      let (v, found_, locked) = guesses_lock email gs g db u e open_ count wrong in ground arith
