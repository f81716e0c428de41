-- ===== src/Identity/Auth/Outcome.antt =====
-- What a login that succeeds has passed, and what one that fails leaves alone.
use egreen_quanta_tes.Base.{
  ℕ, String, ◌≡◌, refl, subst, true, false, Bool-cases, ◌⊎◌, inl, inr, Option, none, some, arith,
  Option-cases,
}
use egreen_quanta_tes.Base.Text.{lower, strip, is_given, is_digit}
use egreen_quanta_tes.Audit.Chain.{Platform}
use egreen_quanta_tes.Identity.Models.{User, Db, ok, is_locked, save_user}
use egreen_quanta_tes.Identity.Auth.{
  Security, verify_totp, totp_passes, log_in, check_user, user_by_email, authenticate,
}

totp_passes-is_given :
    (sec : Security) (user : User) (totp_code : Option String)
    → totp_passes sec user totp_code ≡ true
    → is_given totp_code ≡ true
unfolding totp_passes verify_totp is_digit
totp_passes-is_given sec user none h = cc
totp_passes-is_given sec user (some totp) h = ground arith

module _ (p : Platform) (sec : Security) (now : ℕ) where
  -- What `user` must pass for a login with `password` and `totp_code`.
  pub record IsAllowed (user : User) (password : String) (totp_code : Option String) : Type 0 where
    pub unlocked : is_locked user now ≡ false
    pub password_ok : sec.verify_password password user.hashed_password ≡ true
    pub enabled : user.is_active ≡ true
    pub second_factor : (user.totp_enabled ≡ false) ⊎ (totp_passes sec user totp_code ≡ true)

  -- What a login leaves of `user` in `u`.
  pub record IsLoggedIn (password : String) (user u : User) : Type 0 where
    pub no_failures : u.failed_login_count ≡ 0
    pub no_lock : u.locked_until ≡ none
    pub seen : u.last_login_at ≡ some now
    pub same_id : u.id ≡ user.id
    pub same_email : u.email ≡ user.email
    pub same_role : u.role ≡ user.role
    pub still_enabled : u.is_active ≡ user.is_active
    pub same_factor : (u.totp_enabled ≡ user.totp_enabled) × (u.totp_secret ≡ user.totp_secret)
    pub hash :
        ((sec.password_needs_rehash user.hashed_password ≡ false)
          × (u.hashed_password ≡ user.hashed_password))
        ⊎ ((sec.password_needs_rehash user.hashed_password ≡ true)
            × (u.hashed_password ≡ sec.hash_password password))

  log_in-IsLoggedIn :
      (password : String) (user : User) → IsLoggedIn password user (log_in sec now password user)
  unfolding log_in
  log_in-IsLoggedIn password user = record {
    no_failures = refl;
    no_lock = refl;
    seen = refl;
    same_id = refl;
    same_email = refl;
    same_role = refl;
    still_enabled = refl;
    same_factor = (refl, refl);
    hash = elim (Bool-cases (sec.password_needs_rehash user.hashed_password)) [
      | inl e ↦ inr (e, rw e refl)
      | inr e ↦ inl (e, rw e refl)
    ];
  }

  module _ (email password : String) (totp_code ip : Option String) (db : Db) (user : User) where
    check_user-IsAllowed :
        (u : User)
        → (check_user p sec now email password totp_code ip db user).0 ≡ ok u
        → IsAllowed user password totp_code × (log_in sec now password user ≡ u)
    unfolding check_user
    check_user-IsAllowed u h = (ground arith, ground arith)

    IsAllowed-check_user :
        IsAllowed user password totp_code
        → (check_user p sec now email password totp_code ip db user).0
          ≡ ok (log_in sec now password user)
    unfolding check_user
    IsAllowed-check_user h = ground (arith, totp_passes-is_given sec user totp_code)

  module _ (email password : String) (totp_code ip : Option String) (db : Db) where
    -- A login that returns a user found that user by the normalised address; the account was not
    -- locked, the password was right, the account was enabled and, where a second factor is on, the
    -- code was right. The user that is returned is the one that is stored: the found one with no
    -- failures counted, no lock and the login's instant, the same address, role, second factor and
    -- state, and its old hash or, where that hash is out of date, a new one of the same password.
    pub authenticate-IsAllowed :
        (u : User)
        → (authenticate p sec now email password totp_code ip db).0 ≡ ok u
        → (user : User) × (user_by_email (lower (strip email)) db ≡ some user)
          × IsAllowed user password totp_code
          × IsLoggedIn password user u
          × ((authenticate p sec now email password totp_code ip db).1.users ≡ save_user u db.users)
    unfolding authenticate check_user
    authenticate-IsAllowed u h = elim (Option-cases (user_by_email (lower (strip email)) db)) [
      | inl nobody ↦ ground arith
      | inr (user, e) ↦ (
        user,
        e,
        (check_user-IsAllowed (lower (strip email)) password totp_code ip db user u
            (ground arith)).0,
        subst (IsLoggedIn password user)
            (check_user-IsAllowed (lower (strip email)) password totp_code ip db user u
              (ground arith)).1
            (log_in-IsLoggedIn password user),
        ground arith,
      )
    ]

    -- A login under the address of an account that is not locked and enabled, with the right password
    -- and, where a second factor is on, the right code, returns that user with the count and the lock
    -- cleared.
    pub IsAllowed-authenticate :
        (user : User)
        → user_by_email (lower (strip email)) db ≡ some user
        → IsAllowed user password totp_code
        → (authenticate p sec now email password totp_code ip db).0
          ≡ ok (log_in sec now password user)
    unfolding authenticate
    IsAllowed-authenticate user e h =
        rw e (IsAllowed-check_user (lower (strip email)) password totp_code ip db user h)
