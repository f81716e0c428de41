-- ===== src/Identity/Auth/Tests.antt =====
-- A login service with three attempts, and the theorems about logins at concrete calls.
use egreen_quanta_tes.Base.{◌≡◌, refl, true, false, inl, some, none, [], ◌∷◌, arith, str_eq, All}
use egreen_quanta_tes.Base.Text.{lower, strip}
use egreen_quanta_tes.Audit.Chain.{Platform}
use egreen_quanta_tes.Identity.Models.{
  User, Db, analyst, ok, err, account_locked, is_locked, save_user,
}
use egreen_quanta_tes.Identity.Auth.{Security, log_in, user_by_email, authenticate}
use egreen_quanta_tes.Identity.Auth.Outcome.{
  IsAllowed, IsLoggedIn, authenticate-IsAllowed, IsAllowed-authenticate,
}
use egreen_quanta_tes.Identity.Auth.Lockout.{Guess, guesses, lockout}

abbrev plain : Platform
plain = record {
  sha256 = λ s. s;
  dumps = λ v. "{}";
  isoformat = λ t. "t";
  decimal = λ n. "n";
  sign = none;
}

abbrev three_attempts : Security
three_attempts = record {
  verify_password = str_eq;
  hash_password = λ s. s;
  password_needs_rehash = λ s. false;
  totp_matches = str_eq;
  sha256 = λ s. s;
  secret_key = "k";
  login_max_attempts = 3;
  login_lockout_seconds = 300;
  refresh_token_ttl = 1000;
  access_token_ttl = 900;
}

abbrev nate : User
nate = record {
  id = "u2";
  email = "nate@egreen.local";
  full_name = "Nate Analyst";
  hashed_password = "correct horse";
  role = analyst;
  is_active = true;
  totp_secret = none;
  totp_enabled = false;
  failed_login_count = 1;
  locked_until = some 4;
  last_login_at = none;
}

abbrev db : Db
db = record { users = nate ∷ []; refresh_tokens = []; login_attempts = []; audit = [] }

abbrev bad : Guess
bad = record { at = 5; password = "letmein"; totp_code = none; ip = none }

abbrev good : Guess
good = record { at = 6; password = "correct horse"; totp_code = none; ip = none }

nate_found : user_by_email (lower (strip " Nate@Egreen.local")) db ≡ some nate
unfolding user_by_email lower strip
nate_found = refl

nate-IsAllowed : IsAllowed plain three_attempts 6 nate "correct horse" none
unfolding is_locked
nate-IsAllowed = record {
  unlocked = refl;
  password_ok = refl;
  enabled = refl;
  second_factor = inl refl;
}

logged_in :
    (authenticate plain three_attempts 6 " Nate@Egreen.local" "correct horse" none none db).0
    ≡ ok (log_in three_attempts 6 "correct horse" nate)
logged_in =
    IsAllowed-authenticate plain three_attempts 6 " Nate@Egreen.local" "correct horse" none none db
      nate nate_found nate-IsAllowed

authenticate-IsAllowed_example :
    (user : User) × (user_by_email (lower (strip " Nate@Egreen.local")) db ≡ some user)
    × IsAllowed plain three_attempts 6 user "correct horse" none
    × IsLoggedIn plain three_attempts 6 "correct horse" user
        (log_in three_attempts 6 "correct horse" nate)
    × ((authenticate plain three_attempts 6 " Nate@Egreen.local" "correct horse" none none
          db).1.users
        ≡ save_user (log_in three_attempts 6 "correct horse" nate) db.users)
authenticate-IsAllowed_example =
    authenticate-IsAllowed plain three_attempts 6 " Nate@Egreen.local" "correct horse" none none db
      (log_in three_attempts 6 "correct horse" nate) logged_in

unlocked : All (λ x. is_locked nate x.at ≡ false) (bad ∷ bad ∷ [])
unfolding is_locked
unlocked = (refl, (refl, tt))

-- Two wrong passwords after a lock has expired, with one counted before, and then the right one.
lockout_example :
    let after = guesses plain three_attempts " Nate@Egreen.local" db (bad ∷ bad ∷ []) in
    let (result, db') =
      authenticate plain three_attempts 6 " Nate@Egreen.local" "correct horse" none none after in
    (result ≡ err account_locked) × (db'.users ≡ after.users)
lockout_example =
    lockout plain three_attempts " Nate@Egreen.local" (bad ∷ []) bad db nate good nate_found
      unlocked refl (refl, (refl, tt)) (omega arith)
