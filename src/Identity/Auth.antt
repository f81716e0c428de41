-- ===== src/Identity/Auth.antt =====
-- `authenticate` and `_record_attempt` of backend/app/services/auth.py, with what they use of
-- backend/app/core/security.py and of backend/app/services/audit/events.py.
pub mod Outcome
pub mod Lockout
pub mod Trail
mod Tests
use Prim.Native.String.{◌++◌ as append_str}
use egreen_quanta_tes.Base.{
  ℕ, ◌+◌, ◌*◌, String, Bool, true, false, not, ◌&&◌, ◌||◌, Option, none, some, List, [], ◌∷◌, ◌++◌,
  str_eq, leb, find, if◌then◌else◌,
}
use egreen_quanta_tes.Base.Text.{is_given, is_digit, lower, strip}
use egreen_quanta_tes.Audit.Value.{Fields, str, end, field, opt_str}
use egreen_quanta_tes.Audit.Chain.{Platform, Entry, append}
use egreen_quanta_tes.Identity.Models.{
  User, Db, LoginAttempt, Result, ok, err, invalid_credentials, account_locked, account_disabled,
  mfa_required, mfa_invalid, is_locked, save_user,
}

-- The libraries behind security.py: `PasswordHasher` (`hash` is this call's, with its salt),
-- `pyotp.TOTP(secret).verify` and SHA-256; and the settings that are read.
pub record Security : Type 0 where
  pub verify_password : String → String → Bool
  pub hash_password : String → String
  pub password_needs_rehash : String → Bool
  pub totp_matches : String → String → Bool
  pub sha256 : String → String
  pub secret_key : String
  pub login_max_attempts : ℕ
  pub login_lockout_seconds : ℕ
  pub refresh_token_ttl : ℕ
  pub access_token_ttl : ℕ

abbrev pub seconds : ℕ → ℕ
seconds n = n * 1000000

-- `hash_ip`
pub hash_ip : Security → Option String → Option String
hash_ip sec none = none
hash_ip sec (some ip) =
    if is_given (some ip)
    then some (sec.sha256 (append_str sec.secret_key (append_str ":" ip)))
    else none

-- `verify_totp`
pub verify_totp : Security → String → String → Bool
verify_totp sec secret totp = is_digit totp && sec.totp_matches secret totp

abbrev with_secret : Option String → (String → Bool) → Bool
with_secret none f = false
with_secret (some secret) f = is_given (some secret) && f secret

-- `user.totp_secret and verify_totp(user.totp_secret, totp_code)`
pub totp_passes : Security → User → Option String → Bool
totp_passes sec user none = false
totp_passes sec user (some totp) =
    with_secret user.totp_secret (λ secret. verify_totp sec secret totp)

abbrev action_of : Bool → String
action_of true = "auth.login.success"
action_of false = "auth.login.failure"

-- `auth_event`, as `_record_attempt` calls it.
pub auth_event : Security → String → Option String → Bool → Option String → Entry
unfolding hash_ip
auth_event sec email ip success reason = record {
  action = action_of success;
  actor_id = none;
  actor_type = "anon";
  target_type = some "user";
  target_id = none;
  meta =
      field "email" (str email)
        (field "ip_hash" (opt_str (hash_ip sec ip)) (field "reason" (opt_str reason) end));
}

-- `select(User).where(User.email == email)`
pub user_by_email : String → Db → Option User
user_by_email email db = find (λ u. str_eq u.email email) db.users

module _ (sec : Security) (now : ℕ) where
  -- A wrong password is counted; at the limit the account is locked and the count begins anew.
  pub locks : User → Bool
  locks user = leb sec.login_max_attempts (user.failed_login_count + 1)

  pub count_failure : User → User
  unfolding locks
  count_failure user =
      if locks user
      then record user {
        locked_until = some (now + seconds sec.login_lockout_seconds);
        failed_login_count = 0;
      }
      else record user { failed_login_count = user.failed_login_count + 1 }

  abbrev failure_reason : User → String
  failure_reason user = if locks user then "bad_password_locked" else "bad_password"

  -- The changes of a login that succeeds.
  pub log_in : String → User → User
  log_in password user = record user {
    hashed_password =
        if sec.password_needs_rehash user.hashed_password
        then sec.hash_password password
        else user.hashed_password;
    failed_login_count = 0;
    locked_until = none;
    last_login_at = some now;
  }

module _ (p : Platform) (sec : Security) (now : ℕ) where
  -- `_record_attempt`: one login attempt and one audit row.
  pub record_attempt : String → Option String → Bool → Option String → Db → Db
  unfolding hash_ip
  record_attempt email ip success reason db = record db {
    login_attempts =
        db.login_attempts
        ++ record {
          email = lower email;
          ip_hash = hash_ip sec ip;
          success = success;
          reason = reason;
        }
          ∷ [];
    audit = append p now (auth_event sec (lower email) ip success reason) db.audit;
  }

  abbrev refuse : String → Option String → Db → String → Result User → Result User × Db
  refuse email ip db reason e = (e, record_attempt email ip false (some reason) db)

  -- `authenticate` once the user is found.
  pub check_user : String → String → Option String → Option String → Db → User → Result User × Db
  unfolding record_attempt
  check_user email password totp_code ip db user =
      if is_locked user now
      then refuse email ip db "locked" (err account_locked)
      else if not (sec.verify_password password user.hashed_password)
      then refuse email ip (record db { users = save_user (count_failure sec now user) db.users })
          (failure_reason sec now user) (err invalid_credentials)
      else if not user.is_active
      then refuse email ip db "disabled" (err account_disabled)
      else if user.totp_enabled && not (is_given totp_code)
      then refuse email ip db "mfa_required" (err mfa_required)
      else if user.totp_enabled && not (totp_passes sec user totp_code)
      then refuse email ip db "mfa_bad" (err mfa_invalid)
      else (
        ok (log_in sec now password user),
        record_attempt email ip true none
            (record db { users = save_user (log_in sec now password user) db.users }),
      )

  abbrev found :
      String → String → Option String → Option String → Db → Option User → Result User × Db
  found email password totp_code ip db none =
      refuse email ip db "no_such_user" (err invalid_credentials)
  found email password totp_code ip db (some user) = check_user email password totp_code ip db user

  pub authenticate : String → String → Option String → Option String → Db → Result User × Db
  authenticate email password totp_code ip db =
      let email_norm = lower (strip email) in
      found email_norm password totp_code ip db (user_by_email email_norm db)
