-- ===== src/Identity/Users/Tests.antt =====
-- A directory with one administrator: the theorems about account changes at concrete requests.
use egreen_quanta_tes.Base.{◌≤◌, String, ◌≡◌, refl, true, false, some, none, [], ◌∷◌, arith}
use egreen_quanta_tes.Identity.Models.{User, Db, admin, analyst, RefreshToken, ok}
use egreen_quanta_tes.Identity.Users.{
  UserUpdate, UserCreate, get_user, update_user, updated, update_found, guard_refuses, other_admins,
}
use egreen_quanta_tes.Identity.Users.LastAdmin.{admins, IsKeyed, update_user-HasAdmin}
use egreen_quanta_tes.Identity.Users.Sessions.{IsSignedOut, update_user-IsSignedOut}

abbrev plain_hash : String → String
plain_hash s = s

abbrev ada : User
ada = record {
  id = "u1";
  email = "ada@egreen.local";
  full_name = "Ada Admin";
  hashed_password = "pw";
  role = admin;
  is_active = true;
  totp_secret = none;
  totp_enabled = false;
  failed_login_count = 0;
  locked_until = none;
  last_login_at = none;
}

abbrev nate : User
nate = record ada { id = "u2"; email = "nate@egreen.local"; role = analyst }

abbrev session : RefreshToken
session = record {
  id = "t1";
  user_id = "u2";
  family_id = "f1";
  token_hash = "h1";
  issued_at = 1;
  expires_at = 1000;
  revoked_at = none;
  replaced_by = none;
  user_agent = none;
  ip_hash = none;
}

abbrev directory : Db
directory = record {
  users = ada ∷ nate ∷ [];
  refresh_tokens = session ∷ [];
  login_attempts = [];
  audit = [];
}

abbrev demote : UserUpdate
demote = record { full_name = none; role = some analyst; is_active = none; password = none }

abbrev disable : UserUpdate
disable = record { full_name = none; role = none; is_active = some false; password = none }

abbrev grace : UserCreate
grace = record {
  email = " Grace@egreen.local";
  full_name = "Grace";
  role = analyst;
  password = "pw";
}

directory-IsKeyed : IsKeyed directory.users
directory-IsKeyed = (refl, (refl, tt))

one_admin : 1 ≤ admins directory.users
unfolding admins
one_admin = omega arith

update_user-HasAdmin_example :
    1 ≤ admins (update_user plain_hash 5 "u1" demote nate directory).1.users
update_user-HasAdmin_example =
    update_user-HasAdmin plain_hash 5 "u1" demote nate directory directory-IsKeyed one_admin

nate_found : get_user "u2" directory ≡ some nate
unfolding get_user
nate_found = refl

disabled :
    (update_user plain_hash 5 "u2" disable ada directory).0 ≡ ok (updated plain_hash 5 disable nate)
unfolding update_user get_user update_found guard_refuses other_admins updated
disabled = refl

update_user-IsSignedOut_example :
    IsSignedOut "u2" (update_user plain_hash 5 "u2" disable ada directory).1.refresh_tokens
update_user-IsSignedOut_example =
    update_user-IsSignedOut plain_hash 5 "u2" disable ada nate (updated plain_hash 5 disable nate)
      directory nate_found refl disabled
