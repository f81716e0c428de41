-- ===== src/Identity/Access/Tests.antt =====
-- An analyst's token, before and after the account is disabled: the theorems about guards there.
use egreen_quanta_tes.Base.{String, ◌≡◌, refl, true, false, some, none, [], ◌∷◌}
use egreen_quanta_tes.Identity.Models.{User, Db, admin, analyst, ok}
use egreen_quanta_tes.Identity.Users.{
  UserUpdate, get_user, update_user, update_found, updated, guard_refuses, other_admins,
}
use egreen_quanta_tes.Identity.Access.{Decoded, payload}

abbrev plain_hash : String → String
plain_hash s = s

abbrev decode : String → Decoded
decode token = payload (some token)

abbrev nate : User
nate = record {
  id = "u2";
  email = "nate@egreen.local";
  full_name = "Nate Analyst";
  hashed_password = "pw";
  role = analyst;
  is_active = true;
  totp_secret = none;
  totp_enabled = false;
  failed_login_count = 0;
  locked_until = none;
  last_login_at = none;
}

abbrev ada : User
ada = record nate { id = "u1"; email = "ada@egreen.local"; role = admin }

abbrev directory : Db
directory = record { users = ada ∷ nate ∷ []; refresh_tokens = []; login_attempts = []; audit = [] }

abbrev disable : UserUpdate
disable = record { full_name = none; role = none; is_active = some false; password = none }

nate_found : get_user "u2" directory ≡ some nate
unfolding get_user
nate_found = refl

disabled :
    (update_user plain_hash 5 "u2" disable ada directory).0 ≡ ok (updated plain_hash 5 disable nate)
unfolding update_user get_user update_found guard_refuses other_admins updated
disabled = refl
