-- ===== src/Identity/Access.antt =====
-- backend/app/api/deps.py: who may call an endpoint. `decode_access_token` calls the JWT package: what
-- it makes of a token is an argument.
pub mod Guards
mod Tests
use egreen_quanta_tes.Base.{
  ℕ, String, Bool, true, false, not, Option, none, some, List, [], ◌∷◌, ◌||◌, any, leb,
  if◌then◌else◌,
}
use egreen_quanta_tes.Base.Text.{is_set}
use egreen_quanta_tes.Identity.Models.{
  User, UserRole, rank, Db, Result, ok, err, not_authenticated, token_expired, token_invalid,
  account_disabled, forbidden,
}
use egreen_quanta_tes.Identity.Users.{same_role, get_user}
use egreen_quanta_tes.Identity.ApiKeys.{ApiKey, ApiKeyScope, verify_api_key}

-- What `decode_access_token` does: it raises, or returns the payload, of which `sub` is read.
pub data Decoded : Type 0 where
  expired_signature other_error : Decoded
  payload : Option String → Decoded

-- `user is None or not user.is_active`
abbrev pub available : Option User → Result User
available none = err account_disabled
available (some user) = if not user.is_active then err account_disabled else ok user

abbrev pub subject : Option String → Db → Result User
subject none db = err token_invalid
subject (some id) db = if not (is_set id) then err token_invalid else available (get_user id db)

abbrev pub user_of : Decoded → Db → Result User
user_of expired_signature db = err token_expired
user_of other_error db = err token_invalid
user_of (payload sub) db = subject sub db

abbrev pub bearer : (String → Decoded) → Option String → Db → Result User
bearer decode none db = err not_authenticated
bearer decode (some token) db =
    if not (is_set token) then err not_authenticated else user_of (decode token) db

-- `get_current_user`
unfoldable pub get_current_user : (String → Decoded) → Option String → Db → Result User
get_current_user decode creds db = bearer decode creds db

abbrev pub and_then {ℓ κ} : {A : Type ℓ} {B : Type κ} → Result A → (A → Result B) → Result B
and_then (ok a) f = f a
and_then (err e) f = err e

-- `require_role`
unfoldable pub require_role : List UserRole → Result User → Result User
require_role roles current =
    and_then current (λ user. if any (same_role user.role) roles then ok user else err forbidden)

-- `require_min_role`
unfoldable pub require_min_role : UserRole → Result User → Result User
require_min_role minimum current =
    and_then current
      (λ user. if leb (rank minimum) (rank user.role) then ok user else err forbidden)

-- `require_api_key`
unfoldable pub require_api_key :
    (String → String) → ℕ → Option String → ApiKeyScope → List ApiKey → Result ApiKey × List ApiKey
require_api_key hash_token now none scope keys = (err not_authenticated, keys)
require_api_key hash_token now (some raw) scope keys =
    if not (is_set raw)
    then (err not_authenticated, keys)
    else verify_api_key hash_token now raw scope keys
