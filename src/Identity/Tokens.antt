-- ===== src/Identity/Tokens.antt =====
-- Refresh tokens of backend/app/services/auth.py: issue, rotation with reuse detection, revocation.
-- The opaque token, the new row's id and the new family's id are drawn at random in the source and
-- are arguments here.
pub mod Families
pub mod Rotation
pub mod Steps
mod Tests
use egreen_quanta_tes.Base.{
  ℕ, ◌+◌, String, Bool, true, false, not, ◌&&◌, Option, none, some, List, [], ◌∷◌, ◌++◌, str_eq,
  find, if◌then◌else◌,
}
use egreen_quanta_tes.Base.Text.{is_given, is_set, take_str}
use egreen_quanta_tes.Identity.Models.{
  User, UserRole, RefreshToken, Db, Result, ok, err, invalid_refresh, refresh_reuse,
  account_disabled, is_null, is_active,
}
use egreen_quanta_tes.Identity.Auth.{Security, seconds, hash_ip}

-- `(user_agent or "")[:255] or None`
abbrev agent_of : Option String → Option String
agent_of none = none
agent_of (some s) = let cut = take_str 255 s in if is_set cut then some cut else none

-- `family_id or new_uuid()`
abbrev family_or : Option String → String → String
family_or none fresh = fresh
family_or (some f) fresh = if is_set f then f else fresh

-- `row.revoked_at = now` for the rows that pass the test and are not revoked yet.
unfoldable pub revoke_where : (RefreshToken → Bool) → ℕ → List RefreshToken → List RefreshToken
revoke_where p now [] = []
revoke_where p now (t ∷ ts) =
    (if p t && is_null t.revoked_at then record t { revoked_at = some now } else t)
    ∷ revoke_where p now ts

-- `_revoke_family`
pub revoke_family : ℕ → String → Db → Db
unfolding revoke_where
revoke_family now family db = record db {
  refresh_tokens = revoke_where (λ t. str_eq t.family_id family) now db.refresh_tokens;
}

-- `revoke_all_user_tokens`
unfoldable pub revoke_all_user_tokens : ℕ → String → Db → Db
unfolding revoke_where
revoke_all_user_tokens now user_id db = record db {
  refresh_tokens = revoke_where (λ t. str_eq t.user_id user_id) now db.refresh_tokens;
}

-- The row of the presented token is marked as replaced; it is written back by its primary key.
pub replace_token : ℕ → String → String → List RefreshToken → List RefreshToken
replace_token now id new_hash [] = []
replace_token now id new_hash (t ∷ ts) =
    (if str_eq t.id id then record t { revoked_at = some now; replaced_by = some new_hash } else t)
    ∷ replace_token now id new_hash ts

-- `revoke_refresh` writes one row.
pub revoke_token : ℕ → String → List RefreshToken → List RefreshToken
revoke_token now id [] = []
revoke_token now id (t ∷ ts) =
    (if str_eq t.id id then record t { revoked_at = some now } else t) ∷ revoke_token now id ts

-- What is drawn for one new token.
pub record Drawn : Type 0 where
  pub raw : String
  pub row_id : String
  pub family : String

-- `select(RefreshToken).where(RefreshToken.token_hash == token_hash)`
pub token_by_hash : String → Db → Option RefreshToken
token_by_hash h db = find (λ t. str_eq t.token_hash h) db.refresh_tokens

-- `select(User).where(User.id == record.user_id)`
abbrev pub user_by_id : String → Db → Option User
user_by_id id db = find (λ u. str_eq u.id id) db.users

-- `user is None or not user.is_active`
abbrev usable : Option User → Option User
usable none = none
usable (some u) = if u.is_active then some u else none

module _ (sec : Security) (create_access_token : String → UserRole → String) (now : ℕ) where
  pub new_token : Drawn → String → String → Option String → Option String → RefreshToken
  new_token d user_id family user_agent ip = record {
    id = d.row_id;
    user_id = user_id;
    family_id = family;
    token_hash = sec.sha256 d.raw;
    issued_at = now;
    expires_at = now + seconds sec.refresh_token_ttl;
    revoked_at = none;
    replaced_by = none;
    user_agent = agent_of user_agent;
    ip_hash = hash_ip sec ip;
  }

  pub issue_token_pair :
      Drawn → User → Option String → Option String → Option String → Db → (String × String × ℕ) × Db
  unfolding new_token
  issue_token_pair d user user_agent ip family_id db = (
    (create_access_token user.id user.role, d.raw, sec.access_token_ttl),
    record db {
      refresh_tokens =
          db.refresh_tokens
          ++ new_token d user.id (family_or family_id d.family) user_agent ip ∷ [];
    },
  )

  abbrev Rotated : Type 0
  Rotated = Result (String × String × ℕ × User) × Db

  -- `rotate_refresh` for an active token, once its user is looked up.
  pub rotate_for : Drawn → RefreshToken → Option String → Option String → Db → Option User → Rotated
  unfolding new_token replace_token
  rotate_for d t user_agent ip db none = (err account_disabled, revoke_family now t.family_id db)
  rotate_for d t user_agent ip db (some user) = (
    ok (create_access_token user.id user.role, d.raw, sec.access_token_ttl, user),
    record db {
      refresh_tokens =
          replace_token now t.id (sec.sha256 d.raw) db.refresh_tokens
          ++ new_token d user.id t.family_id user_agent ip ∷ [];
    },
  )

  abbrev rotate_found : Drawn → Option String → Option String → Db → Option RefreshToken → Rotated
  rotate_found d user_agent ip db none = (err invalid_refresh, db)
  rotate_found d user_agent ip db (some t) =
      if not (is_active t now)
      then (err refresh_reuse, revoke_family now t.family_id db)
      else rotate_for d t user_agent ip db (usable (user_by_id t.user_id db))

  pub rotate_refresh : Drawn → String → Option String → Option String → Db → Rotated
  rotate_refresh d raw_refresh user_agent ip db =
      rotate_found d user_agent ip db (token_by_hash (sec.sha256 raw_refresh) db)

  abbrev revoke_found : Db → Option RefreshToken → Db
  revoke_found db none = db
  revoke_found db (some t) =
      if is_null t.revoked_at
      then record db { refresh_tokens = revoke_token now t.id db.refresh_tokens }
      else db

  pub revoke_refresh : String → Db → Db
  unfolding revoke_token
  revoke_refresh raw_refresh db = revoke_found db (token_by_hash (sec.sha256 raw_refresh) db)
