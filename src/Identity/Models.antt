-- ===== src/Identity/Models.antt =====
-- The rows of backend/app/models/{user,refresh_token,login_attempt}.py, the roles of
-- backend/app/models/enums.py, the tables of a session and the errors of the services. Instants are
-- microseconds since the epoch, in UTC.
use egreen_quanta_tes.Base.{
  ℕ, String, Bool, true, false, ◌&&◌, Option, none, some, List, [], ◌∷◌, str_eq, ltb, if◌then◌else◌,
}
use egreen_quanta_tes.Audit.Chain.{Row}

pub data UserRole : Type 0 where
  admin analyst auditor viewer : UserRole

-- `UserRole.rank`
unfoldable pub rank : UserRole → ℕ
rank viewer = 0
rank auditor = 1
rank analyst = 2
rank admin = 3

abbrev pub is_admin : UserRole → Bool
is_admin admin = true
is_admin _ = false

-- `User`
pub record User : Type 0 where
  pub id : String
  pub email : String
  pub full_name : String
  pub hashed_password : String
  pub role : UserRole
  pub is_active : Bool
  pub totp_secret : Option String
  pub totp_enabled : Bool
  pub failed_login_count : ℕ
  pub locked_until : Option ℕ
  pub last_login_at : Option ℕ

-- `User.is_locked`
abbrev pub locked_at : Option ℕ → ℕ → Bool
locked_at none now = false
locked_at (some until) now = ltb now until

unfoldable pub is_locked : User → ℕ → Bool
is_locked u now = locked_at u.locked_until now

-- `RefreshToken`
pub record RefreshToken : Type 0 where
  pub id : String
  pub user_id : String
  pub family_id : String
  pub token_hash : String
  pub issued_at : ℕ
  pub expires_at : ℕ
  pub revoked_at : Option ℕ
  pub replaced_by : Option String
  pub user_agent : Option String
  pub ip_hash : Option String

-- `revoked_at is None`
abbrev pub is_null : Option ℕ → Bool
is_null none = true
is_null (some t) = false

-- `RefreshToken.is_active`
unfoldable pub is_active : RefreshToken → ℕ → Bool
is_active t now = is_null t.revoked_at && ltb now t.expires_at

-- `LoginAttempt`
pub record LoginAttempt : Type 0 where
  pub email : String
  pub ip_hash : Option String
  pub success : Bool
  pub reason : Option String

pub record Db : Type 0 where
  pub users : List User
  pub refresh_tokens : List RefreshToken
  pub login_attempts : List LoginAttempt
  pub audit : List Row

-- The `code` of an `AuthError`, and the other errors of backend/app/core/exceptions.py.
pub data ErrorCode : Type 0 where
  invalid_credentials account_locked account_disabled mfa_required mfa_invalid : ErrorCode
  invalid_refresh refresh_reuse : ErrorCode
  not_authenticated token_expired token_invalid invalid_api_key api_key_inactive : ErrorCode
  forbidden conflict not_found rate_limited : ErrorCode

pub data Result {ℓ} (A : Type ℓ) : Type ℓ where
  ok : A → Result A
  err : ErrorCode → Result A

-- The changed row of an ORM session is written back by its primary key.
unfoldable pub save_user : User → List User → List User
save_user u [] = []
save_user u (x ∷ xs) = (if str_eq x.id u.id then u else x) ∷ save_user u xs
