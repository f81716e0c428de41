-- ===== src/Identity/Users.antt =====
-- backend/app/services/users.py: accounts, and the guard of the last administrator. The session does
-- not flush by itself, so the guard's query reads the table as it was committed; after an error the
-- session is rolled back.
pub mod LastAdmin
pub mod Sessions
mod Tests
use egreen_quanta_tes.Base.{
  ℕ, ◌+◌, String, Bool, true, false, not, ◌&&◌, ◌||◌, Option, none, some, List, [], ◌∷◌, ◌++◌, ◌==◌,
  str_eq, find, keep, length, if◌then◌else◌,
}
use egreen_quanta_tes.Base.Text.{lower, strip}
use egreen_quanta_tes.Identity.Models.{
  User, UserRole, is_admin, rank, Db, Result, ok, err, conflict, not_found, forbidden, save_user,
}
use egreen_quanta_tes.Identity.Tokens.{revoke_all_user_tokens}

-- `UserUpdate`
pub record UserUpdate : Type 0 where
  pub full_name : Option String
  pub role : Option UserRole
  pub is_active : Option Bool
  pub password : Option String

-- `UserCreate`
pub record UserCreate : Type 0 where
  pub email : String
  pub full_name : String
  pub role : UserRole
  pub password : String

-- Two roles are equal when their ranks are.
abbrev pub same_role : UserRole → UserRole → Bool
unfolding rank
same_role a b = rank a == rank b

abbrev pub same_bool : Bool → Bool → Bool
same_bool true b = b
same_bool false b = not b

-- `get_user`
unfoldable pub get_user : String → Db → Option User
get_user id db = find (λ u. str_eq u.id id) db.users

-- The query of `_guard_last_admin`: the other administrators that are active.
unfoldable pub other_admins : String → List User → ℕ
other_admins id users =
    length (keep (λ u. is_admin u.role && u.is_active && not (str_eq u.id id)) users)

-- What `_guard_last_admin` is asked about.
pub data Change : Type 0 where
  new_role : UserRole → Change
  deactivating deleting : Change

abbrev pub is_removal : Change → Bool
is_removal (new_role r) = not (is_admin r)
is_removal deactivating = true
is_removal deleting = true

-- `_guard_last_admin`: `true` where it raises `ConflictError`.
unfoldable pub guard_refuses : User → Change → Db → Bool
unfolding other_admins
guard_refuses user change db =
    is_admin user.role && is_removal change && (other_admins user.id db.users == 0)

abbrev pub or_keep {ℓ} : {A : Type ℓ} → Option A → A → A
or_keep none a = a
or_keep (some b) a = b

-- The two kinds of request that revoke all tokens of the user.
abbrev pub revoke_if : Bool → ℕ → String → Db → Db
revoke_if b now id db = if b then revoke_all_user_tokens now id db else db

abbrev pub is_some {ℓ} : {A : Type ℓ} → Option A → Bool
is_some none = false
is_some (some a) = true

module _ (hash_password : String → String) (now : ℕ) where
  unfoldable pub new_user : String → String → UserCreate → User
  new_user new_id email payload = record {
    id = new_id;
    email = email;
    full_name = payload.full_name;
    hashed_password = hash_password payload.password;
    role = payload.role;
    is_active = true;
    totp_secret = none;
    totp_enabled = false;
    failed_login_count = 0;
    locked_until = none;
    last_login_at = none;
  }

  -- `create_user`; the id is a new UUID.
  unfoldable pub create_user : String → UserCreate → Db → Result User × Db
  unfolding new_user
  create_user new_id payload db =
      let email = lower (strip payload.email) in
      elim (find (λ u. str_eq u.email email) db.users) [
        | some u ↦ (err conflict, db)
        | none ↦
            let user : User = new_user new_id email payload in
            (ok user, record db { users = db.users ++ user ∷ [] })
      ]

  -- `payload.role is not None and payload.role != user.role`
  abbrev changes_role : UserUpdate → User → Bool
  changes_role payload user =
      is_some payload.role && not (same_role (or_keep payload.role user.role) user.role)

  abbrev changes_active : UserUpdate → User → Bool
  changes_active payload user =
      is_some payload.is_active
      && not (same_bool (or_keep payload.is_active user.is_active) user.is_active)

  abbrev pub deactivates : UserUpdate → User → Bool
  deactivates payload user =
      changes_active payload user && not (or_keep payload.is_active user.is_active)

  -- The row that `update_user` writes.
  unfoldable pub updated : UserUpdate → User → User
  updated payload user = record user {
    full_name = or_keep payload.full_name user.full_name;
    role = or_keep payload.role user.role;
    is_active = or_keep payload.is_active user.is_active;
    hashed_password = elim payload.password [
      | none ↦ user.hashed_password
      | some pw ↦ hash_password pw
    ];
  }

  -- The role is assigned before the second guard is asked.
  abbrev with_role : UserUpdate → User → User
  with_role payload user = record user { role = or_keep payload.role user.role }

  unfoldable pub update_found : UserUpdate → User → User → Db → Result User × Db
  unfolding updated guard_refuses
  update_found payload acting_user user db =
      if changes_role payload user
        && guard_refuses user (new_role (or_keep payload.role user.role)) db
      then (err conflict, db)
      else if deactivates payload user && str_eq user.id acting_user.id
      then (err forbidden, db)
      else if deactivates payload user && guard_refuses (with_role payload user) deactivating db
      then (err conflict, db)
      else (
        ok (updated payload user),
        revoke_if (is_some payload.password) now user.id (
            revoke_if (deactivates payload user) now user.id
              (record db { users = save_user (updated payload user) db.users })),
      )

  unfoldable pub update_user : String → UserUpdate → User → Db → Result User × Db
  update_user user_id payload acting_user db = elim (get_user user_id db) [
    | none ↦ (err not_found, db)
    | some user ↦ update_found payload acting_user user db
  ]

-- `session.delete(user)`; the tokens of the user go with it (`ondelete="CASCADE"`).
pub drop_user : String → List User → List User
drop_user id [] = []
drop_user id (u ∷ us) = let rest = drop_user id us in if str_eq u.id id then rest else u ∷ rest

pub delete_found : ℕ → User → User → Db → Result (Unit {0}) × Db
unfolding guard_refuses drop_user
delete_found now acting_user user db =
    if str_eq user.id acting_user.id
    then (err forbidden, db)
    else if guard_refuses user deleting db
    then (err conflict, db)
    else (
      ok tt,
      record (revoke_all_user_tokens now user.id db) {
        users = drop_user user.id db.users;
        refresh_tokens = keep (λ t. not (str_eq t.user_id user.id)) db.refresh_tokens;
      },
    )

pub delete_user : ℕ → String → User → Db → Result (Unit {0}) × Db
delete_user now user_id acting_user db = elim (get_user user_id db) [
  | none ↦ (err not_found, db)
  | some user ↦ delete_found now acting_user user db
]
