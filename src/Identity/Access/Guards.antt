-- ===== src/Identity/Access/Guards.antt =====
-- Whom the guards let in.
use egreen_quanta_tes.Base.{
  ℕ, ◌≤◌, String, ◌≡◌, refl, ◌∙◌, sym, ap, ◌↔◌, true, false, Option, none, some, List, [], ◌∷◌,
  arith, str_eq, eq_iff, eq_refl, find, leb, leb→le, le→leb, Bool-cases, inl, inr,
}
use egreen_quanta_tes.Base.Text.{is_set}
use egreen_quanta_tes.Identity.Models.{
  User, UserRole, rank, Db, Result, ok, err, account_disabled, save_user,
}
use egreen_quanta_tes.Identity.Users.{
  UserUpdate, get_user, update_user, update_found, updated, deactivates,
}
use egreen_quanta_tes.Identity.Users.LastAdmin.{update_found-users, updated-id, find-id}
use egreen_quanta_tes.Identity.Access.{
  Decoded, expired_signature, other_error, payload, get_current_user, available, subject, user_of,
  bearer, and_then, require_min_role,
}

-- The caller is the enabled user whom the token names.
pub record IsCaller (decode : String → Decoded) (creds : Option String) (db : Db) (user : User)
    : Type 0 where
  pub token : String
  pub given : creds ≡ some token
  pub token_set : is_set token ≡ true
  pub id : String
  pub id_set : is_set id ≡ true
  pub decoded : decode token ≡ payload (some id)
  pub found : get_user id db ≡ some user
  pub enabled : user.is_active ≡ true

available-ok :
    (o : Option User) (u : User) → available o ≡ ok u → (o ≡ some u) × (u.is_active ≡ true)
available-ok none u e = cc
available-ok (some v) u e = (ground arith, ground arith)

subject-ok :
    (sub : Option String) (db : Db) (u : User)
    → subject sub db ≡ ok u
    → (id : String) × (sub ≡ some id)
      × (is_set id ≡ true)
      × (get_user id db ≡ some u)
      × (u.is_active ≡ true)
subject-ok none db u e = cc
subject-ok (some id) db u e = elim (Bool-cases (is_set id)) [
  | inr unset ↦ ground arith
  | inl set ↦
      let (found, enabled) = available-ok (get_user id db) u (ground arith) in
      (id, refl, set, found, enabled)
]

user_of-ok :
    (d : Decoded) (db : Db) (u : User)
    → user_of d db ≡ ok u
    → (id : String) × (d ≡ payload (some id))
      × (is_set id ≡ true)
      × (get_user id db ≡ some u)
      × (u.is_active ≡ true)
user_of-ok expired_signature db u e = cc
user_of-ok other_error db u e = cc
user_of-ok (payload sub) db u e =
    let (id, same, set, found, enabled) = subject-ok sub db u e in
    (id, ap payload same, set, found, enabled)

current-IsCaller :
    (decode : String → Decoded) (creds : Option String) (db : Db) (u : User)
    → get_current_user decode creds db ≡ ok u
    → IsCaller decode creds db u
unfolding get_current_user
current-IsCaller decode none db u e = cc
current-IsCaller decode (some token) db u e = elim (Bool-cases (is_set token)) [
  | inr unset ↦ ground arith
  | inl set ↦
      let (id, decoded, id_set, found, enabled) = user_of-ok (decode token) db u (ground arith) in
      record {
        token = token;
        given = refl;
        token_set = set;
        id = id;
        id_set = id_set;
        decoded = decoded;
        found = found;
        enabled = enabled;
      }
]

IsCaller-current :
    (decode : String → Decoded) (creds : Option String) (db : Db) (u : User)
    → IsCaller decode creds db u
    → get_current_user decode creds db ≡ ok u
unfolding get_current_user
IsCaller-current decode creds db u c =
    rw (c.given, bearer)
      (rw c.token_set
        (rw (c.decoded, user_of) (rw c.id_set (rw (c.found, available) (rw c.enabled refl)))))

min_role-ok :
    (minimum : UserRole) (r : Result User) (u : User)
    → require_min_role minimum r ≡ ok u
    → (r ≡ ok u) × (rank minimum ≤ rank u.role)
unfolding require_min_role
min_role-ok minimum (err c) u e = cc
min_role-ok minimum (ok v) u e = elim (Bool-cases (leb (rank minimum) (rank v.role))) [
  | inr low ↦ ground arith
  | inl high ↦
      let same : ok v ≡ ok u = ground arith in
      (same, ground (arith, leb→le (rank minimum) (rank v.role) high))
]

-- An endpoint with a minimum role is entered as the given user exactly when the request bears a token
-- that decodes to the id of that user, the account is enabled, and its role ranks at least as high.
pub require_min_role-ok_iff :
    (decode : String → Decoded) (creds : Option String) (db : Db) (minimum : UserRole) (u : User)
    → require_min_role minimum (get_current_user decode creds db) ≡ ok u
      ↔ (IsCaller decode creds db u × (rank minimum ≤ rank u.role))
unfolding require_min_role
require_min_role-ok_iff decode creds db minimum u = (
  (λ e.
      let (current, high) = min_role-ok minimum (get_current_user decode creds db) u e in
      (current-IsCaller decode creds db u current, high)),
  λ (c, high).
      rw (IsCaller-current decode creds db u c, and_then)
        (rw (le→leb (rank minimum) (rank u.role) high) refl),
)

find-save_user :
    (id : String) (u v : User) (us : List User)
    → find (λ x. str_eq x.id id) us ≡ some u
    → v.id ≡ id
    → find (λ x. str_eq x.id id) (save_user v us) ≡ some v
unfolding save_user
find-save_user id u v [] e same = cc
find-save_user id u v (x ∷ xs) e same =
    ground (arith, find-save_user id u v xs, eq_iff x.id v.id, eq_iff v.id id, eq_refl v.id)

not_available :
    (o : Option User) (v : User)
    → o ≡ some v
    → v.is_active ≡ false
    → available o ≡ err account_disabled
not_available o v e off = rw (e, available) (rw off refl)

update_user-found :
    (hash_password : String → String) (now : ℕ) (id : String) (change : UserUpdate)
    (acting user : User) (db : Db)
    → get_user id db ≡ some user
    → update_user hash_password now id change acting db
      ≡ update_found hash_password now change acting user db
unfolding update_user
update_user-found hash_password now id change acting user db found = rw (found, update_user) refl

found_changed :
    (hash_password : String → String) (now : ℕ) (id : String) (change : UserUpdate)
    (acting user r : User) (db : Db)
    → get_user id db ≡ some user
    → (update_user hash_password now id change acting db).0 ≡ ok r
    → get_user id (update_found hash_password now change acting user db).1
      ≡ some (updated hash_password now change user)
unfolding get_user
found_changed hash_password now id change acting user r db found done =
    elim (update_found-users hash_password now change acting user db) [
      | inl (r', ok', saved) ↦ rw saved (
          find-save_user id user (updated hash_password now change user) db.users found
            (updated-id hash_password now change user ∙ find-id id user db.users found))
      | inr ((c, refused), same) ↦
          let clash : err c ≡ ok r =
            sym refused
            ∙ (ap (λ x. x.0)
                  (sym (update_user-found hash_password now id change acting user db found))
                ∙ done) in
          cc
    ]

updated-disabled :
    (hash_password : String → String) (now : ℕ) (change : UserUpdate) (user : User)
    → deactivates hash_password now change user ≡ true
    → (updated hash_password now change user).is_active ≡ false
unfolding updated
updated-disabled hash_password now change user off = ground arith

-- After an update that went through and disabled the account it found, every token that decodes to the
-- id of that account is refused: the caller is told that the account is disabled, at once and not
-- only when the token expires.
pub get_current_user-update_user :
    (hash_password : String → String) (now : ℕ) (id : String) (change : UserUpdate)
    (acting user r : User) (db : Db)
    → (decode : String → Decoded) (token : String) → get_user id db ≡ some user
    → deactivates hash_password now change user ≡ true
    → (update_user hash_password now id change acting db).0 ≡ ok r
    → is_set token ≡ true
    → is_set id ≡ true
    → decode token ≡ payload (some id)
    → get_current_user decode (some token) (update_user hash_password now id change acting db).1
      ≡ err account_disabled
unfolding get_current_user update_user
get_current_user-update_user hash_password now id change acting user r db decode token found off
      done token_set id_set decoded =
    rw token_set (
      rw (decoded, user_of)
        (rw id_set (
          rw (found, update_user)
            (not_available (get_user id (update_found hash_password now change acting user db).1)
              (updated hash_password now change user)
              (found_changed hash_password now id change acting user r db found done)
              (updated-disabled hash_password now change user off)))))
