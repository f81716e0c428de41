-- ===== src/Identity/Users/LastAdmin.antt =====
-- No request leaves the system without an active administrator.
use mathlib.Core.Path.{subst}
use egreen_quanta_tes.Base.{
  ℕ, ◌+◌, ◌≤◌, String, ◌⊎◌, ◌≡◌, refl, ◌∙◌, Bool, true, false, not, ◌&&◌, none, some, List, [], ◌∷◌,
  arith, str_eq, eq_iff, find, Bool-cases, Option-cases, inl, inr,
}
use egreen_quanta_tes.Identity.Models.{
  User, is_admin, rank, Db, ok, err, ErrorCode, conflict, forbidden, save_user,
}
use egreen_quanta_tes.Identity.Tokens.{revoke_all_user_tokens}
use egreen_quanta_tes.Identity.Users.{
  UserUpdate, new_role, or_keep, deactivating, changes_role, deactivates, with_role, get_user,
  other_admins, guard_refuses, updated, update_found, update_user, drop_user, delete_found,
  delete_user,
}

abbrev pub is_active_admin : User → Bool
is_active_admin u = is_admin u.role && u.is_active

abbrev pub one_if : Bool → ℕ
one_if true = 1
one_if false = 0

-- The administrators that are active.
unfoldable pub admins : List User → ℕ
admins [] = 0
admins (u ∷ us) = one_if (is_active_admin u) + admins us

-- The primary key: no two rows have one id.
abbrev pub IsKeyed : List User → Type 0
IsKeyed [] = Unit
IsKeyed (u ∷ us) = (find (λ x. str_eq x.id u.id) us ≡ none) × IsKeyed us

other_admins-absent :
    (id : String) (us : List User)
    → find (λ x. str_eq x.id id) us ≡ none
    → other_admins id us ≡ admins us
unfolding other_admins admins
other_admins-absent id [] h = refl
other_admins-absent id (u ∷ us) h = ground (arith, other_admins-absent id us)

admins-split :
    (id : String) (u : User) (us : List User)
    → IsKeyed us
    → find (λ x. str_eq x.id id) us ≡ some u
    → admins us ≡ other_admins id us + one_if (is_active_admin u)
unfolding other_admins admins
admins-split id u [] k h = cc
admins-split id u (x ∷ xs) k h =
    ground (arith, admins-split id u xs, other_admins-absent id xs, eq_iff x.id id)

save_user-absent :
    (id : String) (v : User) (us : List User)
    → v.id ≡ id
    → find (λ x. str_eq x.id id) us ≡ none
    → save_user v us ≡ us
unfolding save_user
save_user-absent id v [] e h = refl
save_user-absent id v (x ∷ xs) e h =
    ground (arith, save_user-absent id v xs, eq_iff x.id v.id, eq_iff x.id id)

admins-save_user :
    (id : String) (u v : User) (us : List User)
    → IsKeyed us
    → v.id ≡ id
    → find (λ x. str_eq x.id id) us ≡ some u
    → admins (save_user v us) ≡ other_admins id us + one_if (is_active_admin v)
unfolding other_admins admins save_user
admins-save_user id u v [] k e h = cc
admins-save_user id u v (x ∷ xs) k e h = ground (
  arith,
  admins-save_user id u v xs,
  other_admins-absent id xs,
  save_user-absent id v xs,
  eq_iff x.id id,
  eq_iff x.id v.id,
  eq_iff v.id id,
)

admins-drop_user : (id : String) (us : List User) → admins (drop_user id us) ≡ other_admins id us
unfolding other_admins admins drop_user
admins-drop_user id [] = refl
admins-drop_user id (x ∷ xs) = ground (arith, admins-drop_user id xs)

-- Updating a row in a way that keeps an active administrator one, or with another one left.
admins-kept :
    (id : String) (u v : User) (us : List User)
    → IsKeyed us
    → v.id ≡ id
    → find (λ x. str_eq x.id id) us ≡ some u
    → 1 ≤ admins us
    → ((is_active_admin u ≡ true → is_active_admin v ≡ true) ⊎ (1 ≤ other_admins id us))
    → 1 ≤ admins (save_user v us)
admins-kept id u v us k e h a (inl keeps) =
    rw (admins-save_user id u v us k e h) (ground (arith, admins-split id u us k h))
admins-kept id u v us k e h a (inr others) = rw (admins-save_user id u v us k e h) (omega arith)

pub find-id :
    (id : String) (u : User) (us : List User) → find (λ x. str_eq x.id id) us ≡ some u → u.id ≡ id
find-id id u [] h = cc
find-id id u (x ∷ xs) h = ground (arith, find-id id u xs, eq_iff x.id id)

module _ (hash_password : String → String) (now : ℕ) where
  updated_guard :
      (payload : UserUpdate) (acting user : User) (db : Db) (r : User)
      → (update_found hash_password now payload acting user db).0 ≡ ok r
      → (is_active_admin user ≡ true
          → is_active_admin (updated hash_password now payload user) ≡ true)
        ⊎ (1 ≤ other_admins user.id db.users)
  unfolding update_found rank
  updated_guard payload acting user db r h =
      let v = updated hash_password now payload user in
      elim (Bool-cases (is_active_admin user && not (is_active_admin v))) [
        | inl loses ↦ inr (ground arith)
        | inr keeps ↦ inl (λ a. ground arith)
      ]

  pub update_found-users :
      (payload : UserUpdate) (acting user : User) (db : Db)
      → let (result, db') = update_found hash_password now payload acting user db in
        ((r : User) × (result ≡ ok r)
          × (db'.users ≡ save_user (updated hash_password now payload user) db.users))
        ⊎ (((c : ErrorCode) × (result ≡ err c)) × (db' ≡ db))
  unfolding update_found revoke_all_user_tokens
  update_found-users payload acting user db =
      elim (Bool-cases (
        changes_role hash_password now payload user
        && guard_refuses user (new_role (or_keep payload.role user.role)) db)) [
          | inl a ↦ rw a (inr ((conflict, refl), refl))
          | inr a ↦
              rw a
                (elim (Bool-cases
                  (deactivates hash_password now payload user && str_eq user.id acting.id)) [
                    | inl b ↦ rw b (inr ((forbidden, refl), refl))
                    | inr b ↦
                        rw b
                          (elim (Bool-cases (
                            deactivates hash_password now payload user
                            && guard_refuses (with_role hash_password now payload user) deactivating
                                db)) [
                                  | inl c ↦ rw c (inr ((conflict, refl), refl))
                                  | inr c ↦ rw c (
                                      inl (
                                        updated hash_password now payload user,
                                        refl,
                                        ground arith,
                                      ))
                                ])
                  ])
        ]

  pub updated-id :
      (payload : UserUpdate) (user : User) → (updated hash_password now payload user).id ≡ user.id
  unfolding updated
  updated-id payload user = refl

  found_keeps :
      (user_id : String) (payload : UserUpdate) (acting user : User) (db : Db)
      → IsKeyed db.users
      → 1 ≤ admins db.users
      → find (λ u. str_eq u.id user_id) db.users ≡ some user
      → let (result, db') = update_found hash_password now payload acting user db in
        ((r : User) × (result ≡ ok r)
            × (db'.users ≡ save_user (updated hash_password now payload user) db.users))
          ⊎ (((c : ErrorCode) × (result ≡ err c)) × (db' ≡ db))
        → 1 ≤ admins (update_found hash_password now payload acting user db).1.users
  found_keeps user_id payload acting user db k a e (inr (refused, same)) = rw same a
  found_keeps user_id payload acting user db k a e (inl (r, done, saved)) = rw saved (
      admins-kept user_id user (updated hash_password now payload user) db.users k
        (updated-id payload user ∙ find-id user_id user db.users e) e a
        (subst
          (λ i.
            (is_active_admin user ≡ true
              → is_active_admin (updated hash_password now payload user) ≡ true)
            ⊎ (1 ≤ other_admins i db.users))
          (find-id user_id user db.users e) (updated_guard payload acting user db r done)))

  -- If there is an active administrator, there is one after any call of `update_user`, whoever makes
  -- it and whatever it changes (the role, the activation or both), for a table with its key unique.
  pub update_user-HasAdmin :
      (user_id : String) (payload : UserUpdate) (acting : User) (db : Db)
      → IsKeyed db.users
      → 1 ≤ admins db.users
      → 1 ≤ admins (update_user hash_password now user_id payload acting db).1.users
  unfolding update_user get_user
  update_user-HasAdmin user_id payload acting db k a =
      elim (Option-cases (find (λ u. str_eq u.id user_id) db.users)) [
        | inl nobody ↦ rw (nobody, update_user) a
        | inr (user, e) ↦
            rw (e, update_user)
              (found_keeps user_id payload acting user db k a e
                (update_found-users payload acting user db))
      ]

-- If there is an active administrator, there is one after any call of `delete_user`, whoever makes it,
-- for a table with its key unique.
pub delete_user-HasAdmin :
    (now : ℕ) (user_id : String) (acting : User) (db : Db)
    → IsKeyed db.users
    → 1 ≤ admins db.users
    → 1 ≤ admins (delete_user now user_id acting db).1.users
unfolding delete_user delete_found get_user revoke_all_user_tokens
delete_user-HasAdmin now user_id acting db k a =
    elim (Option-cases (find (λ u. str_eq u.id user_id) db.users)) [
      | inl nobody ↦ rw (nobody, delete_user) a
      | inr (user, e) ↦
          rw (e, delete_user)
            (ground (
              arith,
              find-id user_id user db.users e,
              admins-split user_id user db.users k e,
              admins-drop_user user.id db.users,
            ))
    ]
