-- ===== src/Identity/Users/Sessions.antt =====
-- What an account change does to the sessions of the account, and to the addresses in use.
use egreen_quanta_tes.Base.{
  ℕ, String, ◌≡◌, refl, Bool, true, false, ◌||◌, ◌&&◌, none, some, List, [], ◌∷◌, arith, str_eq,
  eq_refl, find, find-append, find-append_other, All, Bool-cases, Option-cases, inl, inr, ◌⊎◌,
}
use egreen_quanta_tes.Base.Text.{lower, strip}
use egreen_quanta_tes.Identity.Models.{
  User, RefreshToken, Db, ok, err, conflict, is_null, save_user,
}
use egreen_quanta_tes.Identity.Tokens.{revoke_where, revoke_all_user_tokens}
use egreen_quanta_tes.Identity.Users.{
  UserUpdate, UserCreate, get_user, updated, update_found, update_user, create_user, new_user,
  deactivates, is_some, changes_role, guard_refuses, new_role, or_keep, with_role, deactivating,
  revoke_if,
}

-- Every token of the user is revoked.
abbrev pub IsSignedOut : String → List RefreshToken → Type 0
IsSignedOut id = All (λ t. str_eq t.user_id id ≡ true → is_null t.revoked_at ≡ false)

revoke_where-IsSignedOut :
    (now : ℕ) (id : String) (ts : List RefreshToken)
    → IsSignedOut id (revoke_where (λ t. str_eq t.user_id id) now ts)
unfolding revoke_where
revoke_where-IsSignedOut now id [] = tt
revoke_where-IsSignedOut now id (t ∷ ts) = (λ own. ground arith, revoke_where-IsSignedOut now id ts)

module _ (hash_password : String → String) (now : ℕ) where
  revoke_if-IsSignedOut :
      (a b : Bool) (id : String) (db : Db)
      → b || a ≡ true
      → IsSignedOut id (revoke_if a now id (revoke_if b now id db)).refresh_tokens
  unfolding revoke_all_user_tokens
  revoke_if-IsSignedOut true b id db cause =
      revoke_where-IsSignedOut now id (revoke_if b now id db).refresh_tokens
  revoke_if-IsSignedOut false true id db cause = revoke_where-IsSignedOut now id db.refresh_tokens
  revoke_if-IsSignedOut false false id db cause = cc

  found_signs_out :
      (payload : UserUpdate) (acting user r : User) (db : Db)
      → deactivates hash_password now payload user || is_some payload.password ≡ true
      → (update_found hash_password now payload acting user db).0 ≡ ok r
      → IsSignedOut user.id (update_found hash_password now payload acting user db).1.refresh_tokens
  unfolding update_found
  found_signs_out payload acting user r db cause done =
      elim (Bool-cases (
        changes_role hash_password now payload user
        && guard_refuses user (new_role (or_keep payload.role user.role)) db)) [
          | inl a ↦ ground arith
          | inr a ↦
              rw a
                (elim (Bool-cases
                  (deactivates hash_password now payload user && str_eq user.id acting.id)) [
                    | inl b ↦ ground arith
                    | inr b ↦
                        rw b
                          (elim (Bool-cases (
                            deactivates hash_password now payload user
                            && guard_refuses (with_role hash_password now payload user) deactivating
                                db)) [
                                  | inl c ↦ ground arith
                                  | inr c ↦ rw c (
                                      revoke_if-IsSignedOut (is_some payload.password)
                                        (deactivates hash_password now payload user) user.id
                                        (record db {
                                          users =
                                              save_user (updated hash_password now payload user)
                                                db.users;
                                        })
                                        cause)
                                ])
                  ])
        ]

  -- An update that goes through and disables the account, or sets a password, revokes every token
  -- of the account.
  pub update_user-IsSignedOut :
      (user_id : String) (payload : UserUpdate) (acting user r : User) (db : Db)
      → get_user user_id db ≡ some user
      → deactivates hash_password now payload user || is_some payload.password ≡ true
      → (update_user hash_password now user_id payload acting db).0 ≡ ok r
      → IsSignedOut user.id
          (update_user hash_password now user_id payload acting db).1.refresh_tokens
  unfolding update_user
  update_user-IsSignedOut user_id payload acting user r db e cause done =
      rw (e, update_user)
        (found_signs_out payload acting user r db cause (rw (e, update_user) at done))

  -- `create_user` refuses an address in use and changes nothing; otherwise the new account is found
  -- by the normalised address, and every other address finds what it found before.
  pub create_user-email :
      (new_id : String) (payload : UserCreate) (db : Db) (other : String)
      → let email = lower (strip payload.email) in
        let (result, db') = create_user hash_password now new_id payload db in
        let by_email =
          λ (name : String) (users : List User). find (λ u. str_eq u.email name) users in
        (((u : User) × (by_email email db.users ≡ some u)) × (result ≡ err conflict) × (db' ≡ db))
        ⊎ ((by_email email db.users ≡ none)
            × (by_email email db'.users ≡ some (new_user hash_password now new_id email payload))
            × (str_eq email other ≡ false → by_email other db'.users ≡ by_email other db.users))
  unfolding create_user new_user
  create_user-email new_id payload db other =
      let email = lower (strip payload.email) in
      let user = new_user hash_password now new_id email payload in
      elim (Option-cases (find (λ u. str_eq u.email email) db.users)) [
        | inl free ↦
            rw (free, create_user)
              (inr (
                refl,
                find-append (λ u. str_eq u.email email) db.users user free (eq_refl email),
                λ differs. find-append_other (λ u. str_eq u.email other) db.users user differs,
              ))
        | inr (u, e) ↦ rw (e, create_user) (inl ((u, refl), refl, refl))
      ]
