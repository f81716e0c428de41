-- ===== src/Identity/Tokens/Steps.antt =====
-- What the service can do to the refresh tokens, as a step relation, and its invariant.
use egreen_quanta_tes.Base.{
  ℕ, String, ◌≡◌, true, false, not, Option, none, some, arith, str_eq, eq_iff, find, Bool-cases,
  Option-cases, inl, inr,
}
use egreen_quanta_tes.Identity.Models.{User, UserRole, RefreshToken, Db, is_null, is_active}
use egreen_quanta_tes.Identity.Auth.{Security}
use egreen_quanta_tes.Identity.Tokens.{
  Drawn, revoke_family, revoke_all_user_tokens, token_by_hash, issue_token_pair, rotate_for,
  rotate_refresh, revoke_refresh, usable, user_by_id,
}
use egreen_quanta_tes.Identity.Tokens.Families.{
  live, OnePerFamily, live-append, live-revoke_where, live-revoke_token, live-replace_token,
  live-replace_found,
}

active-is_null :
    (t : RefreshToken) (now : ℕ) → not (is_active t now) ≡ false → is_null t.revoked_at ≡ true
unfolding is_active
active-is_null t now h = ground arith

module _ (sec : Security) (create_access_token : String → UserRole → String) where
  -- One call of the service, at any instant. A login opens a family that has no live token: its id
  -- is a new UUID.
  pub data Step (db : Db) : Db → Type 0 where
    issue :
        (now : ℕ) (d : Drawn) (user : User) (user_agent ip : Option String)
        → live d.family db.refresh_tokens ≡ 0
        → Step db (issue_token_pair sec create_access_token now d user user_agent ip none db).1
    rotate :
        (now : ℕ) (d : Drawn) (raw : String) (user_agent ip : Option String)
        → Step db (rotate_refresh sec create_access_token now d raw user_agent ip db).1
    log_out : (now : ℕ) (raw : String) → Step db (revoke_refresh sec create_access_token now raw db)
    revoke_user : (now : ℕ) (user_id : String) → Step db (revoke_all_user_tokens now user_id db)

  pub data Reach (db : Db) : Db → Type 0 where
    here : Reach db db
    next : {db' db'' : Db} → Reach db db' → Step db' db'' → Reach db db''

  module _ (now : ℕ) (db : Db) (one : OnePerFamily db) where
    issue-OnePerFamily :
        (d : Drawn) (user : User) (user_agent ip : Option String)
        → live d.family db.refresh_tokens ≡ 0
        → OnePerFamily (issue_token_pair sec create_access_token now d user user_agent ip none db).1
    unfolding issue_token_pair
    issue-OnePerFamily d user user_agent ip fresh f =
        rw live-append (ground (arith, one f, fresh, eq_iff d.family f))

    revoke_family-OnePerFamily : (family : String) → OnePerFamily (revoke_family now family db)
    unfolding revoke_family
    revoke_family-OnePerFamily family f =
        omega
          (arith, one f, live-revoke_where (λ t. str_eq t.family_id family) now f db.refresh_tokens)

    rotate_for-OnePerFamily :
        (d : Drawn) (t : RefreshToken) (hash : String) (user_agent ip : Option String)
        (user : Option User)
        → find (λ x. str_eq x.token_hash hash) db.refresh_tokens ≡ some t
        → is_null t.revoked_at ≡ true
        → OnePerFamily (rotate_for sec create_access_token now d t user_agent ip db user).1
    unfolding rotate_for
    rotate_for-OnePerFamily d t hash user_agent ip none e l f =
        revoke_family-OnePerFamily t.family_id f
    rotate_for-OnePerFamily d t hash user_agent ip (some user) e l f = rw live-append (
        ground (
          arith,
          one f,
          eq_iff t.family_id f,
          live-replace_found now hash (sec.sha256 d.raw) t db.refresh_tokens,
          live-replace_token now t.id (sec.sha256 d.raw) f db.refresh_tokens,
        ))

    rotate-OnePerFamily :
        (d : Drawn) (raw : String) (user_agent ip : Option String)
        → OnePerFamily (rotate_refresh sec create_access_token now d raw user_agent ip db).1
    unfolding rotate_refresh token_by_hash
    rotate-OnePerFamily d raw user_agent ip =
        elim (Option-cases (find (λ x. str_eq x.token_hash (sec.sha256 raw)) db.refresh_tokens)) [
          | inl unknown ↦ rw unknown one
          | inr (t, e) ↦ rw e (elim (Bool-cases (not (is_active t now))) [
            | inl dead ↦ rw dead (revoke_family-OnePerFamily t.family_id)
            | inr alive ↦ rw alive (
                rotate_for-OnePerFamily d t (sec.sha256 raw) user_agent ip
                  (usable (user_by_id t.user_id db)) e (active-is_null t now alive))
          ])
        ]

    log_out-OnePerFamily :
        (raw : String) → OnePerFamily (revoke_refresh sec create_access_token now raw db)
    unfolding revoke_refresh
    log_out-OnePerFamily raw = elim (Option-cases (token_by_hash (sec.sha256 raw) db)) [
      | inl unknown ↦ rw unknown one
      | inr (t, e) ↦ rw e (elim (Bool-cases (is_null t.revoked_at)) [
        | inl alive ↦
            rw alive (λ f. omega (arith, one f, live-revoke_token now t.id f db.refresh_tokens))
        | inr dead ↦ rw dead one
      ])
    ]

    revoke_user-OnePerFamily :
        (user_id : String) → OnePerFamily (revoke_all_user_tokens now user_id db)
    unfolding revoke_all_user_tokens
    revoke_user-OnePerFamily user_id f =
        omega
          (arith, one f, live-revoke_where (λ t. str_eq t.user_id user_id) now f db.refresh_tokens)

  Step-OnePerFamily : {db db' : Db} → Step db db' → OnePerFamily db → OnePerFamily db'
  Step-OnePerFamily {db} (issue now d user ua ip fresh) one =
      issue-OnePerFamily now db one d user ua ip fresh
  Step-OnePerFamily {db} (rotate now d raw ua ip) one = rotate-OnePerFamily now db one d raw ua ip
  Step-OnePerFamily {db} (log_out now raw) one = log_out-OnePerFamily now db one raw
  Step-OnePerFamily {db} (revoke_user now user_id) one = revoke_user-OnePerFamily now db one user_id

  -- Whatever logins (each with a family id that has no live token), refreshes, logouts and revocations
  -- of all tokens of a user are made, at whatever instants: if at first no family has two tokens that
  -- are not revoked, none ever has.
  pub Reach-OnePerFamily : {db db' : Db} → Reach db db' → OnePerFamily db → OnePerFamily db'
  Reach-OnePerFamily here one = one
  Reach-OnePerFamily (next r s) one = Step-OnePerFamily s (Reach-OnePerFamily r one)
