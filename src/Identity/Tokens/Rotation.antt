-- ===== src/Identity/Tokens/Rotation.antt =====
-- Rotation and reuse: a token that was exchanged is dead, and presenting it burns its family.
use egreen_quanta_tes.Base.{
  ℕ, ◌+◌, ◌<◌, String, ◌≡◌, refl, sym, ap, ◌∙◌, last?, last?-append_one, true, false, Option, none,
  some, List, [], ◌∷◌, ◌++◌, arith, str_eq, eq_iff, eq_refl, find, Option-cases, inl, inr,
}
use egreen_quanta_tes.Identity.Models.{
  User, UserRole, RefreshToken, Db, Result, ok, err, refresh_reuse, is_active,
}
use egreen_quanta_tes.Identity.Auth.{Security, seconds}
use egreen_quanta_tes.Identity.Tokens.{
  Drawn, revoke_where, revoke_family, replace_token, token_by_hash, new_token, rotate_for,
  rotate_refresh, user_by_id,
}
use egreen_quanta_tes.Identity.Tokens.Families.{live, live-revoke_family}

-- The row that was found is found again, marked as revoked.
find-replace_token :
    (now : ℕ) (hash h : String) (t : RefreshToken) (ts extra : List RefreshToken)
    → find (λ x. str_eq x.token_hash hash) ts ≡ some t
    → find (λ x. str_eq x.token_hash hash) (replace_token now t.id h ts ++ extra)
      ≡ some (record t { revoked_at = some now; replaced_by = some h })
unfolding replace_token
find-replace_token now hash h t [] extra e = cc
find-replace_token now hash h t (x ∷ xs) extra e =
    ground (arith, eq_refl t.id, find-replace_token now hash h t xs extra)

find-replace_none :
    (now : ℕ) (hash id h : String) (ts : List RefreshToken) (n : RefreshToken)
    → find (λ x. str_eq x.token_hash hash) ts ≡ none
    → n.token_hash ≡ hash
    → find (λ x. str_eq x.token_hash hash) (replace_token now id h ts ++ n ∷ []) ≡ some n
unfolding replace_token
find-replace_none now hash id h [] n e same = ground (arith, eq_iff n.token_hash hash)
find-replace_none now hash id h (x ∷ xs) n e same =
    ground (arith, find-replace_none now hash id h xs n)

-- Revoking a family marks a live row of it that stands at the end of the table.
revoke_where-append_one :
    (now : ℕ) (f : String) (xs : List RefreshToken) (t : RefreshToken)
    → t.family_id ≡ f
    → t.revoked_at ≡ none
    → revoke_where (λ x. str_eq x.family_id f) now (xs ++ t ∷ [])
      ≡ revoke_where (λ x. str_eq x.family_id f) now xs ++ record t { revoked_at = some now } ∷ []
unfolding revoke_where
revoke_where-append_one now f [] t same open_ = ground (arith, eq_refl f)
revoke_where-append_one now f (x ∷ xs) t same open_ =
    rw (revoke_where-append_one now f xs t same open_) refl

ok-value {ℓ} : {A : Type ℓ} → (a b : A) → ◌≡◌ {A = Result A} (ok a) (ok b) → a ≡ b
ok-value a b e = cc

module _ (sec : Security) (create_access_token : String → UserRole → String) where
  rotated : (now : ℕ) → Drawn → String → Option String → Option String → Db → Db
  rotated now d raw ua ip db = (rotate_refresh sec create_access_token now d raw ua ip db).1

  -- A refresh that succeeds was made with a token of the table that was neither revoked nor expired,
  -- whose user exists and is enabled, and does what `rotate_for` does for that token and user.
  pub rotate_refresh-ok :
      (now : ℕ) (d : Drawn) (raw : String) (ua ip : Option String) (db : Db)
      (r : String × String × ℕ × User)
      → (rotate_refresh sec create_access_token now d raw ua ip db).0 ≡ ok r
      → (t : RefreshToken) × (user : User) × (token_by_hash (sec.sha256 raw) db ≡ some t)
        × (is_active t now ≡ true)
        × (user_by_id t.user_id db ≡ some user)
        × (user.is_active ≡ true)
        × (rotate_refresh sec create_access_token now d raw ua ip db
            ≡ rotate_for sec create_access_token now d t ua ip db (some user))
  unfolding rotate_refresh rotate_for
  rotate_refresh-ok now d raw ua ip db r h =
      elim (Option-cases (token_by_hash (sec.sha256 raw) db)) [
        | inl unknown ↦ absurd (ground arith)
        | inr (t, e) ↦ elim (Option-cases (user_by_id t.user_id db)) [
          | inl nobody ↦ absurd (ground arith)
          | inr (user, f) ↦ (t, user, e, ground arith, f, ground arith, ground arith)
        ]
      ]

  refused :
      (now : ℕ) (d : Drawn) (raw : String) (ua ip : Option String) (db : Db) (t : RefreshToken)
      → token_by_hash (sec.sha256 raw) db ≡ some t
      → is_active t now ≡ false
      → rotate_refresh sec create_access_token now d raw ua ip db
        ≡ (err refresh_reuse, revoke_family now t.family_id db)
  unfolding rotate_refresh
  refused now d raw ua ip db t e dead = rw e (rw dead)

  found_again :
      (now : ℕ) (d : Drawn) (hash : String) (t : RefreshToken) (user : User) (ua ip : Option String)
      (db : Db)
      → token_by_hash hash db ≡ some t
      → token_by_hash hash (rotate_for sec create_access_token now d t ua ip db (some user)).1
        ≡ some (record t { revoked_at = some now; replaced_by = some (sec.sha256 d.raw) })
  unfolding token_by_hash rotate_for
  found_again now d hash t user ua ip db e =
      find-replace_token now hash (sec.sha256 d.raw) t db.refresh_tokens _ e

  revoked-is_active :
      (t : RefreshToken) (now later : ℕ) (h : String)
      → is_active (record t { revoked_at = some now; replaced_by = some h }) later ≡ false
  unfolding is_active
  revoked-is_active t now later h = refl

  -- After a refresh that succeeded, the token it was made with is refused at every instant, and the
  -- second presentation is reported as reuse. It leaves no live token in the token's family. The row
  -- of the token that the refresh returned, the last one of the table, is of that family, and the
  -- reuse revokes it.
  pub rotate_refresh-reuse :
      (now : ℕ) (d : Drawn) (raw : String) (ua ip : Option String) (db : Db)
      (r : String × String × ℕ × User)
      → (rotate_refresh sec create_access_token now d raw ua ip db).0 ≡ ok r
      → (later : ℕ) (d' : Drawn) (ua' ip' : Option String)
      → let db' = (rotate_refresh sec create_access_token now d raw ua ip db).1 in
        let (result, db'') = rotate_refresh sec create_access_token later d' raw ua' ip' db' in
        (result ≡ err refresh_reuse)
        × (t : RefreshToken) × (token_by_hash (sec.sha256 raw) db ≡ some t)
        × (live t.family_id db''.refresh_tokens ≡ 0)
        × (new : RefreshToken) × (last? db'.refresh_tokens ≡ some new)
        × (new.token_hash ≡ sec.sha256 r.1)
        × (new.user_id ≡ r.3.id)
        × (new.family_id ≡ t.family_id)
        × (new.revoked_at ≡ none)
        × (last? db''.refresh_tokens ≡ some (record new { revoked_at = some later }))
  unfolding revoke_family rotate_for new_token
  rotate_refresh-reuse now d raw ua ip db r h later d' ua' ip' =
      let (t, user, e, active, found_, enabled, result) =
        rotate_refresh-ok now d raw ua ip db r h in
      let raw_hash = sec.sha256 raw in
      let again =
        refused later d' raw ua' ip'
          (rotate_for sec create_access_token now d t ua ip db (some user)).1
          (record t { revoked_at = some now; replaced_by = some (sec.sha256 d.raw) })
          (found_again now d raw_hash t user ua ip db e)
          (revoked-is_active t now later (sec.sha256 d.raw)) in
      let returned = ok-value _ _ (sym (ap (λ x. x.0) result) ∙ h) in
      let new = new_token sec create_access_token now d user.id t.family_id ua ip in
      let old = replace_token now t.id (sec.sha256 d.raw) db.refresh_tokens in
      rw (result, again)
        (
          refl,
          t,
          e,
          live-revoke_family later t.family_id _,
          new,
          last?-append_one old new,
          ap (λ x. sec.sha256 x.1) returned,
          ap (λ x. x.3.id) returned,
          refl,
          refl,
          ap last? (revoke_where-append_one later t.family_id old new refl refl)
              ∙ last?-append_one (revoke_where (λ x. str_eq x.family_id t.family_id) later old) _,
        )

  -- The token that a successful refresh returns is live, in the family of the old one, and is good
  -- for a refresh at any instant before its expiry, if its hash was not in the table before.
  pub rotate_refresh-renews :
      (now : ℕ) (d : Drawn) (raw : String) (ua ip : Option String) (db : Db)
      (r : String × String × ℕ × User)
      → (rotate_refresh sec create_access_token now d raw ua ip db).0 ≡ ok r
      → token_by_hash (sec.sha256 d.raw) db ≡ none
      → (later : ℕ) → later < now + seconds sec.refresh_token_ttl
      → (old new : RefreshToken) × (token_by_hash (sec.sha256 raw) db ≡ some old)
        × (token_by_hash
              (sec.sha256 d.raw)
              (rotate_refresh sec create_access_token now d raw ua ip db).1
            ≡ some new)
        × (new.family_id ≡ old.family_id)
        × (new.user_id ≡ r.3.id)
        × (is_active new later ≡ true)
  unfolding is_active rotate_for token_by_hash
  rotate_refresh-renews now d raw ua ip db r h fresh later soon =
      let (old, user, e, active, found_, enabled, result) =
        rotate_refresh-ok now d raw ua ip db r h in
      let new = new_token sec create_access_token now d user.id old.family_id ua ip in
      (
        old,
        new,
        e,
        rw result (
            find-replace_none now (sec.sha256 d.raw) old.id (sec.sha256 d.raw) db.refresh_tokens new
              fresh refl),
        refl,
        ground arith,
        ground arith,
      )
