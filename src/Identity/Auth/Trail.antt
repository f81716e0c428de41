-- ===== src/Identity/Auth/Trail.antt =====
-- Each login leaves its trace: one attempt and one row of the audit log.
use egreen_quanta_tes.Base.{
  ℕ, String, ◌≡◌, refl, Bool, true, false, Option, none, some, [], ◌∷◌, ◌++◌, Option-cases, inl,
  inr, not, ◌&&◌, Bool-cases,
}
use egreen_quanta_tes.Base.Text.{lower, strip, is_given}
use egreen_quanta_tes.Audit.Chain.{Platform, genesis_hash, append}
use egreen_quanta_tes.Audit.Chain.Linked.{IsLog}
use egreen_quanta_tes.Audit.Chain.Writer.{append-IsLog}
use egreen_quanta_tes.Identity.Models.{User, Db, Result, ok, err, is_locked}
use egreen_quanta_tes.Identity.Auth.{
  Security, failure_reason, totp_passes, check_user, record_attempt, user_by_email, authenticate,
  auth_event, hash_ip,
}

abbrev pub is_ok {ℓ} : {A : Type ℓ} → Result A → Bool
is_ok (ok a) = true
is_ok (err c) = false

module _ (p : Platform) (sec : Security) (now : ℕ) where
  -- What a call has written: one attempt with the outcome, and the audit entry that tells the same.
  abbrev pub IsTraced : String → Option String → Db → Result User × Db → Type 0
  IsTraced email ip db (r, db') =
      (reason : Option String) × (db'.login_attempts
        ≡ db.login_attempts
          ++ record {
            email = lower email;
            ip_hash = hash_ip sec ip;
            success = is_ok r;
            reason = reason;
          }
            ∷ [])
      × (db'.audit ≡ append p now (auth_event sec (lower email) ip (is_ok r) reason) db.audit)
      × (db'.refresh_tokens ≡ db.refresh_tokens)

  -- A branch at a time: `rw` takes the branch, and its reason is the witness.
  check_user-IsTraced :
      (email password : String) (totp_code ip : Option String) (db : Db) (user : User)
      → IsTraced email ip db (check_user p sec now email password totp_code ip db user)
  unfolding check_user record_attempt
  check_user-IsTraced email password totp_code ip db user = elim (Bool-cases (is_locked user now)) [
    | inl e ↦ rw e (some "locked", refl, refl, refl)
    | inr e ↦ rw e (elim (Bool-cases (sec.verify_password password user.hashed_password)) [
      | inr f ↦ rw f (some (failure_reason sec now user), refl, refl, refl)
      | inl f ↦ rw f (elim (Bool-cases (not user.is_active)) [
        | inl g ↦ rw g (some "disabled", refl, refl, refl)
        | inr g ↦ rw g (elim (Bool-cases (user.totp_enabled && not (is_given totp_code))) [
          | inl h ↦ rw h (some "mfa_required", refl, refl, refl)
          | inr h ↦
              rw h (elim (Bool-cases (user.totp_enabled && not (totp_passes sec user totp_code))) [
                | inl k ↦ rw k (some "mfa_bad", refl, refl, refl)
                | inr k ↦ rw k (none, refl, refl, refl)
              ])
        ])
      ])
    ])
  ]

  -- Every call of `authenticate`, whatever its outcome, adds one login attempt under the normalised
  -- address and one audit entry, both with the outcome and one reason, and touches no refresh token.
  pub authenticate-IsTraced :
      (email password : String) (totp_code ip : Option String) (db : Db)
      → IsTraced (lower (strip email)) ip db (authenticate p sec now email password totp_code ip db)
  unfolding authenticate record_attempt
  authenticate-IsTraced email password totp_code ip db =
      elim (Option-cases (user_by_email (lower (strip email)) db)) [
        | inl e ↦ rw e (some "no_such_user", refl, refl, refl)
        | inr (user, e) ↦
            rw e (check_user-IsTraced (lower (strip email)) password totp_code ip db user)
      ]

  -- An audit log that is numbered from 1 and linked row by row is so after any call of
  -- `authenticate`.
  pub authenticate-IsLog :
      (email password : String) (totp_code ip : Option String) (db : Db)
      → IsLog p 0 genesis_hash db.audit
      → IsLog p 0 genesis_hash (authenticate p sec now email password totp_code ip db).1.audit
  authenticate-IsLog email password totp_code ip db h =
      let (reason, _, audit, _) = authenticate-IsTraced email password totp_code ip db in
      rw audit (append-IsLog p now _ db.audit h)
