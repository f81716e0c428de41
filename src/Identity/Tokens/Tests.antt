-- ===== src/Identity/Tokens/Tests.antt =====
-- A session that is opened, refreshed and replayed: the theorems about refresh tokens at this run.
use egreen_quanta_tes.Base.{
  String, ◌≡◌, refl, true, false, some, none, [], ◌∷◌, arith, str_eq, last?,
}
use egreen_quanta_tes.Identity.Models.{
  User, UserRole, RefreshToken, Db, analyst, ok, err, refresh_reuse, is_active,
}
use egreen_quanta_tes.Identity.Auth.{Security}
use egreen_quanta_tes.Identity.Tokens.{
  Drawn, token_by_hash, issue_token_pair, rotate_for, rotate_refresh, revoke_refresh,
  revoke_all_user_tokens, new_token,
}
use egreen_quanta_tes.Identity.Tokens.Families.{live, OnePerFamily}
use egreen_quanta_tes.Identity.Tokens.Steps.{
  Reach, here, next, issue, rotate, log_out, revoke_user, Reach-OnePerFamily,
}
use egreen_quanta_tes.Identity.Tokens.Rotation.{rotate_refresh-reuse}

abbrev short_lived : Security
short_lived = record {
  verify_password = str_eq;
  hash_password = λ s. s;
  password_needs_rehash = λ s. false;
  totp_matches = str_eq;
  sha256 = λ s. s;
  secret_key = "k";
  login_max_attempts = 3;
  login_lockout_seconds = 300;
  refresh_token_ttl = 1000;
  access_token_ttl = 900;
}

abbrev access : String → UserRole → String
access id role = id

abbrev ada : User
ada = record {
  id = "u1";
  email = "ada@egreen.local";
  full_name = "Ada Admin";
  hashed_password = "pw";
  role = analyst;
  is_active = true;
  totp_secret = none;
  totp_enabled = false;
  failed_login_count = 0;
  locked_until = none;
  last_login_at = none;
}

abbrev no_sessions : Db
no_sessions = record { users = ada ∷ []; refresh_tokens = []; login_attempts = []; audit = [] }

abbrev first : Drawn
first = record { raw = "aaa"; row_id = "t1"; family = "f1" }

abbrev second : Drawn
second = record { raw = "bbb"; row_id = "t2"; family = "f2" }

abbrev third : Drawn
third = record { raw = "ccc"; row_id = "t3"; family = "f3" }

abbrev opened : Db
opened = (issue_token_pair short_lived access 10 first ada none none none no_sessions).1

abbrev refreshed : Db
refreshed = (rotate_refresh short_lived access 20 second "aaa" none none opened).1

no_sessions-OnePerFamily : OnePerFamily no_sessions
unfolding live
no_sessions-OnePerFamily f = omega arith

a_run :
    Reach short_lived access no_sessions
      (revoke_all_user_tokens 40 "u1" (revoke_refresh short_lived access 30 "bbb" refreshed))
unfolding live
a_run =
    next
      (next
        (next (next here (issue 10 first ada none none refl)) (rotate 20 second "aaa" none none))
        (log_out 30 "bbb"))
      (revoke_user 40 "u1")

Reach-OnePerFamily_example :
    OnePerFamily
      (revoke_all_user_tokens 40 "u1" (revoke_refresh short_lived access 30 "bbb" refreshed))
Reach-OnePerFamily_example = Reach-OnePerFamily short_lived access a_run no_sessions-OnePerFamily

refreshes :
    (rotate_refresh short_lived access 20 second "aaa" none none opened).0
    ≡ ok ("u1", "bbb", 900, ada)
unfolding rotate_refresh token_by_hash is_active issue_token_pair new_token rotate_for
refreshes = refl

unknown_hash : token_by_hash "bbb" opened ≡ none
unfolding token_by_hash issue_token_pair new_token
unknown_hash = refl

rotate_refresh-reuse_example :
    let (result, db'') = rotate_refresh short_lived access 25 third "aaa" none none refreshed in
    (result ≡ err refresh_reuse)
    × (t : RefreshToken) × (token_by_hash "aaa" opened ≡ some t)
    × (live t.family_id db''.refresh_tokens ≡ 0)
    × (new : RefreshToken) × (last? refreshed.refresh_tokens ≡ some new)
    × (new.token_hash ≡ "bbb")
    × (new.user_id ≡ "u1")
    × (new.family_id ≡ t.family_id)
    × (new.revoked_at ≡ none)
    × (last? db''.refresh_tokens ≡ some (record new { revoked_at = some 25 }))
rotate_refresh-reuse_example =
    rotate_refresh-reuse short_lived access 20 second "aaa" none none opened ("u1", "bbb", 900, ada)
      refreshes 25 third none none
