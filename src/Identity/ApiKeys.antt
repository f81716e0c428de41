-- ===== src/Identity/ApiKeys.antt =====
-- backend/app/services/api_keys.py, `ApiKey` of backend/app/models/api_key.py, and the key format of
-- backend/app/core/security.py.
pub mod Format
pub mod Check
mod Tests
use Prim.Native.Char.{Char, code}
use Prim.Native.String.{◌++◌ as append_str}
use egreen_quanta_tes.Base.{
  ℕ, zero, suc, ◌+◌, ◌*◌, String, Bool, true, false, not, ◌&&◌, ◌||◌, Option, none, some, List, [],
  ◌∷◌, ◌++◌, ◌==◌, str_eq, leb, find, keep, map, if◌then◌else◌,
}
use egreen_quanta_tes.Base.Text.{is_set, is_in}
use egreen_quanta_tes.Identity.Models.{
  Result, ok, err, invalid_api_key, api_key_inactive, forbidden, not_found, is_null,
}
use egreen_quanta_tes.Identity.Auth.{seconds}

-- `ApiKeyScope`, and its values.
pub data ApiKeyScope : Type 0 where
  ingest_events ingest_signatures : ApiKeyScope

abbrev pub scope_value : ApiKeyScope → String
scope_value ingest_events = "ingest:events"
scope_value ingest_signatures = "ingest:signatures"

-- `ApiKey`
pub record ApiKey : Type 0 where
  pub id : String
  pub name : String
  pub prefix : String
  pub key_hash : String
  pub scopes : String
  pub created_by : Option String
  pub last_used_at : Option ℕ
  pub expires_at : Option ℕ
  pub revoked_at : Option ℕ

-- `s.split(c, limit)`: at most `limit` cuts.
abbrev pub cons_head : Char → List String → List String
cons_head c [] = String.◌∷◌ c String.[] ∷ []
cons_head c (w ∷ ws) = String.◌∷◌ c w ∷ ws

abbrev pub split_at : ℕ → ℕ → String → List String
split_at sep limit String.[] = "" ∷ []
split_at sep zero (String.◌∷◌ c s) = String.◌∷◌ c s ∷ []
split_at sep (suc n) (String.◌∷◌ c s) =
    let cut = split_at sep n s in
    let on = split_at sep (suc n) s in if code c == sep then "" ∷ cut else cons_head c on

-- `s.split(c)`
abbrev pub split_all : ℕ → String → List String
split_all sep String.[] = "" ∷ []
split_all sep (String.◌∷◌ c s) =
    let rest = split_all sep s in if code c == sep then "" ∷ rest else cons_head c rest

-- `",".join(xs)`
abbrev pub join_commas : List String → String
join_commas [] = ""
join_commas (x ∷ []) = x
join_commas (x ∷ y ∷ ys) = append_str x (append_str "," (join_commas (y ∷ ys)))

-- `generate_api_key`: the full key, for the drawn prefix and secret.
unfoldable pub full_key : String → String → String
full_key prefix secret =
    append_str "egq" (append_str "_" (append_str prefix (append_str "_" secret)))

-- The parts of `parse_api_key`.
abbrev pub parse_parts : (String → String) → List String → Option (String × String)
parse_parts hash_token (a ∷ prefix ∷ secret ∷ []) =
    if not (str_eq a "egq")
    then none
    else if not (is_set prefix) || not (is_set secret)
    then none
    else some (prefix, hash_token secret)
parse_parts hash_token parts = none

unfoldable pub parse_api_key : (String → String) → String → Option (String × String)
parse_api_key hash_token full = parse_parts hash_token (split_at b'_' 2 full)

-- `",".join(sorted({s.value for s in scopes}))`
unfoldable pub scope_text : List ApiKeyScope → String
scope_text scopes =
    join_commas
      (keep (λ v. is_in v (map scope_value scopes)) ("ingest:events" ∷ "ingest:signatures" ∷ []))

-- `ApiKey.scope_list`
unfoldable pub scope_list : ApiKey → List String
scope_list key = keep is_set (split_all b',' key.scopes)

-- `ApiKey.is_valid`
abbrev pub has_expired : Option ℕ → ℕ → Bool
has_expired none now = false
has_expired (some at) now = leb at now

unfoldable pub is_valid : ApiKey → ℕ → Bool
is_valid key now = is_null key.revoked_at && not (has_expired key.expires_at now)

-- `ApiKeyCreate`
pub record ApiKeyCreate : Type 0 where
  pub name : String
  pub scopes : List ApiKeyScope
  pub expires_in_days : Option ℕ

-- `_utcnow() + timedelta(days=...) if payload.expires_in_days else None`
abbrev expiry : Option ℕ → ℕ → Option ℕ
expiry none now = none
expiry (some days) now = if days == 0 then none else some (now + seconds (86400 * days))

-- The row that `create_api_key` adds.
unfoldable pub new_key :
    (String → String) → ℕ → String → String → String → ApiKeyCreate → String → ApiKey
unfolding scope_text
new_key hash_token now id prefix secret payload created_by = record {
  id = id;
  name = payload.name;
  prefix = prefix;
  key_hash = hash_token secret;
  scopes = scope_text payload.scopes;
  created_by = some created_by;
  last_used_at = none;
  expires_at = expiry payload.expires_in_days now;
  revoked_at = none;
}

unfoldable pub create_api_key :
    (String → String)
    → ℕ
    → String
    → String
    → String
    → ApiKeyCreate
    → String
    → List ApiKey
    → (ApiKey × String) × List ApiKey
unfolding new_key full_key
create_api_key hash_token now id prefix secret payload created_by keys =
    let key = new_key hash_token now id prefix secret payload created_by in
    ((key, full_key prefix secret), keys ++ key ∷ [])

-- The changed row is written back by its primary key.
unfoldable pub save_key : ApiKey → List ApiKey → List ApiKey
save_key k [] = []
save_key k (x ∷ xs) = (if str_eq x.id k.id then k else x) ∷ save_key k xs

-- `revoke_api_key`
abbrev pub key_by_id : String → List ApiKey → Option ApiKey
key_by_id id keys = find (λ k. str_eq k.id id) keys

abbrev pub revoke_key : ℕ → List ApiKey → Option ApiKey → Result (Unit {0}) × List ApiKey
revoke_key now keys none = (err not_found, keys)
revoke_key now keys (some k) = (
  ok tt,
  if is_null k.revoked_at then save_key (record k { revoked_at = some now }) keys else keys,
)

unfoldable pub revoke_api_key : ℕ → String → List ApiKey → Result (Unit {0}) × List ApiKey
revoke_api_key now id keys = revoke_key now keys (key_by_id id keys)

-- `select(ApiKey).where(ApiKey.prefix == prefix)`
abbrev pub key_by_prefix : String → List ApiKey → Option ApiKey
key_by_prefix prefix keys = find (λ k. str_eq k.prefix prefix) keys

-- `verify_api_key`, once the key is parsed and its row is looked up.
abbrev pub check_key :
    ℕ → String → ApiKeyScope → List ApiKey → Option ApiKey → Result ApiKey × List ApiKey
check_key now secret_hash scope keys none = (err invalid_api_key, keys)
check_key now secret_hash scope keys (some k) =
    if not (str_eq k.key_hash secret_hash)
    then (err invalid_api_key, keys)
    else if not (is_valid k now)
    then (err api_key_inactive, keys)
    else if not (is_in (scope_value scope) (scope_list k))
    then (err forbidden, keys)
    else (let used = record k { last_used_at = some now } in (ok used, save_key used keys))

abbrev pub check_parsed :
    ℕ → ApiKeyScope → List ApiKey → Option (String × String) → Result ApiKey × List ApiKey
check_parsed now scope keys none = (err invalid_api_key, keys)
check_parsed now scope keys (some (prefix, secret_hash)) =
    check_key now secret_hash scope keys (key_by_prefix prefix keys)

unfoldable pub verify_api_key :
    (String → String) → ℕ → String → ApiKeyScope → List ApiKey → Result ApiKey × List ApiKey
verify_api_key hash_token now full scope keys =
    check_parsed now scope keys (parse_api_key hash_token full)
