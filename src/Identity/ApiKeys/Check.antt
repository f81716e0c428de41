-- ===== src/Identity/ApiKeys/Check.antt =====
-- What `verify_api_key` accepts, and what revocation does to it.
use egreen_quanta_tes.Base.{
  ℕ, String, true, false, ◌≡◌, refl, ◌∙◌, ap, sym, Option, none, some, List, [], ◌∷◌, ◌++◌, arith,
  str_eq, eq_iff, eq_refl, find-append, Bool-cases, Option-cases, inl, inr, if◌then◌else◌, map,
}
use egreen_quanta_tes.Base.Text.{is_set, is_in}
use egreen_quanta_tes.Identity.Models.{
  ok, err, api_key_inactive, forbidden, invalid_api_key, is_null,
}
use egreen_quanta_tes.Identity.ApiKeys.{
  ApiKey, ApiKeyScope, scope_value, ApiKeyCreate, parse_api_key, is_valid, scope_list, save_key,
  key_by_prefix, key_by_id, check_key, check_parsed, verify_api_key, revoke_api_key, revoke_key,
  create_api_key, full_key, new_key, has_expired,
}
use egreen_quanta_tes.Identity.ApiKeys.Format.{lacks, parse_api_key-full_key, scope_list-new_key}

-- A stored key that a request with this hash may use for this scope.
pub record IsAccepted (now : ℕ) (secret_hash : String) (scope : ApiKeyScope) (k : ApiKey)
    : Type 0 where
  pub same_hash : str_eq k.key_hash secret_hash ≡ true
  pub valid : is_valid k now ≡ true
  pub in_scope : is_in (scope_value scope) (scope_list k) ≡ true

IsAccepted-check_key :
    (now : ℕ) (h : String) (scope : ApiKeyScope) (keys : List ApiKey) (k : ApiKey)
    → IsAccepted now h scope k
    → (check_key now h scope keys (some k)).0 ≡ ok (record k { last_used_at = some now })
IsAccepted-check_key now h scope keys k a = rw a.same_hash (rw a.valid (rw a.in_scope refl))

check_key-IsAccepted :
    (now : ℕ) (h : String) (scope : ApiKeyScope) (keys : List ApiKey) (k r : ApiKey)
    → (check_key now h scope keys (some k)).0 ≡ ok r
    → IsAccepted now h scope k × (r ≡ record k { last_used_at = some now })
check_key-IsAccepted now h scope keys k r done = elim (Bool-cases (str_eq k.key_hash h)) [
  | inr a ↦ ground arith
  | inl a ↦ elim (Bool-cases (is_valid k now)) [
    | inr b ↦ ground arith
    | inl b ↦ elim (Bool-cases (is_in (scope_value scope) (scope_list k))) [
      | inr c ↦ ground arith
      | inl c ↦ (record { same_hash = a; valid = b; in_scope = c }, ground arith)
    ]
  ]
]

verify_api_key-found :
    (hash_token : String → String) (now : ℕ) (full p h : String) (scope : ApiKeyScope)
    (keys : List ApiKey)
    → (found : Option ApiKey) → parse_api_key hash_token full ≡ some (p, h)
    → key_by_prefix p keys ≡ found
    → verify_api_key hash_token now full scope keys ≡ check_key now h scope keys found
unfolding verify_api_key
verify_api_key-found hash_token now full p h scope keys found parsed e =
    rw (parsed, check_parsed) (rw e refl)

-- A key that `verify_api_key` accepts parses into a prefix and a secret whose hash is that of the
-- row with this prefix, and that row is neither revoked nor expired and has the scope asked for.
pub verify_api_key-IsAccepted :
    (hash_token : String → String) (now : ℕ) (full : String) (scope : ApiKeyScope)
    (keys : List ApiKey) (r : ApiKey)
    → (verify_api_key hash_token now full scope keys).0 ≡ ok r
    → (p : String) × (h : String) × (k : ApiKey) × (parse_api_key hash_token full ≡ some (p, h))
      × (key_by_prefix p keys ≡ some k)
      × IsAccepted now h scope k
      × (r ≡ record k { last_used_at = some now })
unfolding verify_api_key
verify_api_key-IsAccepted hash_token now full scope keys r done =
    elim (Option-cases (parse_api_key hash_token full)) [
      | inl bad ↦ ground arith
      | inr ((p, h), parsed) ↦ elim (Option-cases (key_by_prefix p keys)) [
        | inl unknown ↦
            ground
              (arith, verify_api_key-found hash_token now full p h scope keys none parsed unknown)
        | inr (k, found) ↦
            let same =
              verify_api_key-found hash_token now full p h scope keys (some k) parsed found in
            let (accepted, used) =
              check_key-IsAccepted now h scope keys k r (ap (λ x. x.0) (sym same) ∙ done) in
            (p, h, k, parsed, found, accepted, used)
      ]
    ]

check_key-valid :
    (now : ℕ) (h : String) (scope : ApiKeyScope) (keys : List ApiKey) (k : ApiKey)
    → str_eq k.key_hash h ≡ true
    → is_valid k now ≡ true
    → (check_key now h scope keys (some k)).0 ≡ (
        if is_in (scope_value scope) (scope_list k)
        then ok (record k { last_used_at = some now })
        else err forbidden)
check_key-valid now h scope keys k same valid = rw same (
    rw valid (elim (Bool-cases (is_in (scope_value scope) (scope_list k))) [
      | inl c ↦ rw c refl
      | inr c ↦ rw c refl
    ]))

new_key-is_valid :
    (hash_token : String → String) (now later : ℕ) (id prefix secret : String)
    (payload : ApiKeyCreate) (by : String)
    → has_expired (new_key hash_token now id prefix secret payload by).expires_at later ≡ false
    → is_valid (new_key hash_token now id prefix secret payload by) later ≡ true
unfolding is_valid new_key
new_key-is_valid hash_token now later id prefix secret payload by fresh = rw fresh refl

-- The full key that `create_api_key` returns is accepted for every scope that was asked for, and
-- refused with `forbidden` for every other one, until the key expires: for a drawn prefix that is
-- not in use and has no underscore.
pub verify_api_key-create_api_key :
    (hash_token : String → String)
    → (now later : ℕ) (id prefix secret : String) (payload : ApiKeyCreate) (by : String)
      (keys : List ApiKey) (scope : ApiKeyScope)
    → lacks b'_' prefix ≡ true
    → is_set prefix ≡ true
    → is_set secret ≡ true
    → key_by_prefix prefix keys ≡ none
    → has_expired (new_key hash_token now id prefix secret payload by).expires_at later ≡ false
    → let ((key, full), keys') = create_api_key hash_token now id prefix secret payload by keys in
      (verify_api_key hash_token later full scope keys').0 ≡ (
        if is_in (scope_value scope) (map scope_value payload.scopes)
        then ok (record key { last_used_at = some later })
        else err forbidden)
unfolding create_api_key
verify_api_key-create_api_key hash_token now later id prefix secret payload by keys scope l p s free
      fresh =
    let key = new_key hash_token now id prefix secret payload by in
    let h = hash_token secret in
    rw
      (verify_api_key-found hash_token later (full_key prefix secret) prefix h scope
        (keys ++ key ∷ []) (some key) (parse_api_key-full_key hash_token prefix secret l p s)
        (find-append (λ k. str_eq k.prefix prefix) keys key free (eq_refl prefix)))
      (rw
        (check_key-valid later h scope (keys ++ key ∷ []) key (eq_refl h)
          (new_key-is_valid hash_token now later id prefix secret payload by fresh))
        (rw (scope_list-new_key hash_token now id prefix secret payload by scope) refl))

save_key-by_prefix :
    (k v : ApiKey) (p : String) (keys : List ApiKey)
    → v.id ≡ k.id
    → v.prefix ≡ p
    → key_by_prefix p keys ≡ some k
    → key_by_prefix p (save_key v keys) ≡ some v
unfolding save_key
save_key-by_prefix k v p [] same_id same_prefix found = cc
save_key-by_prefix k v p (x ∷ xs) same_id same_prefix found = ground (
  arith,
  save_key-by_prefix k v p xs,
  eq_iff x.id v.id,
  eq_iff v.prefix p,
  eq_refl v.id,
  eq_refl v.prefix,
)

check_key-revoked :
    (now : ℕ) (h : String) (scope : ApiKeyScope) (keys : List ApiKey) (k : ApiKey)
    → is_null k.revoked_at ≡ false
    → (check_key now h scope keys (some k)).0
      ≡ err (if str_eq k.key_hash h then api_key_inactive else invalid_api_key)
unfolding is_valid
check_key-revoked now h scope keys k gone = ground arith

-- After `revoke_api_key` of a row that both its id and its prefix find, no request with that prefix
-- is accepted, at any time and for any scope: the secret that was right is answered
-- `api_key_inactive`, any other `invalid_api_key`.
pub verify_api_key-revoke_api_key :
    (hash_token : String → String)
    → (now later : ℕ) (full h : String) (keys : List ApiKey) (k : ApiKey) (scope : ApiKeyScope)
    → key_by_id k.id keys ≡ some k
    → key_by_prefix k.prefix keys ≡ some k
    → parse_api_key hash_token full ≡ some (k.prefix, h)
    → (verify_api_key hash_token later full scope (revoke_api_key now k.id keys).1).0
      ≡ err (if str_eq k.key_hash h then api_key_inactive else invalid_api_key)
unfolding revoke_api_key
verify_api_key-revoke_api_key hash_token now later full h keys k scope by_id by_prefix parsed =
    elim (Bool-cases (is_null k.revoked_at)) [
      | inl live ↦
          let v : ApiKey = record k { revoked_at = some now } in
          rw (by_id, revoke_key)
            (rw live (
              rw
                (verify_api_key-found hash_token later full k.prefix h scope (save_key v keys)
                  (some v) parsed (save_key-by_prefix k v k.prefix keys refl refl by_prefix))
                (check_key-revoked later h scope (save_key v keys) v refl)))
      | inr gone ↦
          rw (by_id, revoke_key)
            (rw gone (
              rw
                (verify_api_key-found hash_token later full k.prefix h scope keys (some k) parsed
                  by_prefix)
                (check_key-revoked later h scope keys k gone)))
    ]
