-- ===== src/Identity/ApiKeys/Tests.antt =====
-- A key that is issued, used and revoked: the theorems about API keys at this run.
use egreen_quanta_tes.Base.{String, ◌≡◌, refl, some, List, [], ◌∷◌}
use egreen_quanta_tes.Identity.Models.{ok}
use egreen_quanta_tes.Identity.ApiKeys.{
  ApiKey, ApiKeyCreate, ingest_events, full_key, new_key, create_api_key, verify_api_key,
}
use egreen_quanta_tes.Identity.ApiKeys.Check.{verify_api_key-create_api_key}

abbrev plain_hash : String → String
plain_hash s = s

abbrev feed : ApiKeyCreate
feed = record { name = "feed"; scopes = ingest_events ∷ []; expires_in_days = some 30 }

abbrev key : ApiKey
key = new_key plain_hash 5 "k1" "0a1b" "s3_cret" feed "u1"

abbrev keys : List ApiKey
keys = (create_api_key plain_hash 5 "k1" "0a1b" "s3_cret" feed "u1" []).1

verify_api_key-create_api_key_example :
    (verify_api_key plain_hash 9 (full_key "0a1b" "s3_cret") ingest_events keys).0
    ≡ ok (record key { last_used_at = some 9 })
unfolding create_api_key
verify_api_key-create_api_key_example =
    verify_api_key-create_api_key plain_hash 5 9 "k1" "0a1b" "s3_cret" feed "u1" [] ingest_events
      refl refl refl refl refl
