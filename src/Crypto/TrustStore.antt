-- ===== src/Crypto/TrustStore.antt =====
-- backend/app/services/crypto/trust_store.py: the trust anchors and the allow-list of issuers, each a
-- table as a list of rows. `load` is `load_certificate` on a PEM text. A primary key is drawn by the
-- caller.
pub mod Keys
mod Tests
use egreen_quanta_tes.Base.{
  ℕ, zero, suc, String, Bool, true, false, not, Option, none, some, List, [], ◌∷◌, ◌++◌, ◌⊎◌, inl,
  inr, ◌≡◌, find, keep, length, str_eq, if◌then◌else◌,
}
use egreen_quanta_tes.Crypto.Types.{X509}
use egreen_quanta_tes.Crypto.Errors.{CryptoError, and_then}
use egreen_quanta_tes.Crypto.Path.{spki_sha256}

-- `TrustAnchor` and `CaAllowlistEntry`
pub record TrustAnchor : Type 0 where
  pub id : String
  pub name : String
  pub subject : String
  pub spki : String
  pub fingerprint_sha256 : String
  pub not_after : ℕ
  pub enabled : Bool
  pub pem : String
  pub added_by : Option String

pub record CaAllowlistEntry : Type 0 where
  pub entry_id : String
  pub subject_pattern : String
  pub issuer_spki_sha256 : String
  pub note : String
  pub entered_by : Option String

-- ConflictError and NotFoundError, or what loading the material raises.
pub data StoreError : Type 0 where
  conflict not_found : String → StoreError
  bad_material : CryptoError → StoreError

abbrev pub has_id : String → TrustAnchor → Bool
has_id id a = str_eq a.id id

abbrev pub has_key : String → TrustAnchor → Bool
has_key key a = str_eq a.spki key

abbrev pub with_enabled : Bool → TrustAnchor → TrustAnchor
with_enabled enabled a = record {
  id = a.id;
  name = a.name;
  subject = a.subject;
  spki = a.spki;
  fingerprint_sha256 = a.fingerprint_sha256;
  not_after = a.not_after;
  enabled = enabled;
  pem = a.pem;
  added_by = a.added_by;
}

abbrev pub set_where : String → Bool → List TrustAnchor → List TrustAnchor
set_where id enabled [] = []
set_where id enabled (a ∷ rows) =
    with_enabled (if has_id id a then enabled else a.enabled) a ∷ set_where id enabled rows

-- `set_anchor_enabled`
abbrev pub set_found :
    Option TrustAnchor → Bool → List TrustAnchor → StoreError ⊎ (TrustAnchor × List TrustAnchor)
set_found none enabled rows = inl (not_found "Trust anchor not found")
set_found (some a) enabled rows = inr (with_enabled enabled a, set_where a.id enabled rows)

unfoldable pub set_anchor_enabled :
    String → Bool → List TrustAnchor → StoreError ⊎ (TrustAnchor × List TrustAnchor)
set_anchor_enabled id enabled rows = set_found (find (has_id id) rows) enabled rows

-- `delete_anchor`
abbrev pub delete_found_anchor :
    Option TrustAnchor → List TrustAnchor → StoreError ⊎ List TrustAnchor
delete_found_anchor none rows = inl (not_found "Trust anchor not found")
delete_found_anchor (some a) rows = inr (keep (λ r. not (has_id a.id r)) rows)

unfoldable pub delete_anchor : String → List TrustAnchor → StoreError ⊎ List TrustAnchor
delete_anchor id rows = delete_found_anchor (find (has_id id) rows) rows

-- `add_allowlist_entry`, `delete_allowlist_entry` and `anchor_count`
unfoldable pub add_allowlist_entry :
    String
    → String
    → String
    → String
    → String
    → List CaAllowlistEntry
    → CaAllowlistEntry × List CaAllowlistEntry
add_allowlist_entry id pattern key note by rows =
    let entry : CaAllowlistEntry = record {
      entry_id = id;
      subject_pattern = pattern;
      issuer_spki_sha256 = key;
      note = note;
      entered_by = some by;
    } in
    (entry, rows ++ entry ∷ [])

abbrev delete_entry_found :
    Option CaAllowlistEntry → List CaAllowlistEntry → StoreError ⊎ List CaAllowlistEntry
delete_entry_found none rows = inl (not_found "Allow-list entry not found")
delete_entry_found (some e) rows = inr (keep (λ r. not (str_eq r.entry_id e.entry_id)) rows)

unfoldable pub delete_allowlist_entry :
    String → List CaAllowlistEntry → StoreError ⊎ List CaAllowlistEntry
delete_allowlist_entry id rows = delete_entry_found (find (λ r. str_eq r.entry_id id) rows) rows

unfoldable pub anchor_count : List TrustAnchor → ℕ
anchor_count rows = length rows

module _ (x : X509) (load : String → CryptoError ⊎ x.Cert) where
  -- `enabled_anchor_certs`
  abbrev pub load_enabled :
      Bool → CryptoError ⊎ x.Cert → CryptoError ⊎ List x.Cert → CryptoError ⊎ List x.Cert
  load_enabled false cert rest = rest
  load_enabled true cert rest = and_then cert (λ c. and_then rest (λ cs. inr (c ∷ cs)))

  abbrev pub enabled_anchor_certs : List TrustAnchor → CryptoError ⊎ List x.Cert
  enabled_anchor_certs [] = inr []
  enabled_anchor_certs (a ∷ rows) = load_enabled a.enabled (load a.pem) (enabled_anchor_certs rows)

  abbrev pub new_anchor : String → String → x.Cert → String → TrustAnchor
  new_anchor id name cert by = record {
    id = id;
    name = name;
    subject = x.rfc4514_string (x.subject cert);
    spki = spki_sha256 x cert;
    fingerprint_sha256 = x.sha256_hex (x.der_bytes cert);
    not_after = x.not_valid_after cert;
    enabled = true;
    pem = x.pem cert;
    added_by = some by;
  }

  abbrev pub add_unless :
      Option TrustAnchor
      → TrustAnchor
      → List TrustAnchor
      → StoreError ⊎ (TrustAnchor × List TrustAnchor)
  add_unless (some dupe) a rows = inl (conflict "A trust anchor with that key is already present")
  add_unless none a rows = inr (a, rows ++ a ∷ [])

  abbrev pub add_loaded :
      CryptoError ⊎ x.Cert
      → String
      → String
      → String
      → List TrustAnchor
      → StoreError ⊎ (TrustAnchor × List TrustAnchor)
  add_loaded (inl e) id name by rows = inl (bad_material e)
  add_loaded (inr cert) id name by rows =
      add_unless (find (has_key (spki_sha256 x cert)) rows) (new_anchor id name cert by) rows

  -- `add_anchor`
  unfoldable pub add_anchor :
      String
      → String
      → String
      → String
      → List TrustAnchor
      → StoreError ⊎ (TrustAnchor × List TrustAnchor)
  add_anchor id name pem by rows = add_loaded (load pem) id name by rows

  -- The calls of the service that change the table.
  pub data Step : List TrustAnchor → List TrustAnchor → Type 0 where
    added :
        (id name pem by : String) (rows : List TrustAnchor) (a : TrustAnchor)
        (rows' : List TrustAnchor)
        → add_anchor id name pem by rows ≡ inr (a, rows')
        → Step rows rows'
    switched :
        (id : String) (enabled : Bool) (rows : List TrustAnchor) (a : TrustAnchor)
        (rows' : List TrustAnchor)
        → set_anchor_enabled id enabled rows ≡ inr (a, rows')
        → Step rows rows'
    deleted :
        (id : String) (rows rows' : List TrustAnchor)
        → delete_anchor id rows ≡ inr rows'
        → Step rows rows'

  -- The tables that calls from an empty one reach.
  pub data Reach : List TrustAnchor → Type 0 where
    empty : Reach []
    step : (rows rows' : List TrustAnchor) → Reach rows → Step rows rows' → Reach rows'
