-- ===== src/Crypto/Raw.antt =====
-- backend/app/services/crypto/rsa_ecc.py: the check of a detached signature under a public key, and
-- the test of an ECDSA signature for malleability. The keys and their checks are those of the
-- `cryptography` package, the record `Keys`.
pub mod LowS
pub mod Verified
pub mod Tests
use Prim.Native.String.{◌++◌ as append_str}
use egreen_quanta_tes.Base.{
  ℕ, ◌/◌, String, Bool, true, false, Option, none, some, List, [], ◌∷◌, ◌⊎◌, inl, inr, leb, str_eq,
  if◌then◌else◌,
}
use egreen_quanta_tes.Base.Text.{is_in, is_given, lower}
use egreen_quanta_tes.Base.Bytes.{Bytes, same_bytes}
use egreen_quanta_tes.Crypto.Types.{KeyParams, text}
use egreen_quanta_tes.Crypto.Errors.{CryptoError, unsupported_algorithm, and_then}
use egreen_quanta_tes.Crypto.WeakAlgo.{SignatureParams, normalize_hash_name}

pub data KeyKind : Type 0 where
  rsa ecdsa ed25519 ed448 other_key : KeyKind

pub data Padding : Type 0 where
  pss pkcs1v15 : Padding

-- What the `cryptography` package gives: the class of a key, its parameters, and whether the
-- signature (first) of the bytes (second) verifies. The Boolean says that the bytes are a digest.
pub record Keys : Type 1 where
  pub PublicKey : Type 0
  pub kind : PublicKey → KeyKind
  pub key_params : PublicKey → KeyParams
  pub verify_ed : PublicKey → Bytes → Bytes → Bool
  pub verify_rsa : PublicKey → Bytes → Bytes → Padding → String → Bool → Bool
  pub verify_ec : PublicKey → Bytes → Bytes → String → Bool → Bool
  pub decode_dss_signature : Bytes → Option (ℕ × ℕ)
  pub encode_dss_signature : ℕ → ℕ → Bytes

-- `RawVerifyOutcome`
pub record RawVerifyOutcome : Type 0 where
  pub verified : Bool
  pub params : SignatureParams
  pub failure : Option String

-- `_CURVE_ORDER`, the numbers that its expressions denote.
abbrev pub curve_orders : List (String × ℕ)
curve_orders =
    ("secp256r1", 115792089210356248762697446949407573529996955224135760342422259061068512044369)
    ∷ (
      "secp384r1",
      726838724295606890549323807888004534353641360687318060281464592801067475710811913560284193776575038085403710217279365332547643367565683,
    )
    ∷ (
      "secp521r1",
      26815615859885194199148049996411692254958731641184786755447122887443528060146436076101854268096449411047748696255435178450288378347629667691647899604116489,
    )
    ∷ ("secp256k1", 115792089237316195423570985008687907852837564279074904382605163141518161494337)
    ∷ []

abbrev pub get : List (String × ℕ) → String → Option ℕ
get [] name = none
get ((k, n) ∷ rest) name = let others = get rest name in if str_eq k name then some n else others

unfoldable pub curve_order : String → Option ℕ
curve_order name = get curve_orders name

-- `_CRYPTOGRAPHY_HASHES`, and `cryptography_hash` on a normalised name.
abbrev cryptography_hashes : List String
cryptography_hashes =
    "sha1" ∷ "sha224" ∷ "sha256" ∷ "sha384" ∷ "sha512" ∷ "sha3-256" ∷ "sha3-384" ∷ "sha3-512" ∷ []

unfoldable pub normal_hash : String → CryptoError ⊎ String
normal_hash name = elim (normalize_hash_name name) [
  | none ↦ inl (unsupported_algorithm (append_str "Unsupported hash algorithm: " name))
  | some n ↦ inr n
]

unfoldable pub cryptography_hash : String → CryptoError ⊎ String
cryptography_hash name = and_then (normal_hash name) (λ n.
    if is_in n cryptography_hashes
    then inr n
    else inl (unsupported_algorithm (append_str "Hash not usable for signatures: " name)))

-- What is signed: a message or its digest.
pub data Signed : Type 0 where
  message prehashed_digest : Bytes → Signed
  nothing : Signed

abbrev pub outcome_of : Bool → SignatureParams → RawVerifyOutcome
outcome_of ok params = record {
  verified = ok;
  params = params;
  failure = if ok then none else some "signature does not verify";
}

-- `(padding_mode or "pkcs1v15").lower()`, and the padding it names.
abbrev mode_or : Option String → String
mode_or none = "pkcs1v15"
mode_or (some s) = if is_given (some s) then lower s else "pkcs1v15"

abbrev pss_modes : List String
pss_modes = "pss" ∷ "rsa-pss" ∷ "rsassa-pss" ∷ []

abbrev pkcs1_modes : List String
pkcs1_modes = "pkcs1v15" ∷ "pkcs1" ∷ "rsa" ∷ "rsassa-pkcs1-v1_5" ∷ []

unfoldable pub padding_of : Option String → Option Padding
padding_of mode =
    if is_in (mode_or mode) pss_modes
    then some pss
    else if is_in (mode_or mode) pkcs1_modes
    then some pkcs1v15
    else none

abbrev pad_label : Padding → String
pad_label pss = "pss"
pad_label pkcs1v15 = "pkcs1v15"

abbrev or_empty : Option String → String
or_empty none = ""
or_empty (some s) = s

-- `s <= order // 2`
unfoldable pub is_low : ℕ → ℕ → Bool
is_low order s = leb s (order / 2)

abbrev low_under : Option ℕ → ℕ → Option Bool
low_under none s = none
low_under (some order) s = some (is_low order s)

abbrev pub signed_parts : Signed → CryptoError ⊎ (Bytes × Bool)
signed_parts (message m) = inr (m, false)
signed_parts (prehashed_digest m) = inr (m, true)
signed_parts nothing = inl (unsupported_algorithm "message or prehashed_digest must be supplied")

module _ (keys : Keys) where
  -- `_check_ecdsa_malleability`
  abbrev low_and_canonical : Option (ℕ × ℕ) → Bytes → String → Option Bool × Option Bool
  low_and_canonical none signature curve_name = (none, some false)
  low_and_canonical (some (r, s)) signature curve_name = (
    low_under (curve_order curve_name) s,
    some (same_bytes (keys.encode_dss_signature r s) signature),
  )

  unfoldable pub check_ecdsa_malleability : Bytes → String → Option Bool × Option Bool
  check_ecdsa_malleability signature curve_name =
      low_and_canonical (keys.decode_dss_signature signature) signature curve_name

  abbrev ed_params : keys.PublicKey → String → SignatureParams
  ed_params key name = record {
    algorithm = name;
    hash_alg = none;
    padding = none;
    key = some (keys.key_params key);
    low_s = none;
    der_canonical = none;
  }

  abbrev pub verify_eddsa : keys.PublicKey → String → Signed → Bytes → RawVerifyOutcome
  verify_eddsa key name (message m) signature =
      outcome_of (keys.verify_ed key signature m) (ed_params key name)
  verify_eddsa key name (prehashed_digest m) signature = record {
    verified = false;
    params = ed_params key name;
    failure = some "EdDSA requires the full message";
  }
  verify_eddsa key name nothing signature = record {
    verified = false;
    params = ed_params key name;
    failure = some "EdDSA requires the full message";
  }

  abbrev rsa_params : keys.PublicKey → String → Padding → SignatureParams
  rsa_params key hash pad = record {
    algorithm = text (hash ∷ "-rsa-" ∷ pad_label pad ∷ []);
    hash_alg = some hash;
    padding = some (pad_label pad);
    key = some (keys.key_params key);
    low_s = none;
    der_canonical = none;
  }

  abbrev ec_params : keys.PublicKey → String → Bytes → SignatureParams
  ec_params key hash signature =
      let (low_s, canonical) =
        check_ecdsa_malleability signature (or_empty (keys.key_params key).curve) in
      record {
        algorithm = text (hash ∷ "-ecdsa" ∷ []);
        hash_alg = some hash;
        padding = none;
        key = some (keys.key_params key);
        low_s = low_s;
        der_canonical = canonical;
      }

  abbrev pub verify_padded :
      Option Padding
      → keys.PublicKey
      → String
      → Bytes
      → Bool
      → Bytes
      → Option String
      → CryptoError ⊎ RawVerifyOutcome
  verify_padded none key hash signed is_digest signature mode =
      inl (unsupported_algorithm (append_str "Unknown RSA padding: " (or_empty mode)))
  verify_padded (some pad) key hash signed is_digest signature mode = inr (
      outcome_of (keys.verify_rsa key signature signed pad hash is_digest)
        (rsa_params key hash pad))

  -- The RSA and the ECDSA parts of `verify_raw`, on the digest's name and what is signed.
  unfoldable pub verify_keyed :
      KeyKind
      → keys.PublicKey
      → String
      → Bytes
      → Bool
      → Bytes
      → Option String
      → CryptoError ⊎ RawVerifyOutcome
  verify_keyed rsa key hash signed is_digest signature mode =
      verify_padded (padding_of mode) key hash signed is_digest signature mode
  verify_keyed ecdsa key hash signed is_digest signature mode = inr (
      outcome_of (keys.verify_ec key signature signed hash is_digest)
        (ec_params key hash signature))
  verify_keyed ed25519 key hash signed is_digest signature mode =
      inl (unsupported_algorithm "Unsupported public key type")
  verify_keyed ed448 key hash signed is_digest signature mode =
      inl (unsupported_algorithm "Unsupported public key type")
  verify_keyed other_key key hash signed is_digest signature mode =
      inl (unsupported_algorithm "Unsupported public key type")

  unfoldable pub verify_hashed :
      KeyKind
      → keys.PublicKey
      → Signed
      → Option String
      → Bytes
      → Option String
      → CryptoError ⊎ RawVerifyOutcome
  verify_hashed kind key signed none signature mode =
      inl (unsupported_algorithm "hash_alg is required for RSA/ECDSA verification")
  verify_hashed kind key signed (some name) signature mode = and_then (normal_hash name) (λ norm.
      and_then (cryptography_hash norm) (λ hash.
        and_then (signed_parts signed)
          (λ (m, is_digest). verify_keyed kind key norm m is_digest signature mode)))

  -- `verify_raw`
  abbrev pub by_kind :
      KeyKind
      → keys.PublicKey
      → Signed
      → Option String
      → Bytes
      → Option String
      → CryptoError ⊎ RawVerifyOutcome
  by_kind ed25519 key signed hash_alg signature mode =
      inr (verify_eddsa key "ed25519" signed signature)
  by_kind ed448 key signed hash_alg signature mode = inr (verify_eddsa key "ed448" signed signature)
  by_kind rsa key signed hash_alg signature mode =
      verify_hashed rsa key signed hash_alg signature mode
  by_kind ecdsa key signed hash_alg signature mode =
      verify_hashed ecdsa key signed hash_alg signature mode
  by_kind other_key key signed hash_alg signature mode =
      verify_hashed other_key key signed hash_alg signature mode

  unfoldable pub verify_raw :
      keys.PublicKey
      → Signed
      → Option String
      → Bytes
      → Option String
      → CryptoError ⊎ RawVerifyOutcome
  verify_raw key signed hash_alg signature mode =
      by_kind (keys.kind key) key signed hash_alg signature mode
