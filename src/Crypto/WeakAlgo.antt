-- ===== src/Crypto/WeakAlgo.antt =====
-- backend/app/services/crypto/weak_algo.py, and the registry of weak digests in
-- backend/app/services/crypto/hashes.py.
pub mod Policy
mod Tests
use Prim.Native.Char.{Char, code}
use Prim.Native.String.{◌++◌ as append_str}
use egreen_quanta_tes.Base.{
  ℕ, zero, suc, ◌-◌, String, Bool, true, false, not, ◌&&◌, ◌||◌, Option, none, some, List, [], ◌∷◌,
  ◌++◌, ◌==◌, str_eq, ltb, if◌then◌else◌,
}
use egreen_quanta_tes.Base.Text.{is_set, is_given, is_in, len_str, lower, strip}
use egreen_quanta_tes.Crypto.Types.{
  CryptoFinding, KeyParams, CertInfo, Severity, critical, high, medium, low, FindingCategory,
  weak_crypto, policy, forgery, text, when,
}

-- `s.startswith(p)`, `p in s` and `s.replace(old, new)`.
abbrev starts_with : String → String → Bool
starts_with String.[] s = true
starts_with (String.◌∷◌ c p) String.[] = false
starts_with (String.◌∷◌ c p) (String.◌∷◌ d s) = code c == code d && starts_with p s

abbrev pub occurs : String → String → Bool
occurs p String.[] = not (is_set p)
occurs p (String.◌∷◌ c s) = starts_with p (String.◌∷◌ c s) || occurs p s

-- The number is of the characters that are left of an occurrence that was replaced.
abbrev replace_from : String → String → ℕ → String → String
replace_from old new skip String.[] = ""
replace_from old new (suc n) (String.◌∷◌ c s) = replace_from old new n s
replace_from old new zero (String.◌∷◌ c s) =
    let inside = replace_from old new (len_str old - 1) s in
    let after = replace_from old new 0 s in
    if starts_with old (String.◌∷◌ c s) then append_str new inside else String.◌∷◌ c after

abbrev pub replace : String → String → String → String
replace old new s = replace_from old new 0 s

-- `_SUPPORTED` and `WEAK_HASHES`
abbrev supported : List String
supported =
    "md5" ∷ "sha1" ∷ "sha224" ∷ "sha256" ∷ "sha384" ∷ "sha512" ∷ "sha3-256" ∷ "sha3-384"
    ∷ "sha3-512" ∷ []

abbrev weak_hashes : List String
weak_hashes = "md5" ∷ "sha1" ∷ "sha224" ∷ []

-- `normalize_hash_name`; `none` where it raises.
abbrev dashed : String → String
dashed n = if starts_with "sha3" n && not (occurs "-" n) then replace "sha3" "sha3-" n else n

abbrev known : String → Option String
known n = if is_in n supported then some n else none

unfoldable pub normalize_hash_name : String → Option String
normalize_hash_name name =
    known (dashed (replace "sha-" "sha" (replace "_" "-" (lower (strip name)))))

-- `is_weak_hash`
abbrev weak_name : Option String → Bool
weak_name none = true
weak_name (some n) = is_in n weak_hashes

unfoldable pub is_weak_hash : String → Bool
unfolding normalize_hash_name lower strip
is_weak_hash name = weak_name (normalize_hash_name name)

-- `SignatureParams`
pub record SignatureParams : Type 0 where
  pub algorithm : String
  pub hash_alg : Option String
  pub padding : Option String
  pub key : Option KeyParams
  pub low_s : Option Bool
  pub der_canonical : Option Bool

-- `_STRONG_CURVES`
abbrev pub strong_curves : List String
strong_curves = "secp256r1" ∷ "secp384r1" ∷ "secp521r1" ∷ "secp256k1" ∷ []

-- `params.hash_alg and is_weak_hash(params.hash_alg)`
abbrev pub has_weak_digest : Option String → Bool
has_weak_digest none = false
has_weak_digest (some h) = is_set h && is_weak_hash h

-- `key.key_bits and key.key_bits < limit`
abbrev pub is_below : Option ℕ → ℕ → Bool
is_below none limit = false
is_below (some n) limit = not (n == 0) && ltb n limit

-- `key.rsa_exponent is not None and key.rsa_exponent < 3`
abbrev pub is_small : Option ℕ → Bool
is_small none = false
is_small (some e) = ltb e 3

-- `key.curve and key.curve not in _STRONG_CURVES`
abbrev pub is_weak_curve : Option String → Bool
is_weak_curve none = false
is_weak_curve (some c) = is_set c && not (is_in c strong_curves)

-- `x == name` and `x is False` for an optional value.
abbrev pub is_named : Option String → String → Bool
is_named none name = false
is_named (some s) name = str_eq s name

abbrev pub is_false : Option Bool → Bool
is_false none = false
is_false (some b) = not b

abbrev or_empty : Option String → String
or_empty none = ""
or_empty (some s) = s

module _ (decimal : ℕ → String) where
  abbrev digits : Option ℕ → String
  digits none = "None"
  digits (some n) = decimal n

  abbrev finding : String → String → Severity → FindingCategory → List String → CryptoFinding
  finding code title severity category detail = record {
    code = code;
    title = title;
    severity = severity;
    category = category;
    detail = text detail;
  }

  abbrev pub size_findings : Option ℕ → List CryptoFinding
  size_findings bits =
      if is_below bits 2048
      then finding "T03" "Undersized RSA key" high weak_crypto
          ("RSA-" ∷ digits bits ∷ " is below the 2048-bit minimum." ∷ [])
        ∷ []
      else when (is_below bits 3072) (
          finding "T03" "RSA key below recommended size" low weak_crypto
            ("RSA-" ∷ digits bits ∷ "; 3072-bit is recommended." ∷ []))

  -- The branches on the type of the key.
  unfoldable pub key_findings : KeyParams → List CryptoFinding
  key_findings key =
      if str_eq key.key_type "rsa"
      then size_findings key.key_bits
        ++ when (is_small key.rsa_exponent) (
            finding "T03" "Dangerous RSA public exponent" critical weak_crypto
              ("RSA public exponent e=" ∷ digits key.rsa_exponent ∷ "." ∷ []))
      else if str_eq key.key_type "dsa"
      then finding "T03" "DSA signature" high weak_crypto
          ("DSA is deprecated for new signatures." ∷ [])
        ∷ []
      else when (str_eq key.key_type "ec" && is_weak_curve key.curve) (
          finding "T03" "Non-standard or weak elliptic curve" medium weak_crypto
            ("Curve " ∷ or_empty key.curve ∷ " is not in the approved set." ∷ []))

  abbrev pub optional_key : Option KeyParams → List CryptoFinding
  optional_key none = []
  optional_key (some key) = key_findings key

  -- `signature_findings`
  unfoldable pub signature_findings : SignatureParams → Option String → List CryptoFinding
  signature_findings params policy_padding =
      when (has_weak_digest params.hash_alg) (
        finding "T02" "Weak digest algorithm" high weak_crypto (
          "Signature digest "
          ∷ or_empty params.hash_alg
          ∷ " is collision-broken or deprecated."
          ∷ []))
      ++ optional_key params.key
      ++ when (is_named params.padding "pkcs1v15" && is_named policy_padding "pss") (
          finding "T04" "RSA padding downgrade" medium policy
            ("PKCS#1 v1.5 padding used where policy requires RSA-PSS." ∷ []))
      ++ when (is_false params.low_s) (
          finding "T05" "Malleable ECDSA signature (high-S)" low forgery (
            "ECDSA signature is not in canonical low-S form; a third party can "
            ∷ "produce a second valid encoding of the same signature." ∷ []))
      ++ when (is_false params.der_canonical) (
          finding "T05" "Non-canonical DER encoding" medium forgery
            ("Signature DER encoding is not canonical." ∷ []))

-- `_hash_from_sig_algo`
abbrev first_in : List String → String → String
first_in [] s = "sha256"
first_in (name ∷ names) s = let rest = first_in names s in if occurs name s then name else rest

unfoldable pub hash_from_sig_algo : String → String
unfolding lower
hash_from_sig_algo sig_algo =
    first_in ("sha512" ∷ "sha384" ∷ "sha256" ∷ "sha224" ∷ "sha1" ∷ "md5" ∷ []) (lower sig_algo)

-- `expected_eku and info.ext_key_usage and expected_eku not in info.ext_key_usage`
abbrev pub has_some {ℓ} : {A : Type ℓ} → List A → Bool
has_some [] = false
has_some (a ∷ rest) = true

abbrev pub lacks_eku : Option String → List String → Bool
lacks_eku none usage = false
lacks_eku (some e) usage = is_set e && has_some usage && not (is_in e usage)

-- `certificate_findings`; a list is written into a text by `repr`.
module _ (decimal : ℕ → String) (repr : List String → String) where
  unfoldable pub certificate_findings : CertInfo → Option String → List CryptoFinding
  certificate_findings info expected_eku =
      when (is_weak_hash (hash_from_sig_algo info.sig_algo)) (
        finding decimal "T02" "Certificate signed with a weak digest" high weak_crypto
          ("Certificate signature algorithm: " ∷ info.sig_algo ∷ "." ∷ []))
      ++ when (str_eq info.key.key_type "rsa" && is_below info.key.key_bits 2048) (
          finding decimal "T03" "Certificate uses an undersized RSA key" high weak_crypto
            ("RSA-" ∷ digits decimal info.key.key_bits ∷ " in " ∷ info.subject ∷ "." ∷ []))
      ++ when (str_eq info.key.key_type "ec" && is_weak_curve info.key.curve) (
          finding decimal "T03" "Certificate uses a weak elliptic curve" medium weak_crypto
            ("Curve " ∷ or_empty info.key.curve ∷ " in " ∷ info.subject ∷ "." ∷ []))
      ++ when (lacks_eku expected_eku info.ext_key_usage) (
          finding decimal "T16" "Certificate lacks the required extended key usage" high policy (
            "Expected EKU '"
            ∷ or_empty expected_eku
            ∷ "', certificate has "
            ∷ repr info.ext_key_usage
            ∷ "."
            ∷ []))
