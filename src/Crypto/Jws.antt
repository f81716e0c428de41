-- ===== src/Crypto/Jws.antt =====
-- backend/app/services/crypto/jws.py: the check of a compact JWS. What PyJWT reads from a token and
-- makes of it under a key is the record `JwsTools`.
pub mod Verified
use Prim.Native.Char.{code}
use Prim.Native.String.{◌++◌ as append_str}
use egreen_quanta_tes.Base.{
  ℕ, suc, ◌==◌, String, Bool, true, false, not, Option, none, some, List, [], ◌∷◌, ◌⊎◌, inl, inr,
  str_eq, if◌then◌else◌,
}
use egreen_quanta_tes.Base.Text.{is_set, lower, strip}
use egreen_quanta_tes.Base.Bytes.{Bytes}
use egreen_quanta_tes.Crypto.Types.{text}
use egreen_quanta_tes.Crypto.Errors.{CryptoError, material_parse_error, and_then}
use egreen_quanta_tes.Crypto.WeakAlgo.{SignatureParams}
use egreen_quanta_tes.Crypto.Raw.{Keys}

-- The header's `alg` and `x5c`, each when it is there.
pub record JwsHeader : Type 0 where
  pub alg : Option String
  pub x5c : Option (List String)

-- What `PyJWS.decode` does: the payload, InvalidSignatureError, or another PyJWTError with its text.
pub data Decoded : Type 0 where
  payload : Bytes → Decoded
  invalid_signature : Decoded
  other_error : String → Decoded

pub record JwsTools (keys : Keys) : Type 0 where
  pub get_unverified_header : String → String ⊎ JwsHeader
  pub decode : String → keys.PublicKey → String → Decoded

-- `JwsResult`
pub record JwsResult : Type 0 where
  pub verified : Bool
  pub algorithm : String
  pub params : SignatureParams
  pub content : Option Bytes
  pub header : JwsHeader
  pub failure : Option String

-- `_ALG_TO_PARAMS`
abbrev alg_to_params : List (String × Option String × Option String)
alg_to_params =
    ("RS256", some "sha256", some "pkcs1v15")
    ∷ ("RS384", some "sha384", some "pkcs1v15")
    ∷ ("RS512", some "sha512", some "pkcs1v15")
    ∷ ("PS256", some "sha256", some "pss")
    ∷ ("PS384", some "sha384", some "pss")
    ∷ ("PS512", some "sha512", some "pss")
    ∷ ("ES256", some "sha256", none)
    ∷ ("ES384", some "sha384", none)
    ∷ ("ES512", some "sha512", none)
    ∷ ("EdDSA", none, none)
    ∷ []

abbrev get_alg :
    List (String × Option String × Option String) → String → Option (Option String × Option String)
get_alg [] alg = none
get_alg ((name, hash, padding) ∷ rest) alg =
    let others = get_alg rest alg in if str_eq name alg then some (hash, padding) else others

unfoldable pub params_of_alg : String → Option (Option String × Option String)
params_of_alg alg = get_alg alg_to_params alg

-- `token.count(".")`
abbrev pub count_dots : String → ℕ
count_dots String.[] = 0
count_dots (String.◌∷◌ c s) = let rest = count_dots s in if code c == b'.' then suc rest else rest

abbrev pub alg_or : Option String → String → String
alg_or none default = default
alg_or (some a) default = a

abbrev bare_params : String → SignatureParams
bare_params name = record {
  algorithm = name;
  hash_alg = none;
  padding = none;
  key = none;
  low_s = none;
  der_canonical = none;
}

abbrev refused : String → JwsHeader → String → String → JwsResult
refused alg header name why = record {
  verified = false;
  algorithm = alg;
  params = bare_params name;
  content = none;
  header = header;
  failure = some why;
}

module _ (keys : Keys) (tools : JwsTools keys) where
  -- `parse_header`
  abbrev header_of : String ⊎ JwsHeader → CryptoError ⊎ JwsHeader
  header_of (inl why) = inl (material_parse_error (append_str "Invalid JWS header: " why))
  header_of (inr header) = inr header

  unfoldable pub parse_header : String → CryptoError ⊎ JwsHeader
  parse_header token = header_of (tools.get_unverified_header token)

  abbrev pub decoded : Decoded → String → SignatureParams → JwsHeader → JwsResult
  decoded (payload p) alg params header = record {
    verified = true;
    algorithm = alg;
    params = params;
    content = some p;
    header = header;
    failure = none;
  }
  decoded invalid_signature alg params header = record {
    verified = false;
    algorithm = alg;
    params = params;
    content = none;
    header = header;
    failure = some "signature does not verify";
  }
  decoded (other_error why) alg params header = record {
    verified = false;
    algorithm = alg;
    params = params;
    content = none;
    header = header;
    failure = some why;
  }

  abbrev pub with_params :
      Option (Option String × Option String)
      → String
      → String
      → JwsHeader
      → keys.PublicKey
      → JwsResult
  with_params none alg token header key =
      refused alg header (if is_set alg then alg else "unknown")
        (text ("unsupported JWS alg '" ∷ alg ∷ "'" ∷ []))
  with_params (some (hash, padding)) alg token header key =
      decoded (tools.decode token key alg) alg
        (record {
          algorithm = text ("jws-" ∷ lower alg ∷ []);
          hash_alg = hash;
          padding = padding;
          key = some (keys.key_params key);
          low_s = none;
          der_canonical = none;
        })
        header

  unfoldable pub check_header : String → String → JwsHeader → keys.PublicKey → JwsResult
  check_header alg token header key =
      if str_eq alg "none"
      then refused alg header "none" "'none' algorithm is not accepted"
      else with_params (params_of_alg alg) alg token header key

  -- `verify_compact`
  unfoldable pub verify_compact : String → keys.PublicKey → CryptoError ⊎ JwsResult
  verify_compact token key =
      if count_dots (strip token) == 2
      then and_then (parse_header (strip token))
          (λ header. inr (check_header (alg_or header.alg "") (strip token) header key))
      else inl (material_parse_error "Not a compact JWS (expected three dot-separated segments)")
