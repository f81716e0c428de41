-- ===== src/Audit/Sanitise.antt =====
-- `_sanitise` of backend/app/services/audit/chain.py: secrets are redacted by key, nested
-- dictionaries are searched, long texts are cut.
pub mod Laws
mod Tests
use Prim.Native.String.{◌++◌ as append_str}
use egreen_quanta_tes.Base.{ℕ, String, Bool, List, [], ◌∷◌, ltb, if◌then◌else◌}
use egreen_quanta_tes.Base.Text.{is_in, len_str, take_str, lower}
use egreen_quanta_tes.Audit.Value.{Value, Fields, str, dict, end, field}

abbrev pub redact_keys : List String
redact_keys = "password" ∷ "secret" ∷ "token" ∷ "api_key" ∷ "authorization" ∷ "refresh_token" ∷ []

unfoldable pub is_redacted : String → Bool
unfolding lower
is_redacted k = is_in (lower k) redact_keys

unfoldable pub shorten : String → String
shorten s = if ltb 500 (len_str s) then append_str (take_str 500 s) "…" else s

unfoldable mutual
  pub sanitise : Fields → Fields
  sanitise end = end
  sanitise (field k v rest) =
      field k (if is_redacted k then str "***" else sanitise_value v) (sanitise rest)

  pub sanitise_value : Value → Value
  sanitise_value (dict fs) = dict (sanitise fs)
  sanitise_value (str s) = str (shorten s)
  sanitise_value v = v
