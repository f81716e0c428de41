-- ===== src/Identity/ApiKeys/Format.antt =====
-- The text formats of API keys: the full key shown to the caller once, and the column of scopes.
use Prim.Native.Char.{Char, code}
use Prim.Native.String.{◌++◌ as append_str}
use text.Mathlib.TextLemmas.{nil-append, cons-append}
use egreen_quanta_tes.Base.{
  ℕ, zero, suc, String, Bool, true, false, not, ◌&&◌, ◌≡◌, refl, some, List, [], ◌∷◌, ◌==◌, keep,
  map, arith,
}
use egreen_quanta_tes.Base.Text.{is_set, is_in}
use egreen_quanta_tes.Identity.ApiKeys.{
  ApiKeyScope, ingest_events, ingest_signatures, scope_value, ApiKeyCreate, new_key, full_key,
  parse_api_key, scope_list, scope_text, split_all, join_commas, split_at,
}

-- No character of the text is the separator.
abbrev pub lacks : ℕ → String → Bool
lacks sep String.[] = true
lacks sep (String.◌∷◌ c s) = not (code c == sep) && lacks sep s

split_at-append :
    (sep n : ℕ) (c : Char) (s t : String)
    → code c ≡ sep
    → lacks sep s ≡ true
    → split_at sep (suc n) (append_str s (String.◌∷◌ c t)) ≡ s ∷ split_at sep n t
split_at-append sep n c String.[] t is_sep l = rw nil-append (ground arith)
split_at-append sep n c (String.◌∷◌ d s) t is_sep l =
    rw cons-append (ground (arith, split_at-append sep n c s t))

split_at-zero : (sep : ℕ) (s : String) → split_at sep zero s ≡ s ∷ []
split_at-zero sep String.[] = refl
split_at-zero sep (String.◌∷◌ c s) = refl

underscore-append : (t : String) → append_str "_" t ≡ String.◌∷◌ "_" t
underscore-append t = rw cons-append (rw nil-append refl)

cut-append :
    (n : ℕ) (s t : String)
    → lacks b'_' s ≡ true
    → split_at b'_' (suc n) (append_str s (append_str "_" t)) ≡ s ∷ split_at b'_' n t
cut-append n s t l = rw (underscore-append t) (split_at-append b'_' n "_" s t refl l)

-- Parsing the full key that was issued gives back its prefix and the hash of its secret, for a
-- prefix without an underscore (the secret may hold any number of them), both not empty.
pub parse_api_key-full_key :
    (hash_token : String → String) (prefix secret : String)
    → lacks b'_' prefix ≡ true
    → is_set prefix ≡ true
    → is_set secret ≡ true
    → parse_api_key hash_token (full_key prefix secret) ≡ some (prefix, hash_token secret)
unfolding parse_api_key full_key
parse_api_key-full_key hash_token prefix secret l p s =
    rw (cut-append 1 "egq" (append_str prefix (append_str "_" secret)) refl)
      (rw (cut-append 0 prefix secret l) (rw (split_at-zero b'_' secret) (ground arith)))

abbrev read_back : (String → Bool) → List String
read_back p =
    keep is_set (split_all b',' (join_commas (keep p ("ingest:events" ∷ "ingest:signatures" ∷ []))))

read_back-keep :
    (p : String → Bool) (a b : Bool) (scope : ApiKeyScope)
    → p "ingest:events" ≡ a
    → p "ingest:signatures" ≡ b
    → is_in (scope_value scope) (read_back p) ≡ p (scope_value scope)
read_back-keep p true true ingest_events e s = rw (e, s, keep) (refl {a = true})
read_back-keep p true true ingest_signatures e s = rw (e, s, keep) (refl {a = true})
read_back-keep p true false ingest_events e s = rw (e, s, keep) (refl {a = true})
read_back-keep p true false ingest_signatures e s = rw (e, s, keep) (refl {a = false})
read_back-keep p false true ingest_events e s = rw (e, s, keep) (refl {a = false})
read_back-keep p false true ingest_signatures e s = rw (e, s, keep) (refl {a = true})
read_back-keep p false false ingest_events e s = rw (e, s, keep) (refl {a = false})
read_back-keep p false false ingest_signatures e s = rw (e, s, keep) (refl {a = false})

-- The scopes read from a new row are those that were asked for: no more, and none lost.
pub scope_list-new_key :
    (hash_token : String → String) (now : ℕ) (id prefix secret : String) (payload : ApiKeyCreate)
    (by : String)
    → (scope : ApiKeyScope)
    → is_in (scope_value scope) (scope_list (new_key hash_token now id prefix secret payload by))
      ≡ is_in (scope_value scope) (map scope_value payload.scopes)
unfolding new_key scope_list scope_text
scope_list-new_key hash_token now id prefix secret payload by scope =
    let asked = λ (v : String). is_in v (map scope_value payload.scopes) in
    read_back-keep asked (asked "ingest:events") (asked "ingest:signatures") scope refl refl
