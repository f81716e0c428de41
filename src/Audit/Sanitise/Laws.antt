-- ===== src/Audit/Sanitise/Laws.antt =====
-- What `_sanitise` guarantees of every dictionary that reaches the log.
use Prim.Native.String.{◌++◌ as append_str}
use mathlib.Core.Path.{ap₂}
use egreen_quanta_tes.Base.{
  ◌<◌, ltb→lt, ◌≤◌, String, ◌≡◌, refl, ap, true, arith, ltb, inl, inr, Bool-cases,
}
use egreen_quanta_tes.Base.Text.{len_str, take_str, take_str-append, len_str-take_append}
use egreen_quanta_tes.Audit.Value.{
  Value, Fields, null, bool, num, negative, float, str, dict, arr, end, field,
}
use egreen_quanta_tes.Audit.Sanitise.{is_redacted, shorten, sanitise, sanitise_value}

abbrev mutual
  pub IsClean : Fields → Type 0
  IsClean end = Unit
  IsClean (field k v rest) = (is_redacted k ≡ true → v ≡ str "***") × IsCleanValue v × IsClean rest

  pub IsCleanValue : Value → Type 0
  IsCleanValue (dict fs) = IsClean fs
  IsCleanValue (str s) = len_str s ≤ 501
  IsCleanValue v = Unit

-- Every text is at most 501 characters long: 500 of its own, and the mark of the cut.
len_str-shorten : (s : String) → len_str (shorten s) ≤ 501
unfolding shorten
len_str-shorten s = elim (Bool-cases (ltb 500 (len_str s))) [
  | inl long ↦ rw long (omega (arith, len_str-take_append 500 s "…" (ground arith)))
  | inr short ↦ rw short (ground arith)
]

cut :
    (s : String)
    → 500 < len_str s
    → shorten (append_str (take_str 500 s) "…") ≡ append_str (take_str 500 s) "…"
unfolding shorten
cut s long =
    rw (len_str-take_append 500 s "…" (omega arith))
      (ap (λ t. append_str t "…") (take_str-append 500 s "…" (omega arith)))

shorten_twice : (s : String) → shorten (shorten s) ≡ shorten s
unfolding shorten
shorten_twice s = elim (Bool-cases (ltb 500 (len_str s))) [
  | inl long ↦ rw long (cut s (ltb→lt 500 (len_str s) long))
  | inr short ↦ rw (short, short)
]

mutual
  unfolding sanitise

  clean : (fs : Fields) → IsClean (sanitise fs)
  clean end = tt
  clean (field k v rest) = elim (Bool-cases (is_redacted k)) [
    | inl secret ↦ rw secret ((λ _. refl), omega arith, clean rest)
    | inr plain ↦ rw plain ((λ e. cc), clean_value v, clean rest)
  ]

  clean_value : (v : Value) → IsCleanValue (sanitise_value v)
  clean_value (dict fs) = clean fs
  clean_value (str s) = len_str-shorten s
  clean_value null = tt
  clean_value (bool b) = tt
  clean_value (num n) = tt
  clean_value (negative n) = tt
  clean_value (float r) = tt
  clean_value (arr xs) = tt

mutual
  unfolding sanitise

  again : (fs : Fields) → sanitise (sanitise fs) ≡ sanitise fs
  again end = refl
  again (field k v rest) = elim (Bool-cases (is_redacted k)) [
    | inl secret ↦ rw secret (ap (field k (str "***")) (again rest))
    | inr plain ↦ rw plain (ap₂ (field k) (again_value v) (again rest))
  ]

  again_value : (v : Value) → sanitise_value (sanitise_value v) ≡ sanitise_value v
  again_value (dict fs) = ap dict (again fs)
  again_value (str s) = ap str (shorten_twice s)
  again_value null = refl
  again_value (bool b) = refl
  again_value (num n) = refl
  again_value (negative n) = refl
  again_value (float r) = refl
  again_value (arr xs) = refl

-- Whatever dictionary is given, in what `_sanitise` returns each key that is on the redaction list
-- (in any case) holds "***", at every depth of nested dictionaries, and no text is longer than 501
-- characters. (Lists are not searched.)
pub sanitise-IsClean : (fs : Fields) → IsClean (sanitise fs)
sanitise-IsClean fs = clean fs

-- A dictionary that has been sanitised once is not changed by a second pass.
pub sanitise-sanitise : (fs : Fields) → sanitise (sanitise fs) ≡ sanitise fs
sanitise-sanitise fs = again fs
