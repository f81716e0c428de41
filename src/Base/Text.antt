-- ===== src/Base/Text.antt =====
-- Texts: Python's `str` as the native `String`. Case mapping is given on ASCII.
use Prim.Native.Nat.{ℕ, zero, suc, ◌+◌, ◌-◌, ◌≤◌}
use Prim.Native.Char.{Char, code}
use Prim.Native.String.{String, ◌++◌}
use mathlib.Core.Path.{◌≡◌, refl}
use mathlib.Core.Bool.{Bool, true, false, ◌||◌, ◌&&◌}
use mathlib.Core.Option.{Option, none, some}
use mathlib.Core.List.{List, [], ◌∷◌}
use native.Mathlib.Omega.{arith}
use text.Mathlib.Text.{◌==◌ as str_eq}
use text.Mathlib.TextLemmas.{nil-append, cons-append}
use egreen_quanta_tes.Base.Tests.{leb, ◌==◌, if◌then◌else◌}

-- `s in xs`
abbrev pub is_in : String → List String → Bool
is_in s [] = false
is_in s (x ∷ xs) = str_eq s x || is_in s xs

-- The truth value of a `str`, and of a `str | None`.
abbrev pub is_set : String → Bool
is_set String.[] = false
is_set (String.◌∷◌ c s) = true

abbrev pub is_given : Option String → Bool
is_given none = false
is_given (some s) = is_set s

-- `len(s)` in characters, and `s[:n]`.
abbrev pub len_str : String → ℕ
len_str String.[] = 0
len_str (String.◌∷◌ c s) = suc (len_str s)

abbrev pub take_str : ℕ → String → String
take_str zero s = String.[]
take_str (suc n) String.[] = String.[]
take_str (suc n) (String.◌∷◌ c s) = String.◌∷◌ c (take_str n s)

abbrev nth_char : String → ℕ → Char → Char
nth_char String.[] n d = d
nth_char (String.◌∷◌ c s) zero d = c
nth_char (String.◌∷◌ c s) (suc n) d = nth_char s n d

-- `s.lower()`
lower_char : Char → Char
lower_char c =
    if leb b'A' (code c) && leb (code c) b'Z'
    then nth_char "abcdefghijklmnopqrstuvwxyz" (code c - b'A') c
    else c

unfoldable pub lower : String → String
unfolding lower_char
lower String.[] = String.[]
lower (String.◌∷◌ c s) = String.◌∷◌ (lower_char c) (lower s)

-- `s.strip()`, on ASCII whitespace.
abbrev is_space : Char → Bool
is_space c =
    code c == b' ' || (leb 9 (code c) && leb (code c) 13) || (leb 28 (code c) && leb (code c) 31)

abbrev lstrip : String → String
lstrip String.[] = String.[]
lstrip (String.◌∷◌ c s) = let rest = lstrip s in if is_space c then rest else String.◌∷◌ c s

abbrev push_back : Char → String → String
push_back c String.[] = if is_space c then String.[] else String.◌∷◌ c String.[]
push_back c (String.◌∷◌ d s) = String.◌∷◌ c (String.◌∷◌ d s)

rstrip : String → String
rstrip String.[] = String.[]
rstrip (String.◌∷◌ c s) = push_back c (rstrip s)

unfoldable pub strip : String → String
unfolding rstrip
strip s = rstrip (lstrip s)

-- `s.isdigit()`, on ASCII.
abbrev all_digits : String → Bool
all_digits String.[] = true
all_digits (String.◌∷◌ c s) = leb b'0' (code c) && leb (code c) b'9' && all_digits s

unfoldable pub is_digit : String → Bool
is_digit s = is_set s && all_digits s

-- `s.startswith(prefix)`, `part in s`, `s.split(sep)[0]`, and `s.replace(c, d)` on characters.
abbrev pub starts_with : String → String → Bool
starts_with String.[] s = true
starts_with (String.◌∷◌ c p) String.[] = false
starts_with (String.◌∷◌ c p) (String.◌∷◌ d s) = code c == code d && starts_with p s

abbrev pub contains : String → String → Bool
contains part String.[] = starts_with part String.[]
contains part (String.◌∷◌ c s) = starts_with part (String.◌∷◌ c s) || contains part s

abbrev pub before : String → String → String
before sep String.[] = String.[]
before sep (String.◌∷◌ c s) =
    let rest = before sep s in
    if starts_with sep (String.◌∷◌ c s) then String.[] else String.◌∷◌ c rest

abbrev pub replace_char : Char → Char → String → String
replace_char c d String.[] = String.[]
replace_char c d (String.◌∷◌ x s) =
    String.◌∷◌ (if code x == code c then d else x) (replace_char c d s)

-- What is cut off at `n` characters and extended is cut off at the same place again.
pub take_str-append :
    (n : ℕ) (s t : String) → n ≤ len_str s → take_str n (take_str n s ++ t) ≡ take_str n s
take_str-append zero s t h = refl
take_str-append (suc n) String.[] t h = elim h [ ]
take_str-append (suc n) (String.◌∷◌ c s) t h =
    rw cons-append (rw (take_str-append n s t (omega arith)))

pub len_str-take_append :
    (n : ℕ) (s t : String) → n ≤ len_str s → len_str (take_str n s ++ t) ≡ n + len_str t
len_str-take_append zero s t h = rw nil-append (omega arith)
len_str-take_append (suc n) String.[] t h = elim h [ ]
len_str-take_append (suc n) (String.◌∷◌ c s) t h =
    rw cons-append (omega (arith, len_str-take_append n s t (omega arith)))
