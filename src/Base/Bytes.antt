-- ===== src/Base/Bytes.antt =====
-- Python's `bytes` as a list of numbers, with the tests that the services make on them.
use Prim.Native.Nat.{ℕ, zero, suc}
use Prim.Native.Char.{code}
use Prim.Native.String.{String}
use mathlib.Core.Bool.{Bool, true, false, ◌||◌, ◌&&◌}
use mathlib.Core.List.{List, [], ◌∷◌}
use egreen_quanta_tes.Base.Tests.{◌==◌, if◌then◌else◌}

abbrev pub Bytes : Type 0
Bytes = List ℕ

-- The literal `b"..."` of ASCII characters.
abbrev pub ascii : String → Bytes
ascii String.[] = []
ascii (String.◌∷◌ c s) = code c ∷ ascii s

-- `a == b`, and `b.startswith(a)`.
abbrev pub same_bytes : Bytes → Bytes → Bool
same_bytes [] [] = true
same_bytes [] (y ∷ ys) = false
same_bytes (x ∷ xs) [] = false
same_bytes (x ∷ xs) (y ∷ ys) = x == y && same_bytes xs ys

abbrev pub has_prefix : Bytes → Bytes → Bool
has_prefix [] ys = true
has_prefix (x ∷ xs) [] = false
has_prefix (x ∷ xs) (y ∷ ys) = x == y && has_prefix xs ys

-- `a in b`
abbrev pub has_infix : Bytes → Bytes → Bool
has_infix p [] = has_prefix p []
has_infix p (y ∷ ys) = has_prefix p (y ∷ ys) || has_infix p ys

-- `b.count(c)` of one byte, `b[n:]`, and the truth value of `b`.
abbrev pub count_byte : ℕ → Bytes → ℕ
count_byte c [] = 0
count_byte c (y ∷ ys) = let rest = count_byte c ys in if y == c then suc rest else rest

abbrev pub drop_bytes : ℕ → Bytes → Bytes
drop_bytes zero ys = ys
drop_bytes (suc n) [] = []
drop_bytes (suc n) (y ∷ ys) = drop_bytes n ys

abbrev pub is_filled : Bytes → Bool
is_filled [] = false
is_filled (y ∷ ys) = true
