-- ===== src/Quantum/Groups/Counts.antt =====
-- How often the groups of the correlation hold an index.
use egreen_quanta_tes.Base.{
  ℕ, zero, suc, ◌+◌, ◌==◌, ◌<◌, ◌≤◌, ◌≡◌, refl, inl, inr, Bool-cases, List, [], ◌∷◌, ◌++◌, arith,
  if◌then◌else◌,
}
use egreen_quanta_tes.Quantum.Numeric.{range}

-- How often a list holds `i`, and how often the groups do.
abbrev pub count : ℕ → List ℕ → ℕ
count i [] = 0
count i (x ∷ xs) = (if x == i then 1 else 0) + count i xs

abbrev pub count_all : ℕ → List (List ℕ) → ℕ
count_all i [] = 0
count_all i (g ∷ gs) = count i g + count_all i gs

pub count-append : (i : ℕ) (xs ys : List ℕ) → count i (xs ++ ys) ≡ count i xs + count i ys
count-append i [] ys = omega arith
count-append i (x ∷ xs) ys = omega (arith, count-append i xs ys)

pub count-range_before : (i start size : ℕ) → i < start → count i (range start size) ≡ 0
count-range_before i start zero h = refl
count-range_before i start (suc size) h =
    ground (arith, count-range_before i (suc start) size (omega (arith, h)))

pub count-range : (i start size : ℕ) → start ≤ i → i < start + size → count i (range start size) ≡ 1
count-range i start zero l h = let no : ⊥ = omega (arith, l, h) in elim no [ ]
count-range i start (suc size) l h = elim (Bool-cases (start == i)) [
  | inl e ↦ rw e (omega (arith, count-range_before i (suc start) size (ground (arith, e))))
  | inr e ↦
      rw e (omega (arith, count-range i (suc start) size (ground (arith, e)) (omega (arith, h))))
]
