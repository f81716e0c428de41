-- ===== src/Quantum/Correlation/Counts.antt =====
-- How picking from a list without repetitions shares it out.
use egreen_quanta_tes.Base.{
  ℕ, zero, suc, ◌+◌, ◌≤◌, ◌==◌, ◌≡◌, refl, sym, ap, ◌∙◌, inl, inr, Bool, true, false, not,
  Bool-cases, List, [], ◌∷◌, ◌++◌, keep, keep-yes, keep-no, arith,
}
use egreen_quanta_tes.Quantum.Numeric.{range}
use egreen_quanta_tes.Quantum.Groups.Counts.{count, count_all, count-range_before}
use egreen_quanta_tes.Quantum.Correlation.{picked, holds, without}

same : (a b : ℕ) → (a == b) ≡ true → a ≡ b
same a b h = ground arith

count-keep_yes :
    (p : ℕ → Bool) (i : ℕ) (xs : List ℕ) → p i ≡ true → count i (keep p xs) ≡ count i xs
count-keep_yes p i [] h = refl
count-keep_yes p i (x ∷ xs) h = elim (Bool-cases (p x)) [
  | inl e ↦ rw (keep-yes p x xs e) (omega (arith, count-keep_yes p i xs h))
  | inr e ↦ rw (keep-no p x xs e) (elim (Bool-cases (x == i)) [
    | inl d ↦ elim (clash (sym e ∙ ap p (same x i d) ∙ h)) [ ]
    | inr d ↦ rw d (omega (arith, count-keep_yes p i xs h))
  ])
]
  where
    clash : false ≡ true → ⊥
    clash e = ground (arith, e)

count-keep_no : (p : ℕ → Bool) (i : ℕ) (xs : List ℕ) → p i ≡ false → count i (keep p xs) ≡ 0
count-keep_no p i [] h = refl
count-keep_no p i (x ∷ xs) h = elim (Bool-cases (p x)) [
  | inl e ↦ rw (keep-yes p x xs e) (elim (Bool-cases (x == i)) [
    | inl d ↦ elim (clash (sym h ∙ ap p (sym (same x i d)) ∙ e)) [ ]
    | inr d ↦ rw d (omega (arith, count-keep_no p i xs h))
  ])
  | inr e ↦ rw (keep-no p x xs e) (count-keep_no p i xs h)
]
  where
    clash : false ≡ true → ⊥
    clash e = ground (arith, e)

count-held : (i : ℕ) (xs : List ℕ) → holds xs i ≡ true → 1 ≤ count i xs
count-held i [] h = ground (arith, h)
count-held i (x ∷ xs) h = ground (arith, h, count-held i xs)

count-not_held : (i : ℕ) (xs : List ℕ) → holds xs i ≡ false → count i xs ≡ 0
count-not_held i [] h = refl
count-not_held i (x ∷ xs) h = ground (arith, h, count-not_held i xs)

count-picked : (i : ℕ) (idx bits : List ℕ) → count i (picked idx bits) ≤ count i idx
count-picked i [] bits = omega arith
count-picked i (x ∷ idx) [] = omega arith
count-picked i (x ∷ idx) (b ∷ bits) = elim (Bool-cases (b == 1)) [
  | inl e ↦ rw e (omega (arith, count-picked i idx bits))
  | inr e ↦ rw e (omega (arith, count-picked i idx bits))
]

-- What is picked and what remains share out a list without repetitions.
pub count-without :
    (i : ℕ) (idx bits : List ℕ)
    → count i idx ≤ 1
    → count i (picked idx bits) + count i (without idx (picked idx bits)) ≡ count i idx
count-without i idx bits once = elim (Bool-cases (holds (picked idx bits) i)) [
  | inl e ↦ omega (
    arith,
    once,
    count-picked i idx bits,
    count-held i (picked idx bits) e,
    count-keep_no (λ k. not (holds (picked idx bits) k)) i idx (ap not e),
  )
  | inr e ↦ omega (
    arith,
    count-not_held i (picked idx bits) e,
    count-keep_yes (λ k. not (holds (picked idx bits) k)) i idx (ap not e),
  )
]

pub count_all-append_one :
    (i : ℕ) (gs : List (List ℕ)) (g : List ℕ)
    → count_all i (gs ++ g ∷ []) ≡ count_all i gs + count i g
count_all-append_one i [] g = omega arith
count_all-append_one i (h ∷ gs) g = omega (arith, count_all-append_one i gs g)

pub count-range_le : (i start size : ℕ) → count i (range start size) ≤ 1
count-range_le i start zero = omega arith
count-range_le i start (suc size) = elim (Bool-cases (start == i)) [
  | inl e ↦ rw e (omega (arith, count-range_before i (suc start) size (ground (arith, e))))
  | inr e ↦ rw e (omega (arith, count-range_le i (suc start) size))
]
