-- ===== src/Quantum/Qubo/Optimal.antt =====
-- The exact solver returns a bit vector of least energy.
use egreen_quanta_tes.Base.{
  ℕ, zero, suc, ◌+◌, ◌-◌, ◌*◌, ◌/◌, ◌%◌, ◌^◌, ◌≤◌, ◌<◌, ◌≡◌, refl, ap, subst, ◌∙◌, true, some, List,
  [], ◌∷◌, arith, inl, inr, Bool, Bool-cases,
}
use native.Mathlib.Nat.{two-pow-succ}
use egreen_quanta_tes.Detection.Number.{Numbers}
use egreen_quanta_tes.Quantum.Numeric.{Numpy}
use egreen_quanta_tes.Quantum.Qubo.{
  QuboModel, shift_right, bits_from, zeros, energy, improve, scan, brute_force,
}

-- What the loop relies on of `<`: the order of Python's floats, not-a-number excluded.
pub record IsOrder (nums : Numbers) : Type 0 where
  pub le_refl : (a : nums.Float) → nums.le a a ≡ true
  pub le_trans : (a b c : nums.Float) → nums.le a b ≡ true → nums.le b c ≡ true → nums.le a c ≡ true
  pub le_total : (a b : nums.Float) → nums.le a b ≡ Bool.false → nums.le b a ≡ true

-- A vector of `n` bits.
abbrev pub IsBits : ℕ → List ℕ → Type 0
IsBits zero [] = Unit
IsBits zero (b ∷ bs) = ⊥
IsBits (suc n) [] = ⊥
IsBits (suc n) (b ∷ bs) = (b < 2) × IsBits n bs

bits_from-IsBits : (b n mask : ℕ) → IsBits n (bits_from b n mask)
bits_from-IsBits b zero mask = tt
bits_from-IsBits b (suc n) mask = (omega arith, bits_from-IsBits (suc b) n mask)

zeros-IsBits : (n : ℕ) → IsBits n (zeros n)
zeros-IsBits zero = tt
zeros-IsBits (suc n) = (omega arith, zeros-IsBits n)

shifted : (b n mask : ℕ) → bits_from (suc b) n mask ≡ bits_from b n (mask / 2)
shifted b zero mask = refl
shifted b (suc n) mask = ap (λ r. shift_right (mask / 2) b % 2 ∷ r) (shifted (suc b) n mask)

-- The mask of a bit vector.
abbrev mask_of : List ℕ → ℕ
mask_of [] = 0
mask_of (b ∷ bs) = b + 2 * mask_of bs

mask_of-lt : (n : ℕ) (x : List ℕ) → IsBits n x → mask_of x < 2 ^ n
mask_of-lt zero [] h = omega arith
mask_of-lt zero (b ∷ bs) h = elim h [ ]
mask_of-lt (suc n) [] h = elim h [ ]
mask_of-lt (suc n) (b ∷ bs) h = omega (arith, mask_of-lt n bs h.1, two-pow-succ n, h.0)

bits_from-mask_of : (n : ℕ) (x : List ℕ) → IsBits n x → bits_from 0 n (mask_of x) ≡ x
bits_from-mask_of zero [] h = refl
bits_from-mask_of zero (b ∷ bs) h = elim h [ ]
bits_from-mask_of (suc n) [] h = elim h [ ]
bits_from-mask_of (suc n) (b ∷ bs) h =
    ap (λ c. c ∷ bits_from 1 n (b + 2 * mask_of bs)) low
    ∙ ap (λ r. b ∷ r) (shifted 0 n _ ∙ ap (bits_from 0 n) high ∙ bits_from-mask_of n bs h.1)
  where
    low : (b + 2 * mask_of bs) % 2 ≡ b
    low = omega (arith, h.0)

    high : (b + 2 * mask_of bs) / 2 ≡ mask_of bs
    high = omega (arith, h.0)

zeros-bits_from : (n : ℕ) → bits_from 0 n 0 ≡ zeros n
zeros-bits_from zero = refl
zeros-bits_from (suc n) = ap (λ r. 0 ∷ r) (shifted 0 n 0 ∙ zeros-bits_from n)

module _ (n : Numbers) (laws : IsOrder n) (np : Numpy n) where
  -- What the loop keeps: the best pair is a bit vector with its energy.
  abbrev IsPair : QuboModel n → List ℕ × n.Float → Type 0
  IsPair m best = IsBits m.n best.0 × (best.1 ≡ energy n np m best.0)

  improve-IsPair :
      (m : QuboModel n) (mask : ℕ) (best : List ℕ × n.Float)
      → IsPair m best
      → IsPair m (improve n np m mask best)
  improve-IsPair m mask best h =
      elim (Bool-cases (n.le best.1 (energy n np m (bits_from 0 m.n mask)))) [
        | inl e ↦ rw e h
        | inr e ↦ rw e (bits_from-IsBits 0 m.n mask, refl)
      ]

  improve-le :
      (m : QuboModel n) (mask : ℕ) (best : List ℕ × n.Float)
      → n.le (improve n np m mask best).1 best.1 ≡ true
  improve-le m mask best = elim (Bool-cases (n.le best.1 (energy n np m (bits_from 0 m.n mask)))) [
    | inl e ↦ rw e (laws.le_refl _)
    | inr e ↦ rw e (laws.le_total _ _ e)
  ]

  improve-le_mask :
      (m : QuboModel n) (mask : ℕ) (best : List ℕ × n.Float)
      → n.le (improve n np m mask best).1 (energy n np m (bits_from 0 m.n mask)) ≡ true
  improve-le_mask m mask best =
      elim (Bool-cases (n.le best.1 (energy n np m (bits_from 0 m.n mask)))) [
        | inl e ↦ rw e e
        | inr e ↦ rw e (laws.le_refl _)
      ]

  scan-IsPair :
      (m : QuboModel n) (count mask : ℕ) (best : List ℕ × n.Float)
      → IsPair m best
      → IsPair m (scan n np m count mask best)
  scan-IsPair m zero mask best h = h
  scan-IsPair m (suc count) mask best h =
      scan-IsPair m count (suc mask) _ (improve-IsPair m mask best h)

  scan-le :
      (m : QuboModel n) (count mask : ℕ) (best : List ℕ × n.Float)
      → n.le (scan n np m count mask best).1 best.1 ≡ true
  scan-le m zero mask best = laws.le_refl _
  scan-le m (suc count) mask best =
      laws.le_trans _ _ _ (scan-le m count (suc mask) _) (improve-le m mask best)

  -- No mask of the loop is better than the result.
  scan-le_mask :
      (m : QuboModel n) (count mask k j : ℕ) (best : List ℕ × n.Float)
      → k < count
      → mask + k ≡ j
      → n.le (scan n np m count mask best).1 (energy n np m (bits_from 0 m.n j)) ≡ true
  scan-le_mask m zero mask k j best h e = let absurd : ⊥ = omega (arith, h) in elim absurd [ ]
  scan-le_mask m (suc count) mask zero j best h e =
      let same : mask ≡ j = omega (arith, e) in
      subst
        (λ i. n.le (scan n np m (suc count) mask best).1 (energy n np m (bits_from 0 m.n i)) ≡ true)
        same (laws.le_trans _ _ _ (scan-le m count (suc mask) _) (improve-le_mask m mask best))
  scan-le_mask m (suc count) mask (suc k) j best h e =
      scan-le_mask m count (suc mask) k j (improve n np m mask best) (omega (arith, h))
        (omega (arith, e))

  abbrev start : QuboModel n → List ℕ × n.Float
  start m = (zeros m.n, energy n np m (zeros m.n))

  abbrev result : QuboModel n → List ℕ × n.Float
  result m = scan n np m (2 ^ m.n - 1) 1 (start m)

  result-le :
      (m : QuboModel n) (mask : ℕ)
      → mask < 2 ^ m.n
      → n.le (result m).1 (energy n np m (bits_from 0 m.n mask)) ≡ true
  result-le m zero h = rw (zeros-bits_from m.n) (scan-le m (2 ^ m.n - 1) 1 (start m))
  result-le m (suc k) h =
      scan-le_mask m (2 ^ m.n - 1) 1 k (suc k) (start m) (omega (arith, h)) (omega arith)

  result-IsPair : (m : QuboModel n) → IsPair m (result m)
  result-IsPair m = scan-IsPair m (2 ^ m.n - 1) 1 (start m) (zeros-IsBits m.n, refl)

  brute_force-result : (m : QuboModel n) → m.n ≤ 22 → brute_force n np m ≡ some (result m)
  unfolding brute_force
  brute_force-result m h = ground arith

  -- With at most 22 variables, the exact solver returns a vector of that many bits with its energy, and
  -- no vector of that many bits has less energy.
  pub brute_force-IsLeast :
      (m : QuboModel n)
      → m.n ≤ 22
      → (x : List ℕ) × (brute_force n np m ≡ some (x, energy n np m x))
        × IsBits m.n x
        × ((y : List ℕ) → IsBits m.n y → n.le (energy n np m x) (energy n np m y) ≡ true)
  brute_force-IsLeast m h = (
    (result m).0,
    brute_force-result m h ∙ ap (λ e. some ((result m).0, e)) (result-IsPair m).1,
    (result-IsPair m).0,
    λ y bits.
        subst (λ e. n.le e (energy n np m y) ≡ true) (result-IsPair m).1
          (subst (λ z. n.le (result m).1 (energy n np m z) ≡ true) (bits_from-mask_of m.n y bits)
            (result-le m (mask_of y) (mask_of-lt m.n y bits))),
  )
