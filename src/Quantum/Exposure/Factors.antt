-- ===== src/Quantum/Exposure/Factors.antt =====
-- The laws of rounding that the exposure score relies on, and its factors between 0 and 1.
use egreen_quanta_tes.Base.{
  ℕ, ◌-◌, ◌*◌, ◌<◌, ◌≤◌, String, ◌≡◌, inl, inr, Bool, true, false, ◌&&◌, ◌||◌, Bool-cases, Option,
  List, [], ◌∷◌, arith, leb, str_eq, if◌then◌else◌,
}
use egreen_quanta_tes.Base.Text.{is_in, starts_with}
use egreen_quanta_tes.Detection.Number.{Numbers, null, one, hundred}
use egreen_quanta_tes.Quantum.Exposure.{
  post_quantum, shor_breakable, starts_with_any, bits_of_curve, key_bits_or, last_of, blend,
  between, interp, rsa_strength, ecc_strength, exposure_of, factors_of,
}

-- What the bounds rely on of the floats: rounding keeps the order, up to 2 ^ 53 strictly, and is exact at 0, 1 and 100.
pub record IsRounded (nums : Numbers) : Type 0 where
  pub le_refl : (a : nums.Float) → nums.le a a ≡ true
  pub le_trans : (a b c : nums.Float) → nums.le a b ≡ true → nums.le b c ≡ true → nums.le a c ≡ true
  pub le_total : (a b : nums.Float) → nums.le a b ≡ false → nums.le b a ≡ true
  pub le_lit : (j k : ℕ) → j ≤ k → nums.le (nums.lit j) (nums.lit k) ≡ true
  pub lt_lit : (j k : ℕ) → j < k → k ≤ 9007199254740992 → nums.le (nums.lit k) (nums.lit j) ≡ false
  pub add_nonneg :
      (a b : nums.Float)
      → nums.le (null nums) a ≡ true
      → nums.le (null nums) b ≡ true
      → nums.le (null nums) (nums.add a b) ≡ true
  pub add_mono :
      (a b c d : nums.Float)
      → nums.le a b ≡ true
      → nums.le c d ≡ true
      → nums.le (nums.add a c) (nums.add b d) ≡ true
  pub mul_nonneg :
      (a b : nums.Float)
      → nums.le (null nums) a ≡ true
      → nums.le (null nums) b ≡ true
      → nums.le (null nums) (nums.mul a b) ≡ true
  pub mul_mono :
      (c a b : nums.Float)
      → nums.le (null nums) c ≡ true
      → nums.le a b ≡ true
      → nums.le (nums.mul c a) (nums.mul c b) ≡ true
  pub mul_le :
      (a x : nums.Float)
      → nums.le (null nums) a ≡ true
      → nums.le x (one nums) ≡ true
      → nums.le (nums.mul a x) a ≡ true
  pub div_nonneg :
      (a b : nums.Float)
      → nums.le (null nums) a ≡ true
      → nums.le b (null nums) ≡ false
      → nums.le (null nums) (nums.div a b) ≡ true
  pub div_le_one :
      (a b : nums.Float)
      → nums.le a b ≡ true
      → nums.le b (null nums) ≡ false
      → nums.le (nums.div a b) (one nums) ≡ true
  pub div_mono :
      (a b c : nums.Float)
      → nums.le a b ≡ true
      → nums.le c (null nums) ≡ false
      → nums.le (nums.div a c) (nums.div b c) ≡ true
  -- `a + t * (b - a)` for a fraction t and 0 <= b <= a.
  pub toward_nonneg :
      (a b t : nums.Float)
      → nums.le b a ≡ true
      → nums.le (null nums) b ≡ true
      → nums.le t (one nums) ≡ true
      → nums.le (null nums) (nums.add a (nums.mul t (nums.sub b a))) ≡ true
  pub toward_le :
      (a b t : nums.Float)
      → nums.le b a ≡ true
      → nums.le (null nums) t ≡ true
      → nums.le (nums.add a (nums.mul t (nums.sub b a))) a ≡ true
  pub fifths : nums.le (nums.add (nums.lit 20) (nums.lit 80)) (one nums) ≡ true
  pub hundred_null : nums.le (nums.mul (hundred nums) (null nums)) (null nums) ≡ true
  pub round_mono :
      (a b : nums.Float) → nums.le a b ≡ true → nums.le (nums.round a 1) (nums.round b 1) ≡ true
  pub round_null : nums.round (null nums) 1 ≡ null nums
  pub round_hundred : nums.round (hundred nums) 1 ≡ hundred nums

module _ (n : Numbers) (laws : IsRounded n) where
  abbrev pub NonNeg : n.Float → Type 0
  NonNeg a = n.le (null n) a ≡ true

  abbrev pub IsUnit : n.Float → Type 0
  IsUnit a = NonNeg a × (n.le a (one n) ≡ true)

  pub lit-IsUnit : (k : ℕ) → k ≤ 100 → IsUnit (n.lit k)
  lit-IsUnit k h = (laws.le_lit 0 k (omega arith), laws.le_lit k 100 h)

  -- A table of `_interp`: keys go up, values go down.
  abbrev IsFalling : ℕ × n.Float → List (ℕ × n.Float) → Type 0
  IsFalling e [] = IsUnit e.1
  IsFalling e (f ∷ fs) =
      IsUnit e.1 × ((e.0 < f.0) × (f.0 ≤ 1000000)) × (n.le f.1 e.1 ≡ true) × IsFalling f fs

  IsFalling-head : (e : ℕ × n.Float) (fs : List (ℕ × n.Float)) → IsFalling e fs → IsUnit e.1
  IsFalling-head e [] h = h
  IsFalling-head e (f ∷ fs) h = h.0

  last_of-IsUnit :
      (e : ℕ × n.Float) (fs : List (ℕ × n.Float)) → IsFalling e fs → IsUnit (last_of n e fs).1
  last_of-IsUnit e [] h = h
  last_of-IsUnit e (f ∷ fs) h = last_of-IsUnit f fs h.3

  blend-IsUnit :
      (lo hi : ℕ × n.Float) (value : ℕ)
      → IsUnit lo.1
      → IsUnit hi.1
      → lo.0 < hi.0
      → hi.0 ≤ 1000000
      → n.le hi.1 lo.1 ≡ true
      → value ≤ hi.0
      → IsUnit (blend n lo hi value)
  blend-IsUnit lo hi value ul uh up low down le =
      let some_gap = laws.lt_lit 0 (100 * (hi.0 - lo.0)) (omega (arith, up)) (omega (arith, low)) in
      let inside = laws.le_lit (100 * (value - lo.0)) (100 * (hi.0 - lo.0)) (omega (arith, le)) in
      let t_low =
        laws.div_nonneg _ _ (laws.le_lit 0 (100 * (value - lo.0)) (omega arith)) some_gap in
      let t_high = laws.div_le_one _ _ inside some_gap in
      (
        laws.toward_nonneg lo.1 hi.1 _ down uh.0 t_high,
        laws.le_trans _ lo.1 _ (laws.toward_le lo.1 hi.1 _ down t_low) ul.1,
      )

  between-IsUnit :
      (lo : ℕ × n.Float) (rest : List (ℕ × n.Float)) (value : ℕ)
      → IsFalling lo rest
      → IsUnit (between n lo rest value)
  between-IsUnit lo [] value h = h
  between-IsUnit lo (hi ∷ rest) value h = elim (Bool-cases (leb lo.0 value && leb value hi.0)) [
    | inl e ↦ rw e (
        blend-IsUnit lo hi value h.0 (IsFalling-head hi rest h.3) h.1.0 h.1.1 h.2
          (ground (arith, e)))
    | inr e ↦ rw e (between-IsUnit hi rest value h.3)
  ]

  interp-IsUnit :
      (e : ℕ × n.Float) (rest : List (ℕ × n.Float)) (value : ℕ)
      → IsFalling e rest
      → IsUnit (interp n e rest value)
  unfolding interp
  interp-IsUnit e rest value h = elim (Bool-cases (leb value e.0)) [
    | inl d ↦ rw d (IsFalling-head e rest h)
    | inr d ↦ rw d (elim (Bool-cases (leb (last_of n e rest).0 value)) [
      | inl k ↦ rw k (last_of-IsUnit e rest h)
      | inr k ↦ rw k (between-IsUnit e rest value h)
    ])
  ]

  rsa_strength-IsUnit : (value : ℕ) → IsUnit (rsa_strength n value)
  rsa_strength-IsUnit value = interp-IsUnit _ _ value (
    lit-IsUnit 100 (omega arith),
    (omega arith, omega arith),
    laws.le_lit 90 100 (omega arith),
    (
      lit-IsUnit 90 (omega arith),
      (omega arith, omega arith),
      laws.le_lit 78 90 (omega arith),
      (
        lit-IsUnit 78 (omega arith),
        (omega arith, omega arith),
        laws.le_lit 66 78 (omega arith),
        (
          lit-IsUnit 66 (omega arith),
          (omega arith, omega arith),
          laws.le_lit 42 66 (omega arith),
          (
            lit-IsUnit 42 (omega arith),
            (omega arith, omega arith),
            laws.le_lit 22 42 (omega arith),
            lit-IsUnit 22 (omega arith),
          ),
        ),
      ),
    ),
  )

  ecc_strength-IsUnit : (value : ℕ) → IsUnit (ecc_strength n value)
  ecc_strength-IsUnit value = interp-IsUnit _ _ value (
    lit-IsUnit 95 (omega arith),
    (omega arith, omega arith),
    laws.le_lit 82 95 (omega arith),
    (
      lit-IsUnit 82 (omega arith),
      (omega arith, omega arith),
      laws.le_lit 68 82 (omega arith),
      lit-IsUnit 68 (omega arith),
    ),
  )

  -- A choice between two values that both have P.
  pub if-both {ℓ κ} :
      {A : Type ℓ} (P : A → Type κ) (b : Bool) (x y : A) → P x → P y → P (if b then x else y)
  if-both P true x y h k = h
  if-both P false x y h k = k

  pub exposure_of-IsUnit : (e : String) → IsUnit (exposure_of n e)
  unfolding exposure_of
  exposure_of-IsUnit e = if-both IsUnit (str_eq e "public") _ _ (lit-IsUnit 100 (omega arith)) (
      if-both IsUnit (str_eq e "transmitted") _ _ (lit-IsUnit 75 (omega arith)) (
        if-both IsUnit (str_eq e "internal") _ _ (lit-IsUnit 35 (omega arith)) (
          if-both IsUnit (str_eq e "sealed") _ _ (lit-IsUnit 10 (omega arith))
            (lit-IsUnit 50 (omega arith)))))

  pub factors_of-IsUnit :
      (algo : String) (bits : Option ℕ) (curve : Option String)
      → IsUnit (factors_of n algo bits curve).0 × IsUnit (factors_of n algo bits curve).1
  unfolding factors_of
  factors_of-IsUnit algo bits curve =
      if-both Both (is_in algo post_quantum) _ _
        (lit-IsUnit 0 (omega arith), lit-IsUnit 0 (omega arith))
        (if-both Both
          (is_in algo shor_breakable || starts_with_any ("rsa" ∷ "ec" ∷ "ed" ∷ "dsa" ∷ []) algo) _ _
          (if-both Both (starts_with "ec" algo || starts_with "ed" algo) _ _
            (lit-IsUnit 100 (omega arith), ecc_strength-IsUnit (bits_of_curve curve))
            (lit-IsUnit 100 (omega arith), rsa_strength-IsUnit (key_bits_or bits)))
          (lit-IsUnit 50 (omega arith), lit-IsUnit 50 (omega arith)))
    where
      Both : n.Float × n.Float → Type 0
      Both f = IsUnit f.0 × IsUnit f.1
