-- ===== src/Quantum/Exposure/Tests.antt =====
-- Scores in hundredths: two keys and a parameter set of ML-DSA, and the theorems about the score there.
use egreen_quanta_tes.Base.{
  ℕ, ◌+◌, ◌-◌, ◌*◌, ◌/◌, ◌<◌, ◌≤◌, ◌≡◌, refl, sym, subst, true, false, none, some, [], leb, arith,
  le→leb, leb→le,
}
use native.Mathlib.Nat.{mul-le-mul_left, div-le_of_le-mul, le-div_iff_mul-le, div-mul-le_self}
use egreen_quanta_tes.Base.Text.{lower, strip}
use egreen_quanta_tes.Detection.Number.{Numbers}
use egreen_quanta_tes.Quantum.Exposure.{Assumptions, QesInput, algo_norm, factors_of, score_qes}
use egreen_quanta_tes.Quantum.Exposure.Factors.{IsRounded}
use egreen_quanta_tes.Quantum.Exposure.Bounds.{score_qes-bounds, score_qes-post_quantum}

abbrev scaled : ℕ → ℕ → ℕ
scaled a b = a * b / 100

abbrev ratio : ℕ → ℕ → ℕ
ratio a b = a * 100 / b

abbrev percents : Numbers
percents = record {
  Float = ℕ;
  lit = λ k. k;
  add = λ a b. a + b;
  sub = λ a b. a - b;
  mul = scaled;
  div = ratio;
  round = λ a k. a;
  le = leb;
}

hundredth_mono : (x y : ℕ) → x ≤ y → x / 100 ≤ y / 100
hundredth_mono x y h = omega arith

not_leb : (j k : ℕ) → j < k → leb k j ≡ false
not_leb j k h = ground arith

at_most : (a b : ℕ) → b ≤ 100 → a * b ≤ 100 * a
at_most a b h = let k : a * b ≤ a * 100 = mul-le-mul_left a h in omega (arith, k)

ratio_mono : (x y c : ℕ) → 0 < c → x ≤ y → x * 100 / c ≤ y * 100 / c
ratio_mono x y c h l =
    (le-div_iff_mul-le {x = x * 100 / c} {y = y * 100} h).1
      (let d = div-mul-le_self (x * 100) c in omega (arith, d, l))

toward_self : (a b t : ℕ) → b ≤ a → a + t * (b - a) / 100 ≤ a
toward_self a b t h =
    let gone : b - a ≡ 0 = omega (arith, h) in
    let nothing : t * 0 ≡ 0 = omega arith in
    subst (λ d. a + t * d / 100 ≤ a) (sym gone) (omega (arith, nothing))

pos_of : (c : ℕ) → leb c 0 ≡ false → 0 < c
pos_of c h = ground (arith, h)

percents-IsRounded : IsRounded percents
percents-IsRounded = record {
  le_refl = λ a. le→leb a a (omega arith);
  le_trans = λ a b c h k. ground arith;
  le_total = λ a b h. ground arith;
  le_lit = λ j k h. le→leb j k h;
  lt_lit = λ j k h small. not_leb j k h;
  add_nonneg = λ a b h k. le→leb 0 _ (omega arith);
  add_mono = λ a b c d h k. le→leb _ _ (omega (arith, leb→le a b h, leb→le c d k));
  mul_nonneg = λ a b h k. le→leb 0 _ (omega arith);
  mul_mono = λ c a b h k. le→leb _ _ (hundredth_mono _ _ (mul-le-mul_left c (leb→le a b k)));
  mul_le = λ a x h k. le→leb _ _ (div-le_of_le-mul 100 (at_most a x (leb→le x 100 k)));
  div_nonneg = λ a b h k. le→leb 0 _ (omega arith);
  div_le_one = λ a b h k. le→leb _ _ (div-le_of_le-mul b (omega (arith, leb→le a b h)));
  div_mono = λ a b c h k. le→leb _ _ (ratio_mono a b c (pos_of c k) (leb→le a b h));
  toward_nonneg = λ a b t h k l. le→leb 0 _ (omega arith);
  toward_le = λ a b t h k. le→leb _ _ (toward_self a b t (leb→le b a h));
  fifths = refl;
  hundred_null = refl;
  round_mono = λ a b h. h;
  round_null = refl;
  round_hundred = refl;
}

-- No assumption of the caller; a key of 2048 bits whose data is to last five years, in 2026.
abbrev nothing_given : Assumptions percents
nothing_given = record { qc_year = none; weights = [] }

abbrev rsa_key : QesInput percents
rsa_key = record {
  algo = "RSA";
  key_bits = some 2048;
  curve = none;
  data_lifetime_years = 500;
  exposure = "public";
  label = "";
}

abbrev ml_dsa_key : QesInput percents
ml_dsa_key = record {
  algo = "ML_DSA";
  key_bits = none;
  curve = none;
  data_lifetime_years = 500;
  exposure = "public";
  label = "";
}

-- The name of a parameter set is not in the list, so its key counts as of an unknown algorithm.
parameter_set_factor : (factors_of percents (algo_norm "ML-DSA-65") none none).0 ≡ 50
unfolding factors_of algo_norm lower strip
parameter_set_factor = refl

score_qes-bounds_example :
    (leb 0 (score_qes percents 2026 2035 nothing_given rsa_key).qes ≡ true)
    × (leb (score_qes percents 2026 2035 nothing_given rsa_key).qes 10000 ≡ true)
score_qes-bounds_example =
    score_qes-bounds percents percents-IsRounded 2026 2035 nothing_given rsa_key tt

score_qes-post_quantum_example :
    (leb (score_qes percents 2026 2035 nothing_given ml_dsa_key).qes 0 ≡ true)
    × ((score_qes percents 2026 2035 nothing_given ml_dsa_key).band ≡ "ok")
unfolding algo_norm lower strip
score_qes-post_quantum_example =
    score_qes-post_quantum percents percents-IsRounded 2026 2035 nothing_given ml_dsa_key tt refl
