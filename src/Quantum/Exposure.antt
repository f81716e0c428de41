-- ===== src/Quantum/Exposure.antt =====
-- backend/app/services/quantum/pq_risk.py: score_qes, the quantum exposure score of one signer. The year
-- now and the year of the settings are arguments.
pub mod Factors
pub mod Bounds
mod Tests
use egreen_quanta_tes.Base.{
  ℕ, zero, suc, ◌-◌, ◌==◌, String, Bool, true, false, ◌&&◌, ◌||◌, Option, none, some, List, [], ◌∷◌,
  leb, ltb, str_eq, if◌then◌else◌,
}
use egreen_quanta_tes.Base.Text.{
  is_in, is_given, lower, strip, starts_with, contains, before, replace_char,
}
use egreen_quanta_tes.Detection.Number.{Numbers, null, one, hundred}
use egreen_quanta_tes.Quantum.Numeric.{of_nat, lt}

-- `_SHOR_BREAKABLE` and `_POST_QUANTUM`
abbrev pub shor_breakable : List String
shor_breakable =
    "rsa" ∷ "dsa" ∷ "ec" ∷ "ecdsa" ∷ "ecdh" ∷ "ed25519" ∷ "ed448" ∷ "dh" ∷ "elgamal" ∷ []

abbrev pub post_quantum : List String
post_quantum =
    "ml-dsa" ∷ "mldsa" ∷ "dilithium" ∷ "slh-dsa" ∷ "slhdsa" ∷ "sphincs+" ∷ "sphincs" ∷ "falcon"
    ∷ "lms" ∷ "xmss" ∷ "hss" ∷ "ml-kem" ∷ "mlkem" ∷ "kyber" ∷ []

-- `_algo_norm`
unfoldable pub algo_norm : String → String
algo_norm algo = before "-with-" (replace_char "_" "-" (lower (strip algo)))

-- `QESInput`, and the `assumptions` a caller may give.
pub record QesInput (nums : Numbers) : Type 0 where
  pub algo : String
  pub key_bits : Option ℕ
  pub curve : Option String
  pub data_lifetime_years : nums.Float
  pub exposure : String
  pub label : String

pub record Assumptions (nums : Numbers) : Type 0 where
  pub qc_year : Option ℕ
  pub weights : List (String × nums.Float)

-- `QESResult`, with the parts of its assumptions.
pub record QesResult (nums : Numbers) : Type 0 where
  pub qes : nums.Float
  pub band : String
  pub algo_factor : nums.Float
  pub strength_factor : nums.Float
  pub longevity_factor : nums.Float
  pub exposure_factor : nums.Float
  pub recommendation : String
  pub qc_year : ℕ
  pub horizon_years : ℕ
  pub label : String

-- `startswith` of a tuple of prefixes.
abbrev pub starts_with_any : List String → String → Bool
starts_with_any [] s = false
starts_with_any (p ∷ ps) s = starts_with p s || starts_with_any ps s

-- The loop over the curves: the bits of the first one that the name contains.
abbrev pub curve_bits : List (String × ℕ) → String → ℕ
curve_bits [] curve = 256
curve_bits (c ∷ cs) curve =
    let rest = curve_bits cs curve in if contains c.0 curve then c.1 else rest

abbrev pub bits_of_curve : Option String → ℕ
bits_of_curve none = 256
bits_of_curve (some curve) =
    curve_bits (("521", 521) ∷ ("384", 384) ∷ ("256", 256) ∷ ("25519", 256) ∷ []) curve

-- `inp.key_bits or 2048`
abbrev pub key_bits_or : Option ℕ → ℕ
key_bits_or none = 2048
key_bits_or (some k) = if k == 0 then 2048 else k

-- `_recommendation`
unfoldable pub recommendation_of : String → String → String
recommendation_of algo band =
    if is_in algo post_quantum
    then "Already post-quantum. Maintain crypto-agility."
    else if str_eq band "immediate"
    then "Migrate now to ML-DSA (FIPS 204) for general signing, or SLH-DSA / LMS for firmware & code signing; re-sign long-lived artifacts."
    else if str_eq band "plan"
    then "Schedule migration to ML-DSA (FIPS 204) for general signing, or SLH-DSA / LMS for firmware & code signing within the current planning cycle."
    else if str_eq band "monitor"
    then "Track NIST guidance; prepare a migration path to ML-DSA (FIPS 204) for general signing, or SLH-DSA / LMS for firmware & code signing."
    else "Low exposure. Revisit if data lifetime or CRQC estimates change."

module _ (n : Numbers) where
  -- A table of `_interp` in the order of its keys: the first entry and the others.
  abbrev pub last_of : ℕ × n.Float → List (ℕ × n.Float) → ℕ × n.Float
  last_of e [] = e
  last_of e (f ∷ fs) = last_of f fs

  abbrev pub blend : ℕ × n.Float → ℕ × n.Float → ℕ → n.Float
  blend lo hi value =
      let t = n.div (of_nat n (value - lo.0)) (of_nat n (hi.0 - lo.0)) in
      n.add lo.1 (n.mul t (n.sub hi.1 lo.1))

  abbrev pub between : ℕ × n.Float → List (ℕ × n.Float) → ℕ → n.Float
  between lo [] value = lo.1
  between lo (hi ∷ rest) value =
      let later = between hi rest value in
      if leb lo.0 value && leb value hi.0 then blend lo hi value else later

  -- `_interp`
  unfoldable pub interp : ℕ × n.Float → List (ℕ × n.Float) → ℕ → n.Float
  interp e rest value =
      if leb value e.0
      then e.1
      else if leb (last_of e rest).0 value
      then (last_of e rest).1
      else between e rest value

  -- `_RSA_STRENGTH` and `_ECC_STRENGTH`
  abbrev pub rsa_strength : ℕ → n.Float
  rsa_strength value =
      interp (1024, n.lit 100)
        ((2048, n.lit 90)
          ∷ (3072, n.lit 78)
          ∷ (4096, n.lit 66)
          ∷ (7680, n.lit 42)
          ∷ (15360, n.lit 22)
          ∷ [])
        value

  abbrev pub ecc_strength : ℕ → n.Float
  ecc_strength value = interp (256, n.lit 95) ((384, n.lit 82) ∷ (521, n.lit 68) ∷ []) value

  -- `_EXPOSURE.get(exposure, 0.5)`
  unfoldable pub exposure_of : String → n.Float
  exposure_of exposure =
      if str_eq exposure "public"
      then n.lit 100
      else if str_eq exposure "transmitted"
      then n.lit 75
      else if str_eq exposure "internal"
      then n.lit 35
      else if str_eq exposure "sealed"
      then n.lit 10
      else n.lit 50

  -- algo_factor and strength_factor
  unfoldable pub factors_of : String → Option ℕ → Option String → n.Float × n.Float
  factors_of algo key_bits curve =
      if is_in algo post_quantum
      then (n.lit 0, n.lit 0)
      else if is_in algo shor_breakable || starts_with_any ("rsa" ∷ "ec" ∷ "ed" ∷ "dsa" ∷ []) algo
      then if starts_with "ec" algo || starts_with "ed" algo
        then (n.lit 100, ecc_strength (bits_of_curve curve))
        else (n.lit 100, rsa_strength (key_bits_or key_bits))
      else (n.lit 50, n.lit 50)

  -- `np.clip(x, 0.0, 1.0)`
  abbrev pub clip : n.Float → n.Float
  clip x = if n.le x (null n) then null n else if n.le (one n) x then one n else x

  -- `{**_WEIGHTS, **overrides}[name]`
  abbrev pub weight : List (String × n.Float) → String → n.Float → n.Float
  weight [] name default = default
  weight (w ∷ ws) name default =
      let rest = weight ws name default in if str_eq w.0 name then w.1 else rest

  -- `ctx_num / ctx_den if ctx_den else 0.0`
  abbrev pub mean_of : n.Float → n.Float → n.Float
  mean_of num den = if n.le den (null n) && n.le (null n) den then null n else n.div num den

  abbrev pub context_of : List (String × n.Float) → n.Float → n.Float → n.Float → n.Float
  context_of ws strength longevity exposure =
      let s = weight ws "strength" (n.lit 90) in
      let l = weight ws "longevity" (n.lit 80) in
      let e = weight ws "exposure" (n.lit 60) in
      mean_of (n.add (n.add (n.mul s strength) (n.mul l longevity)) (n.mul e exposure))
        (n.add (n.add s l) e)

  -- `round(100.0 * algo_factor * (0.2 + 0.8 * context), 1)`
  abbrev pub score_from : n.Float → n.Float → n.Float
  score_from algo_factor context =
      n.round (n.mul (n.mul (hundred n) algo_factor) (n.add (n.lit 20) (n.mul (n.lit 80) context)))
        1

  unfoldable pub band_of : n.Float → String
  band_of qes =
      if lt n qes (n.lit 2500)
      then "ok"
      else if lt n qes (n.lit 5000)
      then "monitor"
      else if lt n qes (n.lit 7500)
      then "plan"
      else "immediate"

  abbrev pub year_or : Option ℕ → ℕ → ℕ
  year_or none default = default
  year_or (some year) default = year

  -- `max(1, qc_year - now_year)`
  abbrev pub horizon_of : ℕ → ℕ → ℕ
  horizon_of year now = if leb (year - now) 1 then 1 else year - now

  -- `score_qes`
  unfoldable pub score_qes : ℕ → ℕ → Assumptions n → QesInput n → QesResult n
  score_qes now_year qc_assumed given inp =
      let year = year_or given.qc_year qc_assumed in
      let horizon = horizon_of year now_year in
      let algo = algo_norm inp.algo in
      let factors = factors_of algo inp.key_bits inp.curve in
      let longevity = clip (n.div inp.data_lifetime_years (of_nat n horizon)) in
      let exposure = exposure_of (lower inp.exposure) in
      let qes = score_from factors.0 (context_of given.weights factors.1 longevity exposure) in
      record {
        qes = qes;
        band = band_of qes;
        algo_factor = factors.0;
        strength_factor = factors.1;
        longevity_factor = longevity;
        exposure_factor = exposure;
        recommendation = recommendation_of algo (band_of qes);
        qc_year = year;
        horizon_years = horizon;
        label = inp.label;
      }
