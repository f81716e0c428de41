-- ===== src/Detection/Score.antt =====
-- backend/app/services/detection/scoring.py.
pub mod Bounds
use egreen_quanta_tes.Base.{
  ℕ, ◌==◌, String, Bool, true, false, not, ◌&&◌, Option, none, some, List, [], ◌∷◌, any, str_eq,
  if◌then◌else◌,
}
use egreen_quanta_tes.Base.Text.{is_in}
use egreen_quanta_tes.Crypto.Types.{CryptoFinding, Severity, critical, high, medium, low, info}
use egreen_quanta_tes.Detection.Number.{Numbers, null, one, hundred, min}
use egreen_quanta_tes.Detection.Catalog.{severity_weight, default_weight}

abbrev severity_number : Severity → ℕ
severity_number critical = 0
severity_number high = 1
severity_number medium = 2
severity_number low = 3
severity_number info = 4

abbrev pub same_severity : Severity → Severity → Bool
same_severity a b = severity_number a == severity_number b

-- `alert_severity`
abbrev first_present : List Severity → List CryptoFinding → Severity
first_present [] findings = info
first_present (s ∷ order) findings =
    let rest = first_present order findings in
    if any (λ f. same_severity f.severity s) findings then s else rest

unfoldable pub alert_severity : List CryptoFinding → Severity
alert_severity findings = first_present (critical ∷ high ∷ medium ∷ low ∷ info ∷ []) findings

module _ (n : Numbers) where
  -- `rule_weights.get(f.code, ...)`
  abbrev pub weight_of : List (String × n.Float) → String → n.Float
  weight_of [] code = n.lit (default_weight code)
  weight_of ((c, w) ∷ weights) code =
      let rest = weight_of weights code in if str_eq c code then w else rest

  unfoldable pub contribution : List (String × n.Float) → CryptoFinding → n.Float
  contribution weights f =
      min n (n.lit 99)
        (n.mul (n.div (n.lit (severity_weight f.severity)) (hundred n)) (weight_of weights f.code))

  -- The loop over the findings, and its body.
  abbrev pub lowered : List (String × n.Float) → List String → n.Float → CryptoFinding → n.Float
  lowered weights disabled remaining f =
      if is_in f.code disabled
      then remaining
      else n.mul remaining (n.sub (one n) (contribution weights f))

  abbrev pub remaining_after :
      List (String × n.Float) → List String → n.Float → List CryptoFinding → n.Float
  remaining_after weights disabled remaining [] = remaining
  remaining_after weights disabled remaining (f ∷ fs) =
      remaining_after weights disabled (lowered weights disabled remaining f) fs

  abbrev pub base_score : List (String × n.Float) → List String → List CryptoFinding → n.Float
  base_score weights disabled findings =
      n.mul (n.sub (one n) (remaining_after weights disabled (one n) findings)) (hundred n)

  abbrev pub with_anomaly : Option n.Float → n.Float → n.Float → n.Float
  with_anomaly none weight score = score
  with_anomaly (some a) weight score =
      if n.le weight (null n)
      then score
      else min n (hundred n) (n.add score (n.mul (n.mul weight a) (hundred n)))

  -- `risk_score`
  unfoldable pub risk_score :
      List CryptoFinding
      → List (String × n.Float)
      → List String
      → Option n.Float
      → n.Float
      → n.Float
  risk_score findings weights disabled anomaly weight =
      n.round (with_anomaly anomaly weight (base_score weights disabled findings)) 1
