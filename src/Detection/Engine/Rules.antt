-- ===== src/Detection/Engine/Rules.antt =====
-- `sync_rules` of backend/app/services/detection/engine.py and `patch_rule` of
-- backend/app/api/v1/detections.py: the table of rules.
use egreen_quanta_tes.Base.{
  ℕ, String, ◌≡◌, refl, ap, ◌∙◌, Bool, true, false, Option, none, some, List, [], ◌∷◌, ◌++◌, any,
  length, str_eq, eq_refl, arith, if◌then◌else◌,
}
use egreen_quanta_tes.Detection.Number.{Numbers}
use egreen_quanta_tes.Detection.Catalog.{RuleSpec, rule_catalog}
use egreen_quanta_tes.Detection.Models.{DetectionRule, RuleConfig}

module _ (n : Numbers) where
  abbrev pub has_code : String → DetectionRule n → Bool
  has_code code r = str_eq r.code code

  abbrev pub rule_of : RuleSpec → DetectionRule n
  rule_of spec = record {
    code = spec.code;
    name = spec.name;
    description = spec.description;
    category = spec.category;
    default_severity = spec.default_severity;
    enabled = true;
    weight = n.lit spec.default_weight;
    config = record { window_minutes = none; threshold = none };
  }

  -- The rows for the entries of a catalog whose code no existing row has.
  abbrev pub missing : List RuleSpec → List (DetectionRule n) → List (DetectionRule n)
  missing [] existing = []
  missing (spec ∷ specs) existing =
      let rest = missing specs existing in
      if any (has_code spec.code) existing then rest else rule_of spec ∷ rest

  -- `sync_rules`: the number of rows added, and the table.
  unfoldable pub sync_rules : List (DetectionRule n) → ℕ × List (DetectionRule n)
  sync_rules rules = let added = missing rule_catalog rules in (length added, rules ++ added)

  abbrev or_value {ℓ} : {A : Type ℓ} → Option A → A → A
  or_value none old = old
  or_value (some new) old = new

  abbrev patched :
      Option Bool → Option n.Float → Option RuleConfig → DetectionRule n → DetectionRule n
  patched enabled weight config r = record {
    code = r.code;
    name = r.name;
    description = r.description;
    category = r.category;
    default_severity = r.default_severity;
    enabled = or_value enabled r.enabled;
    weight = or_value weight r.weight;
    config = or_value config r.config;
  }

  abbrev patch_where :
      String
      → Option Bool
      → Option n.Float
      → Option RuleConfig
      → List (DetectionRule n)
      → List (DetectionRule n)
  patch_where code enabled weight config [] = []
  patch_where code enabled weight config (r ∷ rules) =
      let rest = patch_where code enabled weight config rules in
      if has_code code r then patched enabled weight config r ∷ rest else r ∷ rest

  -- `patch_rule`; nothing where it raises NotFoundError.
  unfoldable pub patch_rule :
      String
      → Option Bool
      → Option n.Float
      → Option RuleConfig
      → List (DetectionRule n)
      → Option (List (DetectionRule n))
  patch_rule code enabled weight config rules =
      if any (has_code code) rules
      then some (patch_where code enabled weight config rules)
      else none

  any-append_left :
      (p : DetectionRule n → Bool) (xs ys : List (DetectionRule n))
      → any p xs ≡ true
      → any p (xs ++ ys) ≡ true
  any-append_left p [] ys h = ground arith
  any-append_left p (x ∷ xs) ys h = ground (arith, any-append_left p xs ys)

  any-append_right :
      (p : DetectionRule n → Bool) (xs ys : List (DetectionRule n))
      → any p ys ≡ true
      → any p (xs ++ ys) ≡ true
  any-append_right p [] ys h = h
  any-append_right p (x ∷ xs) ys h = ground (arith, any-append_right p xs ys)

  -- After the rows for a part of the catalog are added, no entry of that part is missing.
  covered :
      (specs : List RuleSpec) (rules all : List (DetectionRule n))
      → ((code : String) → any (has_code code) rules ≡ true → any (has_code code) all ≡ true)
      → ((code : String)
          → any (has_code code) (missing specs rules) ≡ true
          → any (has_code code) all ≡ true)
      → missing specs all ≡ []
  covered [] rules all old new = refl
  covered (spec ∷ specs) rules all old new =
      head (any (has_code spec.code) all) (present (any (has_code spec.code) rules) refl) (
        covered specs rules all old
          (λ code h. new code (lifted code (any (has_code spec.code) rules) h)))
    where
      lifted :
          (code : String) (b : Bool)
          → any (has_code code) (missing specs rules) ≡ true
          → any
              (has_code code)
              (if b then missing specs rules else rule_of spec ∷ missing specs rules)
            ≡ true
      lifted code true h = h
      lifted code false h = ground (arith, h)

      self :
          (b : Bool)
          → b ≡ false
          → any
              (has_code spec.code)
              (if b then missing specs rules else rule_of spec ∷ missing specs rules)
            ≡ true
      self true e = ground arith
      self false e = rw (eq_refl spec.code) refl

      present :
          (b : Bool) → any (has_code spec.code) rules ≡ b → any (has_code spec.code) all ≡ true
      present true e = old spec.code e
      present false e = new spec.code (self (any (has_code spec.code) rules) e)

      head :
          (b : Bool)
          → b ≡ true
          → missing specs all ≡ []
          → (if b then missing specs all else rule_of spec ∷ missing specs all) ≡ []
      head true e h = h
      head false e h = ground arith

  append_nothing : (xs : List (DetectionRule n)) → xs ++ [] ≡ xs
  append_nothing [] = refl
  append_nothing (x ∷ xs) = ap (λ ys. x ∷ ys) (append_nothing xs)

  -- `sync_rules` keeps the rows that are there as they are and adds rows behind them, and a second run
  -- adds none and changes nothing.
  pub sync_rules-sync_rules :
      (rules : List (DetectionRule n))
      → (added : List (DetectionRule n)) × ((sync_rules rules).1 ≡ rules ++ added)
        × (sync_rules (sync_rules rules).1 ≡ (0, (sync_rules rules).1))
  unfolding sync_rules
  sync_rules-sync_rules rules =
      let none_left =
        covered rule_catalog rules (rules ++ missing rule_catalog rules)
          (λ code h. any-append_left (has_code code) rules _ h)
          (λ code h. any-append_right (has_code code) rules _ h) in
      (
        missing rule_catalog rules,
        refl,
        ap (λ more. (length more, (rules ++ missing rule_catalog rules) ++ more)) none_left
            ∙ ap (λ all. (0, all)) (append_nothing (rules ++ missing rule_catalog rules)),
      )
