-- ===== src/Quantum/Tuning/Tune.antt =====
-- backend/app/services/quantum/tuning.py: tune_weights as a whole, with the guard at its end.
use egreen_quanta_tes.Base.{
  ℕ, ◌+◌, ◌*◌, ◌==◌, String, not, Option, none, some, List, [], ◌∷◌, ◌++◌, map, length, keep, find,
  if◌then◌else◌,
}
use egreen_quanta_tes.Detection.Number.{Numbers, one}
use egreen_quanta_tes.Quantum.Numeric.{Numpy, lt, abs, range, nth}
use egreen_quanta_tes.Quantum.Qubo.{QuboModel, and_then, new_model, each, each_pair}
use egreen_quanta_tes.Quantum.Annealer.{AnnealResult}
use egreen_quanta_tes.Quantum.Annealer.Solve.{solve}
use egreen_quanta_tes.Quantum.Planner.{enumerate}
use egreen_quanta_tes.Quantum.Tuning.{
  LabelledEvent, Metrics, TuningResult, TuningRequest, fired_in, level, get_or, metrics, redundancy,
  add_rule, add_redundant,
}

module _ (n : Numbers) where
  -- The model over the rules that fired.
  unfoldable pub tuning_model : List LabelledEvent → n.Float → List String → Option (QuboModel n)
  tuning_model events fp_cost rules = and_then n (new_model n (length rules * 4)) (λ m.
      and_then n (each n (add_rule n events fp_cost) (enumerate 0 rules) m)
        (each_pair n (add_redundant n (redundancy n rules events)) (range 0 (length rules))))

  -- `current_weights or dict.fromkeys(rules, 1.0)`
  abbrev pub weights_or : List (String × n.Float) → List String → List (String × n.Float)
  weights_or [] rules = map (λ r. (r, one n)) rules
  weights_or (w ∷ ws) rules = w ∷ ws

  -- A dict comprehension over the rules.
  abbrev pub dict_of : (String → n.Float) → List String → List (String × n.Float)
  dict_of f rules = map (λ r. (r, f r)) rules

  abbrev pub current_of : List (String × n.Float) → String → n.Float
  current_of current r = get_or n current r (one n)

  -- `min(levels, key=lambda lv: abs(lv - w))`: the first nearest one.
  abbrev pub nearest_from : n.Float → n.Float → List n.Float → n.Float
  nearest_from w best [] = best
  nearest_from w best (l ∷ ls) =
      nearest_from w (if lt n (abs n (n.sub l w)) (abs n (n.sub best w)) then l else best) ls

  abbrev pub nearest_level : n.Float → n.Float
  nearest_level w = nearest_from w (n.lit 0) (n.lit 50 ∷ n.lit 100 ∷ n.lit 200 ∷ [])

  -- The weight that the solver picked for the rule in place i.
  abbrev pub picked_level : n.Float → Option ℕ → n.Float
  picked_level current none = current
  picked_level current (some l) = level n l

  abbrev pub tuned_weights :
      List (String × n.Float) → List ℕ → List (ℕ × String) → List (String × n.Float)
  tuned_weights current bits [] = []
  tuned_weights current bits (e ∷ es) =
      (
        e.1,
        picked_level (current_of current e.1) (find (λ l. nth bits (e.0 * 4 + l) == 1) (range 0 4)),
      )
      ∷ tuned_weights current bits es

  -- `max(candidates, key=...)`: the first one of the largest f1.
  abbrev pub Candidate : Type 0
  Candidate = List (String × n.Float) × Metrics n

  unfoldable pub best_of : Candidate → List Candidate → Candidate
  best_of best [] = best
  best_of best (c ∷ cs) = best_of (if lt n best.1.f1 c.1.f1 then c else best) cs

  -- The end of `tune_weights`, once the solver has answered.
  unfoldable pub guarded :
      List LabelledEvent
      → TuningRequest n
      → List (String × n.Float)
      → List String
      → List String
      → AnnealResult n
      → TuningResult n
  guarded events req current tunable silent result =
      let untouched = dict_of (current_of current) silent in
      let measured : List (String × n.Float) → Candidate =
        λ w. (w, metrics n events w req.threshold) in
      let tuned =
        measured (untouched ++ tuned_weights current result.best_bits (enumerate 0 tunable)) in
      let snapped =
        measured (untouched ++ dict_of (λ r. nearest_level (current_of current r)) tunable) in
      let full = measured (untouched ++ dict_of (current_of current) tunable) in
      let best = best_of tuned (snapped ∷ full ∷ []) in
      record {
        weights = best.0;
        threshold = req.threshold;
        before = full.1;
        after = best.1;
        solver = result;
        rules = tunable;
      }

module _ (n : Numbers) (np : Numpy n) where
  abbrev pub tuned_with :
      List LabelledEvent
      → TuningRequest n
      → List (String × n.Float)
      → List String
      → List String
      → Option (QuboModel n)
      → Option (TuningResult n)
  tuned_with events req current tunable silent none = none
  tuned_with events req current tunable silent (some model) =
      some
        (guarded n events req current tunable silent (solve n np model req.method req.seed none 24))

  abbrev pub tune_fired :
      List LabelledEvent
      → TuningRequest n
      → List (String × n.Float)
      → List String
      → List String
      → Option (TuningResult n)
  tune_fired events req current [] silent = none
  tune_fired events req current (r ∷ rs) silent =
      tuned_with events req current (r ∷ rs) silent (tuning_model n events req.fp_cost (r ∷ rs))

  -- `tune_weights`: none stands for the ValueErrors, which are those of no rules and of none that fired.
  unfoldable pub tune_weights : List LabelledEvent → TuningRequest n → Option (TuningResult n)
  tune_weights events req =
      tune_fired events req (weights_or n req.current_weights req.rules)
        (keep (fired_in events) req.rules) (keep (λ r. not (fired_in events r)) req.rules)
