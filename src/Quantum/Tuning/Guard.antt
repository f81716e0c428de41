-- ===== src/Quantum/Tuning/Guard.antt =====
-- Tuning returns where a rule fired, and what it returns is no worse than the weights there were.
use egreen_quanta_tes.Base.{
  ℕ, suc, ◌+◌, ◌*◌, ◌<◌, String, ◌≡◌, refl, ap, ◌∙◌, inl, inr, true, not, Bool-cases, none, some,
  List, [], ◌∷◌, ◌++◌, All, keep, map, length, arith, if◌then◌else◌,
}
use egreen_quanta_tes.Detection.Number.{Numbers, null}
use egreen_quanta_tes.Quantum.Numeric.{Numpy, lt, range}
use egreen_quanta_tes.Quantum.Qubo.Built.{
  Builds, new_model-Builds, each-Builds, each_pair-Builds, range-All,
}
use egreen_quanta_tes.Quantum.Qubo.Keeps.{
  index-lt, All-map, All-imp, Keeps, and_then-Builds, add_linear-Keeps, add_quadratic-Keeps,
  add_one_hot-Keeps, each-range-Keeps,
}
use egreen_quanta_tes.Quantum.Qubo.Optimal.{IsOrder}
use egreen_quanta_tes.Quantum.Annealer.{AnnealResult}
use egreen_quanta_tes.Quantum.Annealer.Solve.{solve}
use egreen_quanta_tes.Quantum.Planner.{enumerate}
use egreen_quanta_tes.Quantum.Planner.Model.{enumerate-All}
use egreen_quanta_tes.Quantum.Tuning.{
  LabelledEvent, TuningResult, TuningRequest, fired_in, add_rule, add_redundant, redundancy,
  metrics,
}
use egreen_quanta_tes.Quantum.Tuning.Tune.{
  tuning_model, Candidate, dict_of, current_of, tuned_weights, best_of, guarded, weights_or,
  tuned_with, tune_fired, tune_weights,
}

module _ (n : Numbers) (count : ℕ) where
  abbrev size : ℕ
  size = count * 4

  add_rule-Keeps :
      (events : List LabelledEvent) (fp_cost : n.Float) (e : ℕ × String)
      → e.0 < count
      → Keeps n size (add_rule n events fp_cost e)
  unfolding add_rule
  add_rule-Keeps events fp_cost e h m eq =
      and_then-Builds n size _ _
        (each-range-Keeps n size 4 _
          (λ l k. add_linear-Keeps n size (e.0 * 4 + l) _ (index-lt e.0 l 4 count h k)) m eq)
        (add_one_hot-Keeps n size (map (λ l. e.0 * 4 + l) (range 0 4)) _ (
          All-map (λ i. i < size) (λ l. e.0 * 4 + l) (range 0 4)
            (All-imp (λ l. l < 4) (λ l. e.0 * 4 + l < size) (λ l k. index-lt e.0 l 4 count h k)
              (range 0 4) (range-All 0 4 4 (omega arith)))))

  add_redundant-Keeps :
      (red : ℕ → ℕ → n.Float) (a b : ℕ)
      → a < count
      → b < count
      → Keeps n size (add_redundant n red a b)
  unfolding add_redundant
  add_redundant-Keeps red a b ha hb m eq = elim (Bool-cases (n.le (red a b) (null n))) [
    | inl e ↦ rw e (m, refl, eq)
    | inr e ↦ rw e (
        each-range-Keeps n size 4 _
          (λ la ka. each-range-Keeps n size 4 _ (λ lb kb.
            add_quadratic-Keeps n size (a * 4 + la) (b * 4 + lb) _ (index-lt a la 4 count ha ka)
              (index-lt b lb 4 count hb kb)))
          m eq)
  ]

-- The model is built for any rules.
tuning_model-Builds :
    (n : Numbers) (events : List LabelledEvent) (fp_cost : n.Float) (rules : List String)
    → 0 < length rules
    → Builds n (length rules * 4) (tuning_model n events fp_cost rules)
unfolding tuning_model
tuning_model-Builds n events fp_cost rules h =
    let count = length rules in
    and_then-Builds n (count * 4) _ _ (new_model-Builds n (count * 4) (omega (arith, h))) (λ m eq.
      and_then-Builds n (count * 4) _ _
        (each-Builds n (count * 4) _ (enumerate 0 rules) m
          (All-imp (λ e. e.0 < count) _ (λ e l. add_rule-Keeps n count events fp_cost e l)
            (enumerate 0 rules) (enumerate-All 0 count rules (omega arith)))
          eq)
        (λ m' eq'.
          each_pair-Builds n (count * 4) (λ a. a < count)
            (add_redundant n (redundancy n rules events))
            (λ a b ha hb. add_redundant-Keeps n count (redundancy n rules events) a b ha hb)
            (range 0 count) m' (range-All 0 count count (omega arith)) eq'))

module _ (n : Numbers) (laws : IsOrder n) where
  better-le :
      (best c : Candidate n)
      → let better = if lt n best.1.f1 c.1.f1 then c else best in
        (n.le best.1.f1 better.1.f1 ≡ true) × (n.le c.1.f1 better.1.f1 ≡ true)
  better-le best c = elim (Bool-cases (n.le c.1.f1 best.1.f1)) [
    | inl e ↦ rw e (laws.le_refl best.1.f1, e)
    | inr e ↦ rw e (laws.le_total _ _ e, laws.le_refl c.1.f1)
  ]

  best_of-le :
      (best : Candidate n) (cs : List (Candidate n))
      → (n.le best.1.f1 (best_of n best cs).1.f1 ≡ true)
        × All (λ c. n.le c.1.f1 (best_of n best cs).1.f1 ≡ true) cs
  unfolding best_of
  best_of-le best [] = (laws.le_refl _, tt)
  best_of-le best (c ∷ cs) =
      let better = if lt n best.1.f1 c.1.f1 then c else best in
      let rest = best_of-le better cs in
      (
        laws.le_trans _ better.1.f1 _ (better-le best c).0 rest.0,
        (laws.le_trans _ better.1.f1 _ (better-le best c).1 rest.0, rest.1),
      )

  best_of-third : (a b c : Candidate n) → n.le c.1.f1 (best_of n a (b ∷ c ∷ [])).1.f1 ≡ true
  best_of-third a b c = (best_of-le a (b ∷ c ∷ [])).1.1.0

-- One of the candidates is chosen.
best_of-one {κ} :
    (n : Numbers) (P : Candidate n → Type κ) (best : Candidate n) (cs : List (Candidate n))
    → P best
    → All P cs
    → P (best_of n best cs)
unfolding best_of
best_of-one n P best [] h k = h
best_of-one n P best (c ∷ cs) h k = elim (Bool-cases (n.le c.1.f1 best.1.f1)) [
  | inl e ↦ rw e (best_of-one n P best cs h k.1)
  | inr e ↦ rw e (best_of-one n P c cs k.0 k.1)
]

module _ (n : Numbers) where
  abbrev pub keys : List (String × n.Float) → List String
  keys ws = map (λ w. w.0) ws

  keys-dict_of : (f : String → n.Float) (rules : List String) → keys (dict_of n f rules) ≡ rules
  keys-dict_of f [] = refl
  keys-dict_of f (r ∷ rules) = ap (λ rs. r ∷ rs) (keys-dict_of f rules)

  keys-tuned_weights :
      (current : List (String × n.Float)) (bits : List ℕ) (i : ℕ) (rules : List String)
      → keys (tuned_weights n current bits (enumerate i rules)) ≡ rules
  keys-tuned_weights current bits i [] = refl
  keys-tuned_weights current bits i (r ∷ rules) =
      ap (λ rs. r ∷ rs) (keys-tuned_weights current bits (suc i) rules)

  keys-append : (xs ys : List (String × n.Float)) → keys (xs ++ ys) ≡ keys xs ++ keys ys
  keys-append [] ys = refl
  keys-append (x ∷ xs) ys = ap (λ rs. x.0 ∷ rs) (keys-append xs ys)

-- What the guard chooses is measured, as the current weights are, covers all rules, and is no worse than the current weights.
abbrev IsGuarded :
    (n : Numbers)
    → List LabelledEvent
    → n.Float
    → List (String × n.Float)
    → List String
    → List String
    → TuningResult n
    → Type 0
IsGuarded n events threshold current silent tunable r =
    (r.after ≡ metrics n events r.weights threshold)
    × (r.before
        ≡ metrics n events
            (dict_of n (current_of n current) silent ++ dict_of n (current_of n current) tunable)
            threshold)
    × (n.le r.before.f1 r.after.f1 ≡ true)
    × (keys n r.weights ≡ silent ++ tunable)

guarded-IsGuarded :
    (n : Numbers) (laws : IsOrder n) (events : List LabelledEvent) (req : TuningRequest n)
    (current : List (String × n.Float)) (tunable silent : List String) (result : AnnealResult n)
    → IsGuarded n events req.threshold current silent tunable
        (guarded n events req current tunable silent result)
unfolding guarded
guarded-IsGuarded n laws events req current tunable silent result =
    let chosen =
      best_of-one n
        (λ c. (c.1 ≡ metrics n events c.0 req.threshold) × (keys n c.0 ≡ silent ++ tunable)) _ _
        (refl, both _ (keys-tuned_weights n current result.best_bits 0 tunable))
        (
          (refl, both _ (keys-dict_of n _ tunable)),
          ((refl, both _ (keys-dict_of n _ tunable)), tt),
        ) in
    (chosen.0, refl, best_of-third n laws _ _ _, chosen.1)
  where
    both :
        (ys : List (String × n.Float))
        → keys n ys ≡ tunable
        → keys n (dict_of n (current_of n current) silent ++ ys) ≡ silent ++ tunable
    both ys e =
        keys-append n (dict_of n (current_of n current) silent) ys
        ∙ ap (λ rs. rs ++ keys n ys) (keys-dict_of n (current_of n current) silent)
        ∙ ap (λ rs. silent ++ rs) e

tune_fired-IsGuarded :
    (n : Numbers) (np : Numpy n) (laws : IsOrder n) (events : List LabelledEvent)
    (req : TuningRequest n) (current : List (String × n.Float)) (tunable silent : List String)
    → 0 < length tunable
    → (r : TuningResult n) × (tune_fired n np events req current tunable silent ≡ some r)
      × IsGuarded n events req.threshold current silent tunable r
tune_fired-IsGuarded n np laws events req current [] silent h =
    let no : ⊥ = omega (arith, h) in elim no [ ]
tune_fired-IsGuarded n np laws events req current (r ∷ rs) silent h =
    let built = tuning_model-Builds n events req.fp_cost (r ∷ rs) h in
    let result = solve n np built.0 req.method req.seed none 24 in
    (
      guarded n events req current (r ∷ rs) silent result,
      ap (tuned_with n np events req current (r ∷ rs) silent) built.1,
      guarded-IsGuarded n laws events req current (r ∷ rs) silent result,
    )

-- Where one of the rules fired in an event, tuning returns a result: a weight for each rule, those that
-- did not fire first, whose metrics on the events at the threshold are the ones in `after`; and the f1
-- there is at least the f1 in `before`, which are the metrics of the current weights.
pub tune_weights-no_worse :
    (n : Numbers) (np : Numpy n) (laws : IsOrder n) (events : List LabelledEvent)
    (req : TuningRequest n)
    → 0 < length (keep (fired_in events) req.rules)
    → (r : TuningResult n) × (tune_weights n np events req ≡ some r)
      × (r.after ≡ metrics n events r.weights req.threshold)
      × (r.before
          ≡ metrics n events
              (dict_of n
                  (current_of n (weights_or n req.current_weights req.rules))
                  (keep (λ c. not (fired_in events c)) req.rules)
                ++ dict_of n
                    (current_of n (weights_or n req.current_weights req.rules))
                    (keep (fired_in events) req.rules))
              req.threshold)
      × (n.le r.before.f1 r.after.f1 ≡ true)
      × (keys n r.weights
          ≡ keep (λ c. not (fired_in events c)) req.rules ++ keep (fired_in events) req.rules)
unfolding tune_weights
tune_weights-no_worse n np laws events req h =
    let t =
      tune_fired-IsGuarded n np laws events req (weights_or n req.current_weights req.rules)
        (keep (fired_in events) req.rules) (keep (λ c. not (fired_in events c)) req.rules) h in
    (t.0, t.1, t.2.0, t.2.1, t.2.2, t.2.3)
