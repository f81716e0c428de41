-- ===== src/Quantum/Tuning.antt =====
-- backend/app/services/quantum/tuning.py: tune_weights, at its default levels. A set of rule codes is a
-- list in the order in which Python iterates over it; a dict is a list of pairs with its keys in order.
pub mod Tune
pub mod Guard
pub mod Redundancy
mod Tests
use egreen_quanta_tes.Base.{
  ℕ, zero, suc, ◌+◌, ◌*◌, ◌==◌, String, Bool, true, false, not, ◌&&◌, Option, none, some, List, [],
  ◌∷◌, ◌++◌, map, length, keep, find, leb, str_eq, if◌then◌else◌,
}
use egreen_quanta_tes.Base.Text.{is_in}
use egreen_quanta_tes.Detection.Number.{Numbers, null, one}
use egreen_quanta_tes.Quantum.Numeric.{Numpy, neg, of_nat, lt, abs, range, nth}
use egreen_quanta_tes.Quantum.Qubo.{
  QuboModel, and_then, new_model, add_linear, add_quadratic, each, each_pair, add_one_hot,
}
use egreen_quanta_tes.Quantum.Annealer.{AnnealResult}
use egreen_quanta_tes.Quantum.Annealer.Solve.{solve}

pub record LabelledEvent : Type 0 where
  pub fired : List String
  pub malicious : Bool

-- The result of `_metrics`.
pub record Metrics (nums : Numbers) : Type 0 where
  pub precision : nums.Float
  pub recall : nums.Float
  pub f1 : nums.Float
  pub tp : ℕ
  pub fp : ℕ
  pub tn : ℕ
  pub fn : ℕ

pub record TuningResult (nums : Numbers) : Type 0 where
  pub weights : List (String × nums.Float)
  pub threshold : nums.Float
  pub before : Metrics nums
  pub after : Metrics nums
  pub solver : AnnealResult nums
  pub rules : List String

-- What a request gives, less its events.
pub record TuningRequest (nums : Numbers) : Type 0 where
  pub rules : List String
  pub current_weights : List (String × nums.Float)
  pub fp_cost : nums.Float
  pub threshold : nums.Float
  pub method : String
  pub seed : ℕ

-- `idx[r]`: the place of a rule.
abbrev pub place_of : List String → String → Option ℕ
place_of [] r = none
place_of (x ∷ xs) r =
    let later = place_of xs r in
    if str_eq x r then some 0 else elim later [ none ↦ none | some k ↦ some (suc k) ]

-- `[idx[r] for r in ev.fired if r in idx]`
abbrev pub present_in : List String → List String → List ℕ
present_in rules [] = []
present_in rules (r ∷ rs) =
    let rest = present_in rules rs in elim (place_of rules r) [ none ↦ rest | some k ↦ k ∷ rest ]

-- `{code for ev in events for code in ev.fired}`, as a test.
abbrev pub fired_in : List LabelledEvent → String → Bool
fired_in [] r = false
fired_in (e ∷ es) r = if is_in r e.fired then true else fired_in es r

-- `sum(... ) or 1`
abbrev pub count_label : Bool → List LabelledEvent → ℕ
count_label label [] = 0
count_label label (e ∷ es) =
    (if e.malicious then if label then 1 else 0 else if label then 0 else 1) + count_label label es

abbrev pub or_one : ℕ → ℕ
or_one k = if k == 0 then 1 else k

module _ (n : Numbers) where
  -- `DEFAULT_LEVELS`
  abbrev pub levels : List n.Float
  levels = n.lit 0 ∷ n.lit 50 ∷ n.lit 100 ∷ n.lit 200 ∷ []

  abbrev pub level : ℕ → n.Float
  level k =
      if k == 0
      then n.lit 0
      else if k == 1
      then n.lit 50
      else if k == 2
      then n.lit 100
      else n.lit 200

  -- `weights.get(r, default)`
  abbrev pub get_or : List (String × n.Float) → String → n.Float → n.Float
  get_or [] r default = default
  get_or (w ∷ ws) r default = let rest = get_or ws r default in if str_eq w.0 r then w.1 else rest

  abbrev pub score_from : List (String × n.Float) → List String → n.Float → n.Float
  score_from weights [] t = t
  score_from weights (r ∷ rs) t = score_from weights rs (n.add t (get_or weights r (null n)))

  -- `score >= threshold`
  abbrev pub flags : List (String × n.Float) → n.Float → LabelledEvent → Bool
  flags weights threshold e = n.le threshold (score_from weights e.fired (null n))

  -- How many events have a label and are flagged, or are not.
  abbrev pub tally : (LabelledEvent → Bool) → List LabelledEvent → ℕ
  tally q [] = 0
  tally q (e ∷ es) = (if q e then 1 else 0) + tally q es

  -- `a / b if b else 0.0` on int, and on float.
  abbrev pub share : ℕ → ℕ → n.Float
  share a b = if b == 0 then null n else n.div (of_nat n a) (of_nat n b)

  abbrev pub f1_of : n.Float → n.Float → n.Float
  f1_of p r =
      let s = n.add p r in
      if n.le s (null n) && n.le (null n) s then null n else n.div (n.mul (n.mul (n.lit 200) p) r) s

  -- `_metrics`
  unfoldable pub metrics : List LabelledEvent → List (String × n.Float) → n.Float → Metrics n
  metrics events weights threshold =
      let flagged = flags weights threshold in
      let tp = tally (λ e. e.malicious && flagged e) events in
      let fn = tally (λ e. e.malicious && not (flagged e)) events in
      let fp = tally (λ e. not e.malicious && flagged e) events in
      let tn = tally (λ e. not e.malicious && not (flagged e)) events in
      let precision = share tp (tp + fp) in
      let recall = share tp (tp + fn) in
      record {
        precision = n.round precision 3;
        recall = n.round recall 3;
        f1 = n.round (f1_of precision recall) 3;
        tp = tp;
        fp = fp;
        tn = tn;
        fn = fn;
      }

  -- `tp_rate[r]` and `fp_rate[r]`: what the events of a label add up to.
  abbrev pub rate_from : Bool → n.Float → String → List LabelledEvent → n.Float → n.Float
  rate_from label step r [] t = t
  rate_from label step r (e ∷ es) t = rate_from label step r es (
      if is_in r e.fired
      then if e.malicious
        then if label then n.add t step else t
        else if label
        then t
        else n.add t step
      else t)

  abbrev pub rate_of : Bool → String → List LabelledEvent → n.Float
  rate_of label r events =
      rate_from label (n.div (one n) (of_nat n (or_one (count_label label events)))) r events
        (null n)

  -- `redundancy[a, b]`: an event adds at the pairs of its rules in the order of its set.
  abbrev pub add_hits : ℕ → ℕ → n.Float → ℕ → List ℕ → n.Float → n.Float
  add_hits a b step x [] t = t
  add_hits a b step x (y ∷ ys) t =
      add_hits a b step x ys (if x == a && y == b then n.add t step else t)

  abbrev pub add_pairs : ℕ → ℕ → n.Float → List ℕ → n.Float → n.Float
  add_pairs a b step [] t = t
  add_pairs a b step (x ∷ xs) t = add_pairs a b step xs (add_hits a b step x xs t)

  unfoldable pub redundancy_from :
      List String → n.Float → ℕ → ℕ → List LabelledEvent → n.Float → n.Float
  redundancy_from rules step a b [] t = t
  redundancy_from rules step a b (e ∷ es) t =
      redundancy_from rules step a b es
        (if e.malicious then add_pairs a b step (present_in rules e.fired) t else t)

  unfoldable pub redundancy : List String → List LabelledEvent → ℕ → ℕ → n.Float
  redundancy rules events a b =
      redundancy_from rules (n.div (one n) (of_nat n (or_one (count_label true events)))) a b events
        (null n)

  -- The loop over the rules: the linear terms of the levels and the one-hot penalty.
  abbrev pub gain_of : List LabelledEvent → n.Float → String → n.Float
  gain_of events fp_cost r = n.sub (rate_of true r events) (n.mul fp_cost (rate_of false r events))

  unfoldable pub add_rule :
      List LabelledEvent → n.Float → ℕ × String → QuboModel n → Option (QuboModel n)
  add_rule events fp_cost e m =
      and_then n
        (each n
          (λ l.
            add_linear n (e.0 * 4 + l)
              (n.mul (n.mul (neg n (n.lit 1000)) (gain_of events fp_cost e.1)) (level l)))
          (range 0 4) m)
        (add_one_hot n (map (λ l. e.0 * 4 + l) (range 0 4)) (n.mul (n.lit 1000) (n.lit 300)))

  -- The terms between two rules at all pairs of levels, where they are redundant.
  abbrev pub redundant_terms : n.Float → ℕ → ℕ → QuboModel n → Option (QuboModel n)
  redundant_terms red a b m =
      each n
        (λ la.
          each n
            (λ lb.
              add_quadratic n (a * 4 + la) (b * 4 + lb)
                (n.mul (n.mul (n.mul (n.mul (n.lit 1000) (n.lit 18)) red) (level la)) (level lb)))
            (range 0 4))
        (range 0 4) m

  unfoldable pub add_redundant : (ℕ → ℕ → n.Float) → ℕ → ℕ → QuboModel n → Option (QuboModel n)
  add_redundant red a b m =
      if n.le (red a b) (null n) then some m else redundant_terms (red a b) a b m
