-- ===== src/Quantum/Tuning/Tests.antt =====
-- Two rules that fire together in two malicious events, and one of them in a benign event.
use egreen_quanta_tes.Base.{String, ◌≡◌, refl, true, false, some, List, [], ◌∷◌, ◌++◌, arith}
use egreen_quanta_tes.Quantum.Qubo.Tests.{shifted, shifted-IsOrder, plain}
use egreen_quanta_tes.Quantum.Tuning.{
  LabelledEvent, TuningResult, TuningRequest, metrics, redundancy, redundancy_from,
}
use egreen_quanta_tes.Quantum.Tuning.Tune.{dict_of, current_of, weights_or, tune_weights}
use egreen_quanta_tes.Quantum.Tuning.Guard.{keys, tune_weights-no_worse}

abbrev rules : List String
rules = "T01" ∷ "T05" ∷ "T13" ∷ []

abbrev against : List LabelledEvent
against =
    record { fired = "T05" ∷ "T01" ∷ []; malicious = true }
    ∷ record { fired = "T05" ∷ "T01" ∷ []; malicious = true }
    ∷ record { fired = "T05" ∷ []; malicious = false }
    ∷ []

abbrev along : List LabelledEvent
along = record { fired = "T01" ∷ "T05" ∷ []; malicious = true } ∷ []

abbrev request : TuningRequest shifted
request = record {
  rules = rules;
  current_weights = [];
  fp_cost = 240;
  threshold = 200;
  method = "auto";
  seed = 7;
}

-- The same set in the other order is counted.
counted : redundancy shifted rules along 0 1 ≡ shifted.div 200 200
unfolding redundancy redundancy_from
counted = refl

tune_weights-no_worse_example :
    (r : TuningResult shifted) × (tune_weights shifted plain against request ≡ some r)
    × (r.after ≡ metrics shifted against r.weights 200)
    × (r.before
        ≡ metrics shifted against
            (dict_of shifted (current_of shifted (weights_or shifted [] rules)) ("T13" ∷ [])
              ++ dict_of shifted
                  (current_of shifted (weights_or shifted [] rules))
                  ("T01" ∷ "T05" ∷ []))
            200)
    × (shifted.le r.before.f1 r.after.f1 ≡ true)
    × (keys shifted r.weights ≡ "T13" ∷ "T01" ∷ "T05" ∷ [])
tune_weights-no_worse_example =
    tune_weights-no_worse shifted plain shifted-IsOrder against request (omega arith)
