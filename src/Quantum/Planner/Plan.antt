-- ===== src/Quantum/Planner/Plan.antt =====
-- backend/app/services/quantum/pq_risk.py: the greedy baseline and plan_migration as a whole.
use egreen_quanta_tes.Base.{
  ℕ, zero, suc, ◌+◌, String, Option, none, some, List, [], ◌∷◌, map, length, any, ltb, leb,
  if◌then◌else◌,
}
use egreen_quanta_tes.Detection.Number.{Numbers, null, hundred}
use egreen_quanta_tes.Quantum.Numeric.{Numpy, of_nat, lt}
use egreen_quanta_tes.Quantum.Qubo.{QuboModel}
use egreen_quanta_tes.Quantum.Annealer.{AnnealResult, max}
use egreen_quanta_tes.Quantum.Annealer.Solve.{solve}
use egreen_quanta_tes.Quantum.Planner.{
  MigrationIdentity, MigrationPlan, enumerate, total, effort_of, capacity_of, weight_scale,
  plan_model, place_all, empty_waves,
}

module _ (n : Numbers) where
  -- The sum of qes * (k + 1) over the waves, from the sum so far.
  abbrev pub add_wave : n.Float → List (MigrationIdentity n) → n.Float → n.Float
  add_wave factor [] t = t
  add_wave factor (x ∷ xs) t = add_wave factor xs (n.add t (n.mul x.qes factor))

  abbrev pub exposure_from : ℕ → List (List (MigrationIdentity n)) → n.Float → n.Float
  exposure_from k [] t = t
  exposure_from k (wave ∷ waves) t =
      exposure_from (suc k) waves (add_wave (of_nat n (k + 1)) wave t)

  -- `sorted(identities, key=lambda i: -i.qes)`, which keeps the order of equals.
  abbrev pub insert_by_qes :
      MigrationIdentity n → List (MigrationIdentity n) → List (MigrationIdentity n)
  insert_by_qes x [] = x ∷ []
  insert_by_qes x (y ∷ ys) =
      let rest = insert_by_qes x ys in if lt n x.qes y.qes then y ∷ rest else x ∷ y ∷ ys

  abbrev pub sorted_by_qes : List (MigrationIdentity n) → List (MigrationIdentity n)
  sorted_by_qes [] = []
  sorted_by_qes (x ∷ xs) = insert_by_qes x (sorted_by_qes xs)

  -- The first wave of `load` with room, and the loads after it took the effort.
  abbrev pub fill : ℕ → ℕ → ℕ → List ℕ → Option ℕ × List ℕ
  fill cap effort k [] = (none, [])
  fill cap effort k (l ∷ ls) =
      let later = fill cap effort (suc k) ls in
      if leb (l + effort) cap then (some k, (l + effort) ∷ ls) else (later.0, l ∷ later.1)

  abbrev pub wave_factor : ℕ → Option ℕ → n.Float
  wave_factor waves none = of_nat n waves
  wave_factor waves (some k) = of_nat n (k + 1)

  -- `_greedy_baseline`, from the loads and the total so far.
  abbrev pub greedy_from : ℕ → ℕ → List (MigrationIdentity n) → List ℕ → n.Float → n.Float
  greedy_from waves cap [] load t = t
  greedy_from waves cap (x ∷ xs) load t =
      let filled = fill cap (effort_of n x) 0 load in
      greedy_from waves cap xs filled.1 (n.add t (n.mul x.qes (wave_factor waves filled.0)))

  abbrev pub zeros : ℕ → List ℕ
  zeros zero = []
  zeros (suc w) = 0 ∷ zeros w

  unfoldable pub greedy_baseline : List (MigrationIdentity n) → ℕ → ℕ → n.Float
  greedy_baseline identities waves cap =
      greedy_from waves cap (sorted_by_qes identities) (zeros waves) (null n)

  -- `100.0 * (baseline - cumulative) / baseline if baseline > 0 else 0.0`
  abbrev pub improvement_of : n.Float → n.Float → n.Float
  improvement_of baseline cumulative =
      if lt n (null n) baseline
      then n.div (n.mul (hundred n) (n.sub baseline cumulative)) baseline
      else null n

  abbrev pub load_of : List (MigrationIdentity n) → ℕ
  load_of wave = total (map (λ x. x.effort) wave)

module _ (n : Numbers) (np : Numpy n) where
  -- The plan, once the solver has answered.
  abbrev pub plan_of : List (MigrationIdentity n) → ℕ → ℕ → AnnealResult n → MigrationPlan n
  plan_of identities w cap result =
      let placed =
        place_all n result.best_bits w (enumerate 0 identities)
          (record { waves = empty_waves n w; unassigned = [] }) in
      let cumulative = exposure_from n 0 placed.waves (null n) in
      let baseline = greedy_baseline n identities w cap in
      record {
        waves = placed.waves;
        wave_capacity = cap;
        total_waves = w;
        cumulative_exposure = cumulative;
        baseline_exposure = baseline;
        improvement_pct = improvement_of n baseline cumulative;
        solver = result;
        unassigned = placed.unassigned;
        notes_unplaced = ltb 0 (length placed.unassigned);
        notes_capacity = any (λ wave. ltb cap (load_of n wave)) placed.waves;
      }

  -- The model of a request: the penalties scale with the largest score.
  abbrev pub request_model : List (MigrationIdentity n) → ℕ → ℕ → Option (QuboModel n)
  request_model identities w cap =
      let scale = weight_scale n identities in
      plan_model n w (n.mul (n.lit 400) scale)
        (n.div (n.mul (n.lit 60) scale) (of_nat n (max 1 cap))) cap identities

  abbrev pub plan_with :
      List (MigrationIdentity n)
      → ℕ
      → ℕ
      → String
      → ℕ
      → Option ℕ
      → Option (QuboModel n)
      → Option (MigrationPlan n)
  plan_with identities w cap method seed sweeps none = none
  plan_with identities w cap method seed sweeps (some model) =
      some (plan_of identities w cap (solve n np model method seed sweeps 24))

  -- `plan_migration`: none stands for the ValueError.
  unfoldable pub plan_migration :
      List (MigrationIdentity n) → ℕ → Option ℕ → String → ℕ → Option ℕ → Option (MigrationPlan n)
  plan_migration [] waves wave_capacity method seed sweeps = none
  plan_migration (x ∷ xs) waves wave_capacity method seed sweeps =
      let w = max 1 waves in
      let cap = capacity_of n (x ∷ xs) w wave_capacity in
      plan_with (x ∷ xs) w cap method seed sweeps (request_model (x ∷ xs) w cap)
