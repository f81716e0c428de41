-- ===== src/Quantum/Correlation.antt =====
-- backend/app/services/quantum/correlation_qubo.py: correlate_qubo and the modularity. A similarity
-- matrix of size n is a function on the indices below n; a set of indices is the list that `sorted`
-- gives, so `sorted` itself does not show. Labels are left out.
mod Counts
pub mod Partition
mod Tests
use egreen_quanta_tes.Base.{
  ℕ, zero, suc, ◌+◌, ◌-◌, ◌*◌, ◌==◌, String, Bool, true, false, not, ◌&&◌, Option, none, some, List,
  [], ◌∷◌, ◌++◌, map, length, keep, any, ltb, if◌then◌else◌,
}
use egreen_quanta_tes.Detection.Number.{Numbers, null, one}
use egreen_quanta_tes.Quantum.Numeric.{Numpy, neg, of_nat, lt, range}
use egreen_quanta_tes.Quantum.Qubo.{QuboModel, new_model, add_quadratic, each_pair}
use egreen_quanta_tes.Quantum.Annealer.{AnnealResult}
use egreen_quanta_tes.Quantum.Annealer.Solve.{solve}
use egreen_quanta_tes.Quantum.Groups.{greedy_groups}

-- `_MIN_CLUSTER` and `_MAX_CLUSTERS`
abbrev pub min_cluster : ℕ
min_cluster = 2

abbrev pub max_clusters : ℕ
max_clusters = 12

-- `[idx[a] for a, bit in enumerate(bits) if bit == 1]`. The solver's answer has as many bits as
-- there are indices.
abbrev pub picked : List ℕ → List ℕ → List ℕ
picked [] bits = []
picked (i ∷ idx) [] = []
picked (i ∷ idx) (b ∷ bits) = let rest = picked idx bits in if b == 1 then i ∷ rest else rest

-- `i in xs`, and `remaining -= set(picked)`.
abbrev pub holds : List ℕ → ℕ → Bool
holds xs i = any (λ x. x == i) xs

abbrev pub without : List ℕ → List ℕ → List ℕ
without xs ys = keep (λ i. not (holds ys i)) xs

-- The element at a place inside a list.
abbrev pub at : List ℕ → ℕ → ℕ
at [] k = 0
at (x ∷ xs) zero = x
at (x ∷ xs) (suc k) = at xs k

module _ (n : Numbers) (np : Numpy n) where
  pub record CorrelationResult : Type 0 where
    pub clusters : List (List ℕ)
    pub cluster_density : List n.Float
    pub singletons : List ℕ
    pub qubo_modularity : n.Float
    pub baseline_modularity : n.Float
    pub solver_runs : List (AnnealResult n)

  -- What the loop over the clusters carries on.
  pub record Grouping : Type 0 where
    pub remaining : List ℕ
    pub clusters : List (List ℕ)
    pub densities : List n.Float
    pub solver_runs : List (AnnealResult n)

  -- `np.fill_diagonal(sim, 0.0)`
  abbrev pub zero_diagonal : (ℕ → ℕ → n.Float) → ℕ → ℕ → n.Float
  zero_diagonal sim i j = if i == j then null n else sim i j

  -- `x or 1.0`
  abbrev pub or_one : n.Float → n.Float
  or_one x = if n.le x (null n) && n.le (null n) x then one n else x

  -- `sim.sum(axis=1)` at one row, and `sim.sum()`.
  abbrev pub degree : (ℕ → ℕ → n.Float) → ℕ → ℕ → n.Float
  degree sim size i = np.sum size (sim i)

  abbrev pub total_of : (ℕ → ℕ → n.Float) → ℕ → n.Float
  total_of sim size = or_one (n.div (np.sum size (degree sim size)) (n.lit 200))

  -- The two inner loops of `_modularity`, from the sum so far.
  abbrev pub add_pairs :
      (ℕ → ℕ → n.Float) → (ℕ → n.Float) → n.Float → ℕ → List ℕ → n.Float → n.Float
  add_pairs sim deg total i [] q = q
  add_pairs sim deg total i (j ∷ js) q =
      let expected = n.div (n.mul (deg i) (deg j)) (n.mul (n.lit 200) total) in
      add_pairs sim deg total i js (if ltb i j then n.add q (n.sub (sim i j) expected) else q)

  abbrev pub add_rows :
      (ℕ → ℕ → n.Float) → (ℕ → n.Float) → n.Float → List ℕ → List ℕ → n.Float → n.Float
  add_rows sim deg total [] group q = q
  add_rows sim deg total (i ∷ is) group q =
      add_rows sim deg total is group (add_pairs sim deg total i group q)

  abbrev pub add_groups :
      (ℕ → ℕ → n.Float) → (ℕ → n.Float) → n.Float → List (List ℕ) → n.Float → n.Float
  add_groups sim deg total [] q = q
  add_groups sim deg total (g ∷ gs) q = add_groups sim deg total gs (add_rows sim deg total g g q)

  -- `_modularity`
  unfoldable pub modularity : (ℕ → ℕ → n.Float) → ℕ → List (List ℕ) → n.Float
  modularity sim size groups =
      let total = total_of sim size in
      n.div (add_groups sim (degree sim size) total groups (null n)) total

  -- `sim[sim > 0]`, and the default of gamma.
  abbrev pub entries : (ℕ → ℕ → n.Float) → ℕ → List ℕ → List n.Float
  entries sim size [] = []
  entries sim size (i ∷ is) = map (sim i) (range 0 size) ++ entries sim size is

  abbrev pub percentile_or : List n.Float → n.Float
  percentile_or [] = n.lit 20
  percentile_or (x ∷ xs) = np.percentile (x ∷ xs) 25

  abbrev pub gamma_of : Option n.Float → (ℕ → ℕ → n.Float) → ℕ → n.Float
  gamma_of none sim size = percentile_or (keep (lt n (null n)) (entries sim size (range 0 size)))
  gamma_of (some gamma) sim size = gamma

  -- The model of one round, over the indices that are left.
  abbrev pub pair_weight : (ℕ → ℕ → n.Float) → n.Float → List ℕ → ℕ → ℕ → n.Float
  pair_weight sim gamma idx a b = neg n (n.sub (sim (at idx a) (at idx b)) gamma)

  unfoldable pub round_model : (ℕ → ℕ → n.Float) → n.Float → List ℕ → Option (QuboModel n)
  round_model sim gamma idx = elim (new_model n (length idx)) [
    | none ↦ none
    | some model ↦
        each_pair n (λ a b. add_quadratic n a b (pair_weight sim gamma idx a b))
          (range 0 (length idx)) model
  ]

  -- `sum(sim[i, j] for a, i in enumerate(picked) for j in picked[a + 1 :])`
  abbrev pub add_row : (ℕ → ℕ → n.Float) → ℕ → List ℕ → n.Float → n.Float
  add_row sim i [] t = t
  add_row sim i (j ∷ js) t = add_row sim i js (n.add t (sim i j))

  abbrev pub internal_from : (ℕ → ℕ → n.Float) → List ℕ → n.Float → n.Float
  internal_from sim [] t = t
  internal_from sim (i ∷ is) t = internal_from sim is (add_row sim i is t)

  abbrev pub internal_of : (ℕ → ℕ → n.Float) → List ℕ → n.Float
  internal_of sim chosen = internal_from sim chosen (null n)

  -- `internal / pairs`; there are pairs, since at least two indices are chosen.
  abbrev pub density_of : n.Float → ℕ → n.Float
  density_of internal k = n.div internal (n.div (of_nat n (k * (k - 1))) (n.lit 200))

  -- A round after the solver: true where the loop goes on.
  abbrev pub taken : (ℕ → ℕ → n.Float) → AnnealResult n → Grouping → Bool × Grouping
  taken sim result g =
      let chosen = picked g.remaining result.best_bits in
      let runs = g.solver_runs ++ result ∷ [] in
      if ltb (length chosen) min_cluster
      then (false, record g { solver_runs = runs })
      else if n.le (internal_of sim chosen) (null n)
      then (false, record g { solver_runs = runs })
      else (
        true,
        record {
          remaining = without g.remaining chosen;
          clusters = g.clusters ++ chosen ∷ [];
          densities = g.densities ++ density_of (internal_of sim chosen) (length chosen) ∷ [];
          solver_runs = runs;
        },
      )

  -- The loop, at most `count` times; none where building a model raises.
  module _ (sim : ℕ → ℕ → n.Float) (gamma : n.Float) (method : String) (seed : ℕ) where
    abbrev pub answered : Grouping → QuboModel n → Bool × Grouping
    answered g model = taken sim (solve n np model method seed (some 900) 20) g

    unfoldable pub extract : ℕ → Grouping → Option Grouping
    extract zero g = some g
    extract (suc count) g = elim (ltb (length g.remaining) min_cluster) [
      | true ↦ some g
      | false ↦ elim (round_model sim gamma g.remaining) [
        | none ↦ none
        | some model ↦ elim (answered g model).0 [
          | true ↦ extract count (answered g model).1
          | false ↦ some (answered g model).1
        ]
      ]
    ]

  -- The result, from the loop's end and the groups of the greedy heuristic at `link` 0.34.
  abbrev pub result_of : (ℕ → ℕ → n.Float) → ℕ → Grouping → List (List ℕ) → CorrelationResult
  result_of sim size g baseline = record {
    clusters = g.clusters;
    cluster_density = g.densities;
    singletons = g.remaining;
    qubo_modularity = modularity sim size (g.clusters ++ map (λ s. s ∷ []) g.remaining);
    baseline_modularity = modularity sim size baseline;
    solver_runs = g.solver_runs;
  }

  -- `correlate_qubo` on a square matrix.
  unfoldable pub correlate_qubo :
      (ℕ → ℕ → n.Float) → ℕ → Option n.Float → String → ℕ → Option CorrelationResult
  correlate_qubo given size gamma method seed =
      let sim = zero_diagonal given in
      elim (extract sim (gamma_of gamma sim size) method seed max_clusters
        (record { remaining = range 0 size; clusters = []; densities = []; solver_runs = [] })) [
          | none ↦ none
          | some g ↦ elim (greedy_groups n sim (n.lit 34) size) [
            | none ↦ none
            | some baseline ↦ some (result_of sim size g baseline)
          ]
        ]
