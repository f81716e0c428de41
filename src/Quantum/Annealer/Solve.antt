-- ===== src/Quantum/Annealer/Solve.antt =====
-- backend/app/services/quantum/annealer.py: solve, the choice among the solvers.
use egreen_quanta_tes.Base.{
  ℕ, String, true, ◌&&◌, Option, none, some, List, [], ◌∷◌, leb, str_eq, if◌then◌else◌,
}
use Prim.Native.String.{◌++◌}
use egreen_quanta_tes.Detection.Number.{Numbers, null}
use egreen_quanta_tes.Quantum.Numeric.{Numpy}
use egreen_quanta_tes.Quantum.Qubo.{QuboModel, brute_force}
use egreen_quanta_tes.Quantum.Annealer.{
  AnnealResult, can_brute_force, max, or_else, simulated_annealing,
}
use egreen_quanta_tes.Quantum.Annealer.Replicas.{simulated_quantum_annealing}

-- `method` after the first test of `solve`.
abbrev pub resolved : String → ℕ → String
resolved method size =
    if str_eq method "auto" then if leb size 18 then "brute" else "best" else method

module _ (n : Numbers) (np : Numpy n) where
  -- The result that `solve` puts together after the exact solver.
  abbrev pub exact_result : ℕ → List ℕ × n.Float → AnnealResult n
  exact_result seed exact = record {
    method = "brute_force";
    best_bits = exact.0;
    best_energy = n.round exact.1 9;
    energy_trajectory = n.round exact.1 6 ∷ [];
    sweeps = 0;
    restarts = 1;
    seed = seed;
    optimal = some true;
    optimality_gap = some (null n);
    params = [];
    runner_up = none;
  }

  -- The race of the two annealers.
  abbrev pub raced : AnnealResult n → AnnealResult n → AnnealResult n
  raced sa sqa =
      let ahead = n.le sqa.best_energy sa.best_energy in
      let winner = if ahead then sqa else sa in
      let loser = if ahead then sa else sqa in
      record {
        method = winner.method ++ "+best";
        best_bits = winner.best_bits;
        best_energy = winner.best_energy;
        energy_trajectory = winner.energy_trajectory;
        sweeps = winner.sweeps;
        restarts = winner.restarts;
        seed = winner.seed;
        optimal = winner.optimal;
        optimality_gap = winner.optimality_gap;
        params = winner.params;
        runner_up = some (loser.method, loser.best_energy);
      }

  -- `solve` past the exact solver. `restarts` is 8 in every call.
  abbrev pub heuristic : QuboModel n → String → ℕ → Option ℕ → ℕ → AnnealResult n
  heuristic model method seed sweeps trotter =
      if str_eq method "sa"
      then simulated_annealing n np model (or_else sweeps 2000) 8 seed
      else if str_eq method "sqa"
      then simulated_quantum_annealing n np model (or_else sweeps 1500) trotter seed
      else raced (simulated_annealing n np model (or_else sweeps 2200) (max 8 12) seed)
          (simulated_quantum_annealing n np model (or_else sweeps 1600) trotter seed)

  abbrev pub exact_or : Option (List ℕ × n.Float) → ℕ → AnnealResult n → AnnealResult n
  exact_or none seed other = other
  exact_or (some exact) seed other = exact_result seed exact

  -- `solve`. The exact solver does not raise where it is called, since its test is the same.
  unfoldable pub solve : QuboModel n → String → ℕ → Option ℕ → ℕ → AnnealResult n
  solve model method seed sweeps trotter =
      let chosen = resolved method model.n in
      let other = heuristic model chosen seed sweeps trotter in
      if str_eq chosen "brute" && can_brute_force model.n
      then exact_or (brute_force n np model) seed other
      else other
