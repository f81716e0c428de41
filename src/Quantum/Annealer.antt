-- ===== src/Quantum/Annealer.antt =====
-- backend/app/services/quantum/annealer.py: the annealers over an Ising model and the choice among the
-- solvers. The generator is passed from draw to draw. The wall-clock times of a result are left out.
pub mod Replicas
pub mod Solve
pub mod Trace
pub mod Solved
mod Tests
use egreen_quanta_tes.Base.{
  ℕ, zero, suc, ◌+◌, ◌-◌, ◌%◌, ◌==◌, String, Bool, true, false, not, ◌&&◌, ◌||◌, Option, none, some,
  List, [], ◌∷◌, ◌++◌, map, ltb, leb, str_eq, if◌then◌else◌,
}
use Prim.Native.String.{◌++◌ as str_append}
use egreen_quanta_tes.Detection.Number.{Numbers, null, one}
use egreen_quanta_tes.Quantum.Numeric.{
  Numpy, Spin, neg, of_nat, lt, abs, larger, of_spin, flip, bit_of, range, replaced,
}
use egreen_quanta_tes.Quantum.Qubo.{
  QuboModel, IsingModel, brute_force_max_n, brute_force, from_qubo, energy_spin, local_field,
}

-- `AnnealResult`, less wall_ms. `runner_up` is that entry of its params.
pub record AnnealResult (nums : Numbers) : Type 0 where
  pub method : String
  pub best_bits : List ℕ
  pub best_energy : nums.Float
  pub energy_trajectory : List nums.Float
  pub sweeps : ℕ
  pub restarts : ℕ
  pub seed : ℕ
  pub optimal : Option Bool
  pub optimality_gap : Option nums.Float
  pub params : List (String × nums.Float)
  pub runner_up : Option (String × nums.Float)

-- `can_brute_force`
abbrev pub can_brute_force : ℕ → Bool
can_brute_force size = leb size brute_force_max_n

-- `max(a, b)` on int.
abbrev pub max : ℕ → ℕ → ℕ
max a b = if ltb a b then b else a

-- `x or d` on int | None.
abbrev pub or_else : Option ℕ → ℕ → ℕ
or_else none d = d
or_else (some x) d = if x == 0 then d else x

module _ (n : Numbers) (np : Numpy n) where
  -- The vectors of one replica, and what the loops carry on: a walk for SA.
  pub record Walk : Type 0 where
    pub s : ℕ → Spin
    pub field_vec : ℕ → n.Float
    pub energy : n.Float
    pub rng : np.Rng

  -- The best configuration so far and the trajectory.
  pub record Best : Type 0 where
    pub best_energy : n.Float
    pub best_s : ℕ → Spin
    pub trajectory : List n.Float

  -- `_beta_schedule`
  unfoldable pub beta_schedule : n.Float → n.Float → ℕ → ℕ → n.Float
  beta_schedule beta0 beta1 steps =
      np.geomspace (larger n beta0 (np.tiny 6)) (larger n beta1 (n.add beta0 (np.tiny 6))) steps

  -- `delta <= 0.0 or rng.random() < np.exp(-beta * delta)`: no number is drawn where the first holds.
  unfoldable pub accepts : n.Float → n.Float → np.Rng → Bool × np.Rng
  accepts beta delta rng =
      if n.le delta (null n)
      then (true, rng)
      else (lt n (np.random rng).0 (np.exp (n.mul (neg n beta) delta)), (np.random rng).1)

  -- `field_vec += 4.0 * s[i] * J[i]`, with `s[i]` after the flip.
  abbrev pub shifted_field : IsingModel n → ℕ → Spin → (ℕ → n.Float) → ℕ → n.Float
  shifted_field ising i si field j =
      n.add (field j) (n.mul (n.mul (n.lit 400) (of_spin n si)) (ising.j i j))

  -- The body of the innermost loop of `simulated_annealing`.
  abbrev pub try_flip : IsingModel n → n.Float → ℕ → Walk → Walk
  try_flip ising beta i w =
      let delta = n.mul (n.mul (neg n (n.lit 200)) (of_spin n (w.s i))) (w.field_vec i) in
      let verdict = accepts beta delta w.rng in
      if verdict.0
      then record {
        s = replaced i (flip (w.s i)) w.s;
        field_vec = shifted_field ising i (flip (w.s i)) w.field_vec;
        energy = n.add w.energy delta;
        rng = verdict.1;
      }
      else record { s = w.s; field_vec = w.field_vec; energy = w.energy; rng = verdict.1 }

  unfoldable pub try_flips : IsingModel n → n.Float → List ℕ → Walk → Walk
  try_flips ising beta [] w = w
  try_flips ising beta (i ∷ order) w = try_flips ising beta order (try_flip ising beta i w)

  -- `if energy < best_energy: ...` and the entry of the trajectory.
  abbrev pub keep_best : n.Float → (ℕ → Spin) → Best → Best
  keep_best energy s b =
      if lt n energy b.best_energy
      then record { best_energy = energy; best_s = s; trajectory = b.trajectory }
      else b

  abbrev pub noted : Bool → Best → Best
  noted first b = record {
    best_energy = b.best_energy;
    best_s = b.best_s;
    trajectory = if first then b.trajectory ++ b.best_energy ∷ [] else b.trajectory;
  }

  -- One sweep, and the loop over `range(sweep, sweep + count)` of one restart.
  abbrev pub swept : IsingModel n → n.Float → Walk → Walk
  swept ising beta w =
      let drawn = np.permutation ising.n w.rng in
      try_flips ising beta drawn.0
        (record { s = w.s; field_vec = w.field_vec; energy = w.energy; rng = drawn.1 })

  unfoldable pub sa_sweeps : IsingModel n → (ℕ → n.Float) → Bool → ℕ → ℕ → Walk → Best → Walk × Best
  sa_sweeps ising betas first zero sweep w b = (w, b)
  sa_sweeps ising betas first (suc count) sweep w b =
      let w' = swept ising (betas sweep) w in
      sa_sweeps ising betas first count (suc sweep) w' (noted first (keep_best w'.energy w'.s b))

  abbrev pub restarted : IsingModel n → np.Rng → Walk
  restarted ising rng =
      let drawn = np.choice ising.n rng in
      record {
        s = drawn.0;
        field_vec = local_field n np ising drawn.0;
        energy = energy_spin n np ising drawn.0;
        rng = drawn.1;
      }

  -- The loop over the restarts; only the first one writes the trajectory.
  unfoldable pub sa_restarts : IsingModel n → (ℕ → n.Float) → ℕ → Bool → ℕ → np.Rng → Best → Best
  sa_restarts ising betas sweeps first zero rng b = b
  sa_restarts ising betas sweeps first (suc count) rng b =
      let ended = sa_sweeps ising betas first sweeps 0 (restarted ising rng) b in
      sa_restarts ising betas sweeps false count ended.0.rng ended.1

  abbrev pub bits_of : ℕ → (ℕ → Spin) → List ℕ
  bits_of size s = map (λ i. bit_of (s i)) (range 0 size)

  -- `gap` of `_finalize`, where the exact solver applies.
  abbrev pub gap_to : n.Float → Option (List ℕ × n.Float) → Option n.Float
  gap_to best none = none
  gap_to best (some exact) = some (n.round (n.sub best exact.1) 9)

  abbrev pub is_small : Option n.Float → Option Bool
  is_small none = none
  is_small (some gap) = some (lt n (abs n gap) (np.tiny 6))

  -- `_finalize`
  unfoldable pub finalize :
      QuboModel n → String → Best → ℕ → ℕ → ℕ → List (String × n.Float) → AnnealResult n
  finalize original method b sweeps restarts seed params =
      let gap =
        if can_brute_force original.n
        then gap_to b.best_energy (brute_force n np original)
        else none in
      record {
        method = method;
        best_bits = bits_of original.n b.best_s;
        best_energy = n.round b.best_energy 9;
        energy_trajectory = map (λ e. n.round e 6) b.trajectory;
        sweeps = sweeps;
        restarts = restarts;
        seed = seed;
        optimal = is_small gap;
        optimality_gap = gap;
        params = params;
        runner_up = none;
      }

  -- `simulated_annealing`, with beta0 = 0.1 and beta1 = 10.0 as `solve` has it.
  unfoldable pub simulated_annealing : QuboModel n → ℕ → ℕ → ℕ → AnnealResult n
  simulated_annealing model sweeps restarts seed =
      let ising = from_qubo n np model in
      let beta0 = n.lit 10 in
      let beta1 = n.lit 1000 in
      let best =
        sa_restarts ising (beta_schedule beta0 beta1 sweeps) sweeps true (max 1 restarts)
          (np.default_rng seed)
          (record { best_energy = np.inf; best_s = λ i. Spin.up; trajectory = [] }) in
      finalize model "simulated_annealing" best sweeps (max 1 restarts) seed
        (("beta0", beta0) ∷ ("beta1", beta1) ∷ [])
