-- ===== src/Quantum/Annealer/Replicas.antt =====
-- backend/app/services/quantum/annealer.py: simulated_quantum_annealing, over coupled replicas.
use egreen_quanta_tes.Base.{ℕ, zero, suc, ◌+◌, ◌-◌, ◌%◌, true, List, [], ◌∷◌, if◌then◌else◌}
use egreen_quanta_tes.Detection.Number.{Numbers}
use egreen_quanta_tes.Quantum.Numeric.{
  Numpy, Spin, neg, of_nat, lt, larger, of_spin, flip, range, replaced,
}
use egreen_quanta_tes.Quantum.Qubo.{QuboModel, IsingModel, from_qubo, energy_spin, local_field}
use egreen_quanta_tes.Quantum.Annealer.{
  AnnealResult, Best, max, accepts, shifted_field, keep_best, noted, finalize,
}

module _ (n : Numbers) (np : Numpy n) where
  pub record Replicas : Type 0 where
    pub spins : ℕ → ℕ → Spin
    pub fields : ℕ → ℕ → n.Float
    pub rng : np.Rng

  -- `rng.choice(..., size=(p, n))`, drawn row by row.
  unfoldable pub draw_rows : ℕ → ℕ → ℕ → (ℕ → ℕ → Spin) → np.Rng → (ℕ → ℕ → Spin) × np.Rng
  draw_rows size zero k rows rng = (rows, rng)
  draw_rows size (suc count) k rows rng =
      let drawn = np.choice size rng in
      draw_rows size count (suc k) (replaced k drawn.0 rows) drawn.1

  -- `-0.5 * p / beta * np.log(np.tanh(beta * gamma / p) + 1e-300)`
  unfoldable pub coupling : ℕ → n.Float → n.Float → n.Float
  coupling p beta gamma =
      n.mul (n.div (n.mul (neg n (n.lit 50)) (of_nat n p)) beta)
        (np.log (n.add (np.tanh (n.div (n.mul beta gamma) (of_nat n p))) (np.tiny 300)))

  -- `delta` of the innermost loop; spins of the two neighbours are added as integers.
  abbrev pub flip_cost : ℕ → n.Float → ℕ → ℕ → Replicas → n.Float
  flip_cost p jperp k i r =
      let si = of_spin n (r.spins k i) in
      let beside =
        n.add (of_spin n (r.spins (suc k % p) i)) (of_spin n (r.spins ((k + p - 1) % p) i)) in
      n.add (n.div (n.mul (n.mul (neg n (n.lit 200)) si) (r.fields k i)) (of_nat n p))
        (n.mul (n.mul (n.mul (n.lit 200) jperp) si) beside)

  abbrev pub try_replica : IsingModel n → ℕ → n.Float → n.Float → ℕ → ℕ → Replicas → Replicas
  try_replica ising p beta jperp k i r =
      let verdict = accepts n np beta (flip_cost p jperp k i r) r.rng in
      let si = flip (r.spins k i) in
      if verdict.0
      then record {
        spins = replaced k (replaced i si (r.spins k)) r.spins;
        fields = replaced k (shifted_field n np ising i si (r.fields k)) r.fields;
        rng = verdict.1;
      }
      else record { spins = r.spins; fields = r.fields; rng = verdict.1 }

  unfoldable pub try_replica_all :
      IsingModel n → ℕ → n.Float → n.Float → ℕ → List ℕ → Replicas → Replicas
  try_replica_all ising p beta jperp k [] r = r
  try_replica_all ising p beta jperp k (i ∷ order) r =
      try_replica_all ising p beta jperp k order (try_replica ising p beta jperp k i r)

  -- `for k in range(p)`
  unfoldable pub sweep_replicas :
      IsingModel n → ℕ → n.Float → n.Float → List ℕ → Replicas → Replicas
  sweep_replicas ising p beta jperp [] r = r
  sweep_replicas ising p beta jperp (k ∷ ks) r =
      let drawn = np.permutation ising.n r.rng in
      sweep_replicas ising p beta jperp ks (
        try_replica_all ising p beta jperp k drawn.0
          (record { spins = r.spins; fields = r.fields; rng = drawn.1 }))

  -- `np.argmin` of the energies: the first least one among the replicas after the best so far.
  unfoldable pub argmin : (ℕ → n.Float) → ℕ → List ℕ → ℕ
  argmin e best [] = best
  argmin e best (k ∷ ks) = argmin e (if lt n (e k) (e best) then k else best) ks

  -- The replicas after a sweep, and the one of least energy.
  abbrev pub after_sweep : IsingModel n → ℕ → n.Float → n.Float → Replicas → Replicas
  after_sweep ising p beta gamma r =
      sweep_replicas ising p beta (coupling p beta (larger n gamma (np.tiny 9))) (range 0 p) r

  abbrev pub k_star : IsingModel n → ℕ → Replicas → ℕ
  k_star ising p r = argmin (λ k. energy_spin n np ising (r.spins k)) 0 (range 1 (p - 1))

  abbrev pub improved : IsingModel n → ℕ → Replicas → Best n np → Best n np
  improved ising p r b =
      let star = r.spins (k_star ising p r) in keep_best n np (energy_spin n np ising star) star b

  -- The loop over the sweeps.
  unfoldable pub sqa_sweeps :
      IsingModel n → ℕ → n.Float → (ℕ → n.Float) → ℕ → ℕ → Replicas → Best n np → Best n np
  sqa_sweeps ising p beta gammas zero sweep r b = b
  sqa_sweeps ising p beta gammas (suc count) sweep r b =
      let r' = after_sweep ising p beta (gammas sweep) r in
      sqa_sweeps ising p beta gammas count (suc sweep) r' (noted n np true (improved ising p r' b))

  -- `simulated_quantum_annealing`, with beta = 8.0, gamma0 = 3.0 and gamma1 = 1e-3 as `solve` has it.
  unfoldable pub simulated_quantum_annealing : QuboModel n → ℕ → ℕ → ℕ → AnnealResult n
  simulated_quantum_annealing model sweeps trotter seed =
      let ising = from_qubo n np model in
      let p = max 2 trotter in
      let beta = n.lit 800 in
      let drawn = draw_rows ising.n p 0 (λ k i. Spin.up) (np.default_rng seed) in
      let best =
        sqa_sweeps ising p beta (np.linspace (n.lit 300) (np.tiny 3) sweeps) sweeps 0
          (record {
            spins = drawn.0;
            fields = λ k. local_field n np ising (drawn.0 k);
            rng = drawn.1;
          })
          (record { best_energy = np.inf; best_s = drawn.0 0; trajectory = [] }) in
      finalize n np model "simulated_quantum_annealing" best sweeps 1 seed (
        ("trotter", of_nat n p)
        ∷ ("beta", beta)
        ∷ ("gamma0", n.lit 300)
        ∷ ("gamma1", np.tiny 3)
        ∷ [])
