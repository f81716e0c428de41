-- ===== src/Quantum/Annealer/Trace.antt =====
-- The trajectories of the two annealers.
use egreen_quanta_tes.Base.{
  ℕ, zero, suc, String, ◌≡◌, Bool, true, false, List, [], ◌∷◌, ◌++◌, map, All, inl, inr, Bool-cases,
}
use egreen_quanta_tes.Detection.Number.{Numbers}
use egreen_quanta_tes.Quantum.Numeric.{Numpy, Spin}
use egreen_quanta_tes.Quantum.Qubo.{QuboModel, IsingModel, energy, energy_spin}
use egreen_quanta_tes.Quantum.Qubo.Optimal.{IsOrder}
use egreen_quanta_tes.Quantum.Annealer.{
  Best, Walk, keep_best, noted, swept, restarted, sa_sweeps, sa_restarts, finalize,
  simulated_annealing, max,
}
use egreen_quanta_tes.Quantum.Annealer.Replicas.{
  Replicas, after_sweep, k_star, improved, sqa_sweeps, simulated_quantum_annealing,
}

module _ (n : Numbers) where
  -- Every entry is at most each one before it.
  abbrev pub IsDescending : List n.Float → Type 0
  IsDescending [] = Unit
  IsDescending (e ∷ es) = All (λ f. n.le f e ≡ true) es × IsDescending es

  abbrev pub IsBelow : n.Float → List n.Float → Type 0
  IsBelow b es = All (λ e. n.le b e ≡ true) es

  All-append_one :
      (e b : n.Float) (es : List n.Float)
      → All (λ f. n.le f e ≡ true) es
      → n.le b e ≡ true
      → All (λ f. n.le f e ≡ true) (es ++ b ∷ [])
  All-append_one e b [] h k = (k, tt)
  All-append_one e b (f ∷ es) h k = (h.0, All-append_one e b es h.1 k)

  IsDescending-append_one :
      (b : n.Float) (es : List n.Float)
      → IsDescending es
      → IsBelow b es
      → IsDescending (es ++ b ∷ [])
  IsDescending-append_one b [] h k = (tt, tt)
  IsDescending-append_one b (e ∷ es) h k =
      (All-append_one e b es h.0 k.0, IsDescending-append_one b es h.1 k.1)

  IsBelow-append_one :
      (b : n.Float) (es : List n.Float) → n.le b b ≡ true → IsBelow b es → IsBelow b (es ++ b ∷ [])
  IsBelow-append_one b [] r k = (r, tt)
  IsBelow-append_one b (e ∷ es) r k = (k.0, IsBelow-append_one b es r k.1)

  module _ (f : n.Float → n.Float)
      (mono : (a b : n.Float) → n.le a b ≡ true → n.le (f a) (f b) ≡ true) where
    All-map :
        (e : n.Float) (es : List n.Float)
        → All (λ g. n.le g e ≡ true) es
        → All (λ g. n.le g (f e) ≡ true) (map f es)
    All-map e [] h = tt
    All-map e (g ∷ es) h = (mono g e h.0, All-map e es h.1)

    IsDescending-map : (es : List n.Float) → IsDescending es → IsDescending (map f es)
    IsDescending-map [] h = tt
    IsDescending-map (e ∷ es) h = (All-map e es h.0, IsDescending-map es h.1)

module _ (n : Numbers) (np : Numpy n) (laws : IsOrder n) where
  -- The trajectory descends to what the best energy is at least.
  abbrev IsTraced : Best n np → Type 0
  IsTraced b = IsDescending n b.trajectory × IsBelow n b.best_energy b.trajectory

  IsBelow-le :
      (a b : n.Float) (es : List n.Float) → n.le a b ≡ true → IsBelow n b es → IsBelow n a es
  IsBelow-le a b [] h k = tt
  IsBelow-le a b (e ∷ es) h k = (laws.le_trans a b e h k.0, IsBelow-le a b es h k.1)

  keep_best-IsTraced :
      (energy : n.Float) (s : ℕ → Spin) (b : Best n np)
      → IsTraced b
      → IsTraced (keep_best n np energy s b)
  keep_best-IsTraced energy s b h = elim (Bool-cases (n.le b.best_energy energy)) [
    | inl e ↦ rw e h
    | inr e ↦ rw e (h.0, IsBelow-le energy b.best_energy b.trajectory (laws.le_total _ _ e) h.1)
  ]

  noted-IsTraced : (first : Bool) (b : Best n np) → IsTraced b → IsTraced (noted n np first b)
  noted-IsTraced false b h = h
  noted-IsTraced true b h = (
    IsDescending-append_one n b.best_energy b.trajectory h.0 h.1,
    IsBelow-append_one n b.best_energy b.trajectory (laws.le_refl _) h.1,
  )

  sa_sweeps-IsTraced :
      (ising : IsingModel n) (betas : ℕ → n.Float) (first : Bool) (count sweep : ℕ) (w : Walk n np)
      (b : Best n np)
      → IsTraced b
      → IsTraced (sa_sweeps n np ising betas first count sweep w b).1
  unfolding sa_sweeps
  sa_sweeps-IsTraced ising betas first zero sweep w b h = h
  sa_sweeps-IsTraced ising betas first (suc count) sweep w b h =
      sa_sweeps-IsTraced ising betas first count (suc sweep) (swept n np ising (betas sweep) w)
        (noted n np first (next_best b))
        (noted-IsTraced first (next_best b) (keep_best-IsTraced w'.energy w'.s b h))
    where
      w' : Walk n np
      w' = swept n np ising (betas sweep) w

      next_best : Best n np → Best n np
      next_best b = keep_best n np w'.energy w'.s b

  sa_restarts-IsTraced :
      (ising : IsingModel n) (betas : ℕ → n.Float) (sweeps : ℕ) (first : Bool) (count : ℕ)
      (rng : np.Rng) (b : Best n np)
      → IsTraced b
      → IsTraced (sa_restarts n np ising betas sweeps first count rng b)
  unfolding sa_restarts
  sa_restarts-IsTraced ising betas sweeps first zero rng b h = h
  sa_restarts-IsTraced ising betas sweeps first (suc count) rng b h =
      sa_restarts-IsTraced ising betas sweeps false count _ _
        (sa_sweeps-IsTraced ising betas first sweeps 0 (restarted n np ising rng) b h)

  sqa_sweeps-IsTraced :
      (ising : IsingModel n) (p : ℕ) (beta : n.Float) (gammas : ℕ → n.Float) (count sweep : ℕ)
      (r : Replicas n np) (b : Best n np)
      → IsTraced b
      → IsTraced (sqa_sweeps n np ising p beta gammas count sweep r b)
  unfolding sqa_sweeps
  sqa_sweeps-IsTraced ising p beta gammas zero sweep r b h = h
  sqa_sweeps-IsTraced ising p beta gammas (suc count) sweep r b h =
      let r' = after_sweep n np ising p beta (gammas sweep) r in
      let star = r'.spins (k_star n np ising p r') in
      sqa_sweeps-IsTraced ising p beta gammas count (suc sweep) r'
        (noted n np true (improved n np ising p r' b))
        (noted-IsTraced true (improved n np ising p r' b)
          (keep_best-IsTraced (energy_spin n np ising star) star b h))

  -- Rounding keeps the order.
  abbrev pub RoundsUp : Type 0
  RoundsUp = (a b : n.Float) (k : ℕ) → n.le a b ≡ true → n.le (n.round a k) (n.round b k) ≡ true

  module _ (rounds : RoundsUp) where
    finalize-IsDescending :
        (original : QuboModel n) (method : String) (b : Best n np) (sweeps restarts seed : ℕ)
        (params : List (String × n.Float))
        → IsTraced b
        → IsDescending n
            (finalize n np original method b sweeps restarts seed params).energy_trajectory
    unfolding finalize
    finalize-IsDescending original method b sweeps restarts seed params h =
        IsDescending-map n (λ e. n.round e 6) (λ x y. rounds x y 6) b.trajectory h.0

    pub sa-IsDescending :
        (model : QuboModel n) (sweeps restarts seed : ℕ)
        → IsDescending n (simulated_annealing n np model sweeps restarts seed).energy_trajectory
    unfolding simulated_annealing
    sa-IsDescending model sweeps restarts seed =
        finalize-IsDescending model _ _ sweeps (max 1 restarts) seed _
          (sa_restarts-IsTraced _ _ sweeps true (max 1 restarts) _ _ (tt, tt))

    pub sqa-IsDescending :
        (model : QuboModel n) (sweeps trotter seed : ℕ)
        → IsDescending n
            (simulated_quantum_annealing n np model sweeps trotter seed).energy_trajectory
    unfolding simulated_quantum_annealing
    sqa-IsDescending model sweeps trotter seed =
        finalize-IsDescending model _ _ sweeps 1 seed _
          (sqa_sweeps-IsTraced _ _ _ _ sweeps 0 _ _ (tt, tt))
