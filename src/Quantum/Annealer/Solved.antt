-- ===== src/Quantum/Annealer/Solved.antt =====
-- What every answer of `solve` has, whichever solver it comes from.
use egreen_quanta_tes.Base.{
  ℕ, zero, suc, ◌<◌, ◌≤◌, ◌&&◌, String, ◌≡◌, refl, sym, subst, ◌∙◌, true, false, Option, none, some,
  List, [], ◌∷◌, map, inl, inr, Bool-cases, arith, leb, leb→le, le→leb, str_eq,
}
use egreen_quanta_tes.Detection.Number.{Numbers}
use egreen_quanta_tes.Quantum.Numeric.{Numpy, Spin, up, down, bit_of, range}
use egreen_quanta_tes.Quantum.Qubo.{QuboModel, energy, brute_force}
use egreen_quanta_tes.Quantum.Qubo.Optimal.{IsOrder, IsBits, brute_force-IsLeast}
use egreen_quanta_tes.Quantum.Annealer.{
  AnnealResult, finalize, simulated_annealing, can_brute_force, or_else, max,
}
use egreen_quanta_tes.Quantum.Annealer.Replicas.{simulated_quantum_annealing}
use egreen_quanta_tes.Quantum.Annealer.Solve.{resolved, raced, heuristic, exact_or, solve}
use egreen_quanta_tes.Quantum.Annealer.Trace.{
  IsDescending, RoundsUp, sa-IsDescending, sqa-IsDescending,
}

bit_of-IsBits :
    (s : ℕ → Spin) (start count : ℕ) → IsBits count (map (λ i. bit_of (s i)) (range start count))
bit_of-IsBits s start zero = tt
bit_of-IsBits s start (suc count) = (bit_of-lt (s start), bit_of-IsBits s (suc start) count)
  where
    bit_of-lt : (x : Spin) → bit_of x < 2
    bit_of-lt up = omega arith
    bit_of-lt down = omega arith

module _ (n : Numbers) (np : Numpy n) where
  -- A predicate on the bits and the trajectory that the three solvers' results have.
  module _ (P : List ℕ → List n.Float → Type 0) where
    abbrev Has : AnnealResult n → Type 0
    Has r = P r.best_bits r.energy_trajectory

    raced-Has : (sa sqa : AnnealResult n) → Has sa → Has sqa → Has (raced n np sa sqa)
    raced-Has sa sqa h k = elim (Bool-cases (n.le sqa.best_energy sa.best_energy)) [
      | inl e ↦ rw e k
      | inr e ↦ rw e h
    ]

    module _ (model : QuboModel n)
        (sa : (sweeps restarts seed : ℕ)
          → Has (simulated_annealing n np model sweeps restarts seed))
        (sqa : (sweeps trotter seed : ℕ)
          → Has (simulated_quantum_annealing n np model sweeps trotter seed)) where
      heuristic-Has :
          (method : String) (seed : ℕ) (sweeps : Option ℕ) (trotter : ℕ)
          → Has (heuristic n np model method seed sweeps trotter)
      heuristic-Has method seed sweeps trotter = elim (Bool-cases (str_eq method "sa")) [
        | inl e ↦ rw e (sa (or_else sweeps 2000) 8 seed)
        | inr e ↦ rw e (elim (Bool-cases (str_eq method "sqa")) [
          | inl d ↦ rw d (sqa (or_else sweeps 1500) trotter seed)
          | inr d ↦ rw d (
              raced-Has _ _ (sa (or_else sweeps 2200) (max 8 12) seed)
                (sqa (or_else sweeps 1600) trotter seed))
        ])
      ]

      solve-Has :
          (exact : (x : List ℕ × n.Float)
            → brute_force n np model ≡ some x
            → P x.0 (n.round x.1 6 ∷ []))
          (method : String) (seed : ℕ) (sweeps : Option ℕ) (trotter : ℕ)
          → Has (solve n np model method seed sweeps trotter)
      unfolding solve
      solve-Has exact method seed sweeps trotter =
          elim (Bool-cases (str_eq chosen "brute" && can_brute_force model.n)) [
            | inl e ↦ rw e (by_exact (brute_force n np model) exact)
            | inr e ↦ rw e other
          ]
        where
          chosen : String
          chosen = resolved method model.n

          other : Has (heuristic n np model chosen seed sweeps trotter)
          other = heuristic-Has chosen seed sweeps trotter

          by_exact :
              (o : Option (List ℕ × n.Float))
              → ((x : List ℕ × n.Float) → o ≡ some x → P x.0 (n.round x.1 6 ∷ []))
              → Has (exact_or n np o seed (heuristic n np model chosen seed sweeps trotter))
          by_exact none k = other
          by_exact (some x) k = k x refl

  simulated_annealing-IsBits :
      (model : QuboModel n) (sweeps restarts seed : ℕ)
      → IsBits model.n (simulated_annealing n np model sweeps restarts seed).best_bits
  unfolding simulated_annealing finalize
  simulated_annealing-IsBits model sweeps restarts seed = bit_of-IsBits _ 0 model.n

  simulated_quantum_annealing-IsBits :
      (model : QuboModel n) (sweeps trotter seed : ℕ)
      → IsBits model.n (simulated_quantum_annealing n np model sweeps trotter seed).best_bits
  unfolding simulated_quantum_annealing finalize
  simulated_quantum_annealing-IsBits model sweeps trotter seed = bit_of-IsBits _ 0 model.n

  module _ (laws : IsOrder n) where
    brute_force-IsBits :
        (model : QuboModel n) (x : List ℕ × n.Float)
        → brute_force n np model ≡ some x
        → IsBits model.n x.0
    unfolding brute_force
    brute_force-IsBits model x e = elim (Bool-cases (leb model.n 22)) [
      | inl small ↦
          let least = brute_force-IsLeast n laws np model (leb→le model.n 22 small) in
          subst (IsBits model.n) (same_bits _ x (sym least.1 ∙ e)) least.2
      | inr large ↦ elim (refused large) [ ]
    ]
      where
        same_bits : (y : List ℕ × n.Float) (z : List ℕ × n.Float) → some y ≡ some z → y.0 ≡ z.0
        same_bits y z e = cc

        refused : leb model.n 22 ≡ false → ⊥
        refused large = ground (arith, e)

    -- Whatever the method, an answer of the solver has one bit for each variable of the model.
    pub solve-IsBits :
        (model : QuboModel n) (method : String) (seed : ℕ) (sweeps : Option ℕ) (trotter : ℕ)
        → IsBits model.n (solve n np model method seed sweeps trotter).best_bits
    solve-IsBits model =
        solve-Has (λ bits trajectory. IsBits model.n bits) model (simulated_annealing-IsBits model)
          (simulated_quantum_annealing-IsBits model) (brute_force-IsBits model)

    -- Whatever the method, the energy trajectory of an answer of the solver never goes up: each entry is
    -- at most every entry before it.
    pub solve-IsDescending :
        (rounds : RoundsUp n np laws) (model : QuboModel n) (method : String) (seed : ℕ)
        (sweeps : Option ℕ) (trotter : ℕ)
        → IsDescending n (solve n np model method seed sweeps trotter).energy_trajectory
    solve-IsDescending rounds model =
        solve-Has (λ bits trajectory. IsDescending n trajectory) model
          (sa-IsDescending n np laws rounds model) (sqa-IsDescending n np laws rounds model)
          (λ x e. (tt, tt))

    -- On a model of at most 18 variables, `auto` answers with a vector of that many bits whose energy is
    -- at most the energy of every vector of that many bits; the energy in the answer is the energy of
    -- that vector, rounded, and the answer says that it is optimal.
    pub solve-IsLeast :
        (model : QuboModel n) (seed : ℕ) (sweeps : Option ℕ) (trotter : ℕ)
        → model.n ≤ 18
        → let r = solve n np model "auto" seed sweeps trotter in
          IsBits model.n r.best_bits
          × ((y : List ℕ)
              → IsBits model.n y
              → n.le (energy n np model r.best_bits) (energy n np model y) ≡ true)
          × (r.best_energy ≡ n.round (energy n np model r.best_bits) 9)
          × (r.optimal ≡ some true)
    unfolding solve
    solve-IsLeast model seed sweeps trotter h =
        let least = brute_force-IsLeast n laws np model (omega (arith, h)) in
        rw (le→leb model.n 18 h)
          (rw (le→leb model.n 22 (omega (arith, h))) (rw least.1 (least.2, least.3, refl, refl)))
