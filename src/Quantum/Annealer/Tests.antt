-- ===== src/Quantum/Annealer/Tests.antt =====
-- The solvers on the model of Qubo/Tests, with the numbers there.
use egreen_quanta_tes.Base.{ℕ, ◌≡◌, true, none, some, List, leb, arith}
use egreen_quanta_tes.Quantum.Qubo.{energy}
use egreen_quanta_tes.Quantum.Qubo.Optimal.{IsBits}
use egreen_quanta_tes.Quantum.Qubo.Tests.{shifted, shifted-IsOrder, plain, either}
use egreen_quanta_tes.Quantum.Annealer.Solve.{solve}
use egreen_quanta_tes.Quantum.Annealer.Trace.{IsDescending}
use egreen_quanta_tes.Quantum.Annealer.Solved.{solve-IsDescending, solve-IsLeast}

solve-IsDescending_example :
    IsDescending shifted (solve shifted plain either "sqa" 7 (some 2) 2).energy_trajectory
solve-IsDescending_example =
    solve-IsDescending shifted plain shifted-IsOrder (λ a b k h. h) either "sqa" 7 (some 2) 2

solve-IsLeast_example :
    let r = solve shifted plain either "auto" 7 none 20 in
    IsBits 2 r.best_bits
    × ((y : List ℕ)
        → IsBits 2 y
        → leb (energy shifted plain either r.best_bits) (energy shifted plain either y) ≡ true)
    × (r.best_energy ≡ energy shifted plain either r.best_bits)
    × (r.optimal ≡ some true)
solve-IsLeast_example = solve-IsLeast shifted plain shifted-IsOrder either 7 none 20 (omega arith)
