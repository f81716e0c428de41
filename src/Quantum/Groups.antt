-- ===== src/Quantum/Groups.antt =====
-- backend/app/services/quantum/correlation_qubo.py: _greedy_groups, a union-find with path halving. The
-- parents are a function on the indices below n; `none` is a loop of `find` that outlasts its fuel.
pub mod Counts
mod Paths
mod Ends
mod Unions
mod Linked
mod Collected
mod Chained
mod Gathered
mod Tests
pub mod Partition
use egreen_quanta_tes.Base.{
  ℕ, zero, suc, ◌+◌, ◌==◌, Bool, true, false, Option, none, some, List, [], ◌∷◌, ◌++◌, map, length,
  if◌then◌else◌,
}
use egreen_quanta_tes.Detection.Number.{Numbers}
use egreen_quanta_tes.Quantum.Numeric.{range, replaced}

-- `find`: the root of `a`, and the parents after the halving.
unfoldable pub find_root : ℕ → (ℕ → ℕ) → ℕ → Option (ℕ × (ℕ → ℕ))
find_root zero parent a = none
find_root (suc fuel) parent a =
    let grand = parent (parent a) in
    elim (parent a == a) [
      | true ↦ some (a, parent)
      | false ↦ find_root fuel (replaced a grand parent) grand
    ]

-- `parent[find(i)] = find(j)`, whose right-hand side runs first.
unfoldable pub union : ℕ → ℕ → ℕ → (ℕ → ℕ) → Option (ℕ → ℕ)
union fuel i j parent = elim (find_root fuel parent j) [
  | none ↦ none
  | some of_j ↦ elim (find_root fuel of_j.1 i) [
    | none ↦ none
    | some of_i ↦ some (replaced of_i.0 of_j.0 of_i.1)
  ]
]

-- `groups.setdefault(key, []).append(i)` on the dict in the order of its keys.
unfoldable pub append_to : ℕ → ℕ → List (ℕ × List ℕ) → List (ℕ × List ℕ)
append_to key i [] = (key, i ∷ []) ∷ []
append_to key i (g ∷ gs) = if g.0 == key then (g.0, g.1 ++ i ∷ []) ∷ gs else g ∷ append_to key i gs

-- The last loop, over the indices that are left.
unfoldable pub collect : ℕ → (ℕ → ℕ) → List ℕ → List (ℕ × List ℕ) → Option (List (ℕ × List ℕ))
collect fuel parent [] groups = some groups
collect fuel parent (i ∷ is) groups = elim (find_root fuel parent i) [
  | none ↦ none
  | some of_i ↦ collect fuel of_i.1 is (append_to of_i.0 i groups)
]

-- The number of the pairs that the two loops go through.
abbrev pub pairs : List ℕ → ℕ
pairs [] = 0
pairs (x ∷ xs) = length xs + pairs xs

module _ (n : Numbers) (sim : ℕ → ℕ → n.Float) (link : n.Float) where
  -- The inner loop over j, and the outer one over i, which starts at `i`.
  unfoldable pub link_row : ℕ → ℕ → List ℕ → (ℕ → ℕ) → Option (ℕ → ℕ)
  link_row fuel i [] parent = some parent
  link_row fuel i (j ∷ js) parent = elim (n.le link (sim i j)) [
    | true ↦ elim (union fuel i j parent) [
      | none ↦ none
      | some parent' ↦ link_row fuel i js parent'
    ]
    | false ↦ link_row fuel i js parent
  ]

  unfoldable pub link_rows : ℕ → List ℕ → (ℕ → ℕ) → Option (ℕ → ℕ)
  link_rows fuel [] parent = some parent
  link_rows fuel (i ∷ is) parent = elim (link_row fuel i is parent) [
    | none ↦ none
    | some parent' ↦ link_rows fuel is parent'
  ]

  -- `_greedy_groups` on a matrix of the given size. Each pair adds at most one step to a path, so the
  -- fuel is the number of pairs and one.
  unfoldable pub greedy_groups : ℕ → Option (List (List ℕ))
  greedy_groups size =
      let fuel = suc (pairs (range 0 size)) in
      elim (link_rows fuel (range 0 size) (λ a. a)) [
        | none ↦ none
        | some parent ↦ elim (collect fuel parent (range 0 size) []) [
          | none ↦ none
          | some groups ↦ some (map (λ g. g.1) groups)
        ]
      ]
