-- ===== src/Quantum/Groups/Tests.antt =====
-- Three events of which the first and the last are linked.
use egreen_quanta_tes.Base.{ℕ, ◌+◌, ◌<◌, ◌==◌, ◌≡◌, refl, some, List, [], ◌∷◌, if◌then◌else◌}
use egreen_quanta_tes.Quantum.Qubo.Tests.{shifted}
use egreen_quanta_tes.Quantum.Groups.{
  greedy_groups, link_rows, link_row, union, find_root, collect, append_to,
}
use egreen_quanta_tes.Quantum.Groups.Counts.{count_all}
use egreen_quanta_tes.Quantum.Groups.Collected.{AreTogether}
use egreen_quanta_tes.Quantum.Groups.Chained.{Chained}
use egreen_quanta_tes.Quantum.Groups.Gathered.{IsLinked}
use egreen_quanta_tes.Quantum.Groups.Partition.{greedy_groups-ends}

abbrev alike : ℕ → ℕ → ℕ
alike i j = if i + j == 2 then 160 else 100

grouped : greedy_groups shifted alike 134 3 ≡ some ((0 ∷ 2 ∷ []) ∷ (1 ∷ []) ∷ [])
unfolding greedy_groups link_rows link_row union find_root collect append_to
grouped = refl

greedy_groups-ends_example :
    (groups : List (List ℕ)) × (greedy_groups shifted alike 134 3 ≡ some groups)
    × ((i : ℕ) → i < 3 → count_all i groups ≡ 1)
    × ((i j : ℕ) → IsLinked shifted alike 134 3 i j → AreTogether i j groups)
    × ((i j : ℕ) → AreTogether i j groups → Chained (IsLinked shifted alike 134 3) i j)
greedy_groups-ends_example = greedy_groups-ends shifted alike 134 3
