-- ===== src/Quantum/Correlation/Tests.antt =====
-- Three events of which the first and the last are alike.
use egreen_quanta_tes.Base.{ℕ, ◌+◌, ◌<◌, ◌≤◌, ◌==◌, ◌≡◌, some, All, length, if◌then◌else◌}
use egreen_quanta_tes.Quantum.Qubo.Tests.{shifted, plain}
use egreen_quanta_tes.Quantum.Groups.Counts.{count, count_all}
use egreen_quanta_tes.Quantum.Correlation.{CorrelationResult, zero_diagonal, correlate_qubo}
use egreen_quanta_tes.Quantum.Correlation.Partition.{IsCluster, correlate_qubo-partition}

abbrev alike : ℕ → ℕ → ℕ
alike i j = if i + j == 2 then 160 else 100

correlate_qubo-partition_example :
    (r : CorrelationResult shifted plain) × (correlate_qubo shifted plain alike 3
        (some 130)
        "auto"
        7
      ≡ some r)
    × ((i : ℕ) → i < 3 → count_all i r.clusters + count i r.singletons ≡ 1)
    × All (IsCluster shifted plain (zero_diagonal shifted plain alike)) r.clusters
    × (length r.clusters ≤ 12)
correlate_qubo-partition_example =
    correlate_qubo-partition shifted plain alike 3 (some 130) "auto" 7
