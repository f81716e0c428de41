-- ===== src/Quantum/Planner/Tests.antt =====
-- A plan of two waves for two identities.
use egreen_quanta_tes.Base.{
  ℕ, ◌+◌, ◌*◌, ◌≤◌, String, ◌≡◌, Bool, Option, none, some, [], ◌∷◌, map, length,
}
use egreen_quanta_tes.Quantum.Qubo.Tests.{shifted, plain}
use egreen_quanta_tes.Quantum.Annealer.{max}
use egreen_quanta_tes.Quantum.Planner.{MigrationIdentity, MigrationPlan, total, effort_of}
use egreen_quanta_tes.Quantum.Planner.Plan.{plan_migration}
use egreen_quanta_tes.Quantum.Planner.Placed.{tally, names, wave_tally, plan_migration-places}

abbrev gateway : MigrationIdentity shifted
gateway = record { name = "gateway"; qes = 190; criticality = 5; effort = 3; label = "" }

abbrev archive : MigrationIdentity shifted
archive = record { name = "archive"; qes = 150; criticality = 1; effort = 2; label = "" }

plan_migration-places_example :
    (plan : MigrationPlan shifted) × (plan_migration shifted plain
        (gateway ∷ archive ∷ [])
        2
        none
        "auto"
        7
        none
      ≡ some plan)
    × (length plan.waves ≡ max 1 2)
    × ((q : String → Bool)
        → wave_tally shifted q plan.waves + tally q plan.unassigned
          ≡ tally q (names shifted (gateway ∷ archive ∷ [])))
    × (◌≡◌ {A = Option ℕ} none none
        → total (map (effort_of shifted) (gateway ∷ archive ∷ []))
          ≤ plan.wave_capacity * length plan.waves)
plan_migration-places_example =
    plan_migration-places shifted plain gateway (archive ∷ []) 2 none "auto" 7 none
