-- ===== src/Quantum.antt =====
-- backend/app/services/quantum: the optimisation problems, their solvers, and the services that
-- pose them.
pub mod Numeric
pub mod Qubo
pub mod Annealer
pub mod Groups
pub mod Correlation
pub mod Exposure
pub mod Planner
pub mod Tuning
