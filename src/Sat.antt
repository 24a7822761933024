-- ===== src/Sat.antt =====
-- The SAT lane: cathedral/lanes/sat.py and cathedral/lanes/sat_types.py.
pub mod Examples
pub mod Instance
pub mod Solver
pub mod Certificate
pub mod Canonical
pub mod WorkItem
pub mod Lane
