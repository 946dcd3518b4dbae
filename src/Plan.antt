-- ===== src/Plan.antt =====
-- scripts/implementation_plan.py: the checks that a plan of tasks passes, and the decisions over a
-- remote branch.
pub mod Cycle
pub mod Reports
pub mod TaskCheck
pub mod Waves
pub mod Graph
pub mod Selection
pub mod Checkpoint
pub mod State
pub mod Store
