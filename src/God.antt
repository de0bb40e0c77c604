-- ===== src/God.antt =====
-- god/: the orchestrator.
pub mod Diff
pub mod Edit
pub mod Meter
pub mod Thrash
pub mod Missions
pub mod AngelAssembly
pub mod Integrator
pub mod Isa
pub mod MacroOps
pub mod Provider
pub mod Planner
pub mod Patch
pub mod PromptCompiler
