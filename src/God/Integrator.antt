-- ===== src/God/Integrator.antt =====
-- god/integrator.go.
pub mod Rebase
pub mod Conflict
pub mod Integrate
pub mod Leased
pub mod Rebased
pub mod Unnamed
