-- ===== src/Tests.antt =====
-- Tests, and the theorems at inputs that meet their conditions.
mod Codec
mod Heaven
mod God
mod Thrash
mod Faults
mod Prompts
mod Provider
mod Planner
mod Patch
mod Packing
mod Assembly
mod Integrator
mod Isa
mod Lean
