-- ===== src/Heaven.antt =====
-- heaven/: the shared-state server.
pub mod EventLog
pub mod State
pub mod Leases
pub mod FileClock
pub mod Server
pub mod Json
pub mod Blobs
pub mod Commands
pub mod Lookups
pub mod Prompts
pub mod Router
pub mod Delta
pub mod Sectioner
pub mod PromptStore
