-- ===== src/Tests.antt =====
-- Runs of the code on concrete inputs.
mod Data
pub mod Aggregators
pub mod Rates
pub mod Stores
pub mod Rounds
pub mod Sources
pub mod Chain
pub mod Events
