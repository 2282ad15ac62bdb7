-- ===== src/Samples.antt =====
-- Small flows, what the modelled code does on them, and the theorems at concrete inputs.
mod Sessions
mod Staging
mod Breaker
mod Errors
mod Plans
mod Races
mod Agents
mod Sweeps
mod Batches
mod Approvals
pub mod Models
mod Calls
mod Evaluations
pub mod OneByOne
pub mod Flows
