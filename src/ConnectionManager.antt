-- ===== src/ConnectionManager.antt =====
-- The service-level connection manager of src/ConnectionManager.cpp.
pub mod State
pub mod Breaker
pub mod Select
pub mod Pool
pub mod Acquire
pub mod Backends
pub mod Stats
pub mod Actions
pub mod Tables
pub mod Names
pub mod Lifecycle
pub mod Listing
pub mod Inv
pub mod Runs
pub mod Granted
pub mod Choice
pub mod Weights
pub mod Trips
pub mod Refusal
pub mod Exhaustion
mod Tests
