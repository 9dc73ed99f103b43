-- ===== src/Tests.antt =====
-- Concrete data, and each theorem with conditions applied to it.
pub mod Values
pub mod Worlds
pub mod Runs
mod Servers
mod Schedulers
mod Late
mod Queues
mod Tasks
mod Messages
mod Monitors
mod Specs
mod Configs
mod Wires
mod Served
mod Listings
mod Limits
