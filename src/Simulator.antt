-- ===== src/Simulator.antt =====
-- The simulator of a cluster: clusterman/simulator. Times and durations are integers on one scale, prices
-- and cpus are integers that count a small unit.
pub mod Markets
pub mod Instances
pub mod Cpus
pub mod Cost
pub mod Cluster
pub mod Events
pub mod Data
mod Examples
