-- ===== src/PoolManager.antt =====
-- clusterman/autoscaler/pool_manager.py: the capacity of a pool and the nodes to remove.
pub mod Defs
mod Examples
pub mod Capacity
pub mod Targets
pub mod Nodes
pub mod Prune
pub mod Modify
