-- ===== src/Migration.antt =====
-- clusterman/batch/node_migration.py: the batch that starts workers which recycle the nodes of a pool.
pub mod Batch
pub mod Condition
pub mod Settings
pub mod Event
pub mod Worker
mod Examples
