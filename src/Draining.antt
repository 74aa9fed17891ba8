-- ===== src/Draining.antt =====
-- clusterman/draining/queue.py: the queues through which hosts are drained and terminated.
pub mod Defs
mod Examples
pub mod Lookup
pub mod Drain
pub mod Warning
pub mod Termination
