-- ===== src/Aws.antt =====
-- clusterman/aws: the resource groups.
pub mod AutoScaling
pub mod Termination
mod Examples
