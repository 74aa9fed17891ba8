-- ===== src/Kubernetes.antt =====
-- clusterman/kubernetes: the connector to a Kubernetes cluster.
pub mod Defs
pub mod Util
pub mod Pods
pub mod Connector
pub mod Drain
mod Examples
