-- ===== src/Cluster.antt =====
-- The cluster's view of its nodes: infra/cluster.
pub mod Node
pub mod Config
pub mod Lease
pub mod Center
