-- ===== src/Cluster.antt =====
-- pkg/cluster: the ID that a cluster joins under, and the image overrides.
pub mod Id
pub mod Info
pub mod Overrides
