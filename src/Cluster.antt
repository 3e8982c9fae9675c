-- ===== src/Cluster.antt =====
-- internal/cluster
pub mod Tokens
pub mod OneTime
