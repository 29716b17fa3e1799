-- ===== src/Graph.antt =====
-- graph/: the knowledge graph and its versions.
pub mod Weights
pub mod Store
pub mod Versioning
pub mod Builders
pub mod Query
pub mod Shortest
pub mod Propagation
