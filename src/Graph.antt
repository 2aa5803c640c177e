-- ===== src/Graph.antt =====
-- internal/graph: the dependency graph and its cache.
mod Tests
pub mod Types
pub mod Keys
pub mod Criticality
pub mod Observe
pub mod Aggregate
pub mod Cache
pub mod Queries
