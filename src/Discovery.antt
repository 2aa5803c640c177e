-- ===== src/Discovery.antt =====
-- internal/discovery: from Kubernetes objects to the inputs of the graph.
mod Tests
pub mod SecretRefs
pub mod Objects
pub mod Metadata
pub mod Infer
pub mod Merge
pub mod Extract
pub mod Custom
pub mod Edges
