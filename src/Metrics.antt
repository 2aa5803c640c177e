-- ===== src/Metrics.antt =====
-- internal/metrics: what the agent exports about the graph.
mod Tests
pub mod Collector
pub mod Runtime
