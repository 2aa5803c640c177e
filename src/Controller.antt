-- ===== src/Controller.antt =====
-- internal/controller: from the informers' objects to rebuilds of the graph.
mod Tests
pub mod Namespaces
pub mod Loop
pub mod Owners
pub mod Rebuild
pub mod Status
pub mod Events
