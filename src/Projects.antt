-- ===== src/Projects.antt =====
-- apps/projects: the project record, its lifecycle, review, publication and applications.
pub mod Enums
pub mod Data
pub mod Monad
pub mod Access
pub mod Lifecycle
pub mod Review
pub mod Readiness
pub mod Publication
pub mod Closure
pub mod Personal
pub mod Applications
pub mod Edit
pub mod Command
mod Sample
mod Tests
