-- ===== src/Moderation.antt =====
-- apps/moderation: reports, the cases that they open, enforcement and appeals.
pub mod Data
pub mod Enforcement
pub mod Cases
pub mod Hearings
pub mod Guards
pub mod Restoration
pub mod History
pub mod Steps
pub mod Laws
pub mod Resolution
pub mod Appeals
mod Tests
