-- ===== src/Recognition.antt =====
-- apps/recognition: scores, badges, and the corrections of both with their appeals.
pub mod Data
pub mod Snapshots
pub mod Changes
pub mod Corrections
pub mod Hearings
pub mod Badges
pub mod Scoring
pub mod Recomputation
pub mod Rescored
pub mod Capping
pub mod Limits
pub mod Counting
pub mod Awards
pub mod Uniqueness
pub mod Agreement
pub mod Lookups
pub mod Restoration
pub mod Calls
pub mod Laws
mod Tests
