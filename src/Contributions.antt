-- ===== src/Contributions.antt =====
-- apps/contributions: a contribution record, its verification, its holds and its revocation.
pub mod Data
pub mod Verification
pub mod Holds
pub mod Guards
pub mod Steps
pub mod History
pub mod Submission
pub mod Candidates
pub mod Laws
pub mod Consistency
pub mod Permits
pub mod Release
pub mod Tests
