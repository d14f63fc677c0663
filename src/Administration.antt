-- ===== src/Administration.antt =====
-- apps/administration: feature flags under four eyes, and the Super Admin role.
pub mod Access
pub mod Flags
pub mod Grants
pub mod Tests
