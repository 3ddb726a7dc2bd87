-- ===== src/Xfs.antt =====
-- Package xfs.
pub mod Types
pub mod Parse
pub mod Stats
