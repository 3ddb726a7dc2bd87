-- ===== src/Nfs.antt =====
-- Package nfs.
pub mod Types
pub mod Parse
pub mod Client
pub mod Server
