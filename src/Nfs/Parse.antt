-- ===== src/Nfs/Parse.antt =====
-- nfs/parse.go, a module for each group of lines.
pub mod Common
pub mod Versions
pub mod ClientV4
pub mod ServerV4
pub mod Total
pub mod Values
