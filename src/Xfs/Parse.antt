-- ===== src/Xfs/Parse.antt =====
-- The functions of xfs/parse.go that build one record, a module for each group.
pub mod Space
pub mod Operations
pub mod Caches
pub mod Btrees
pub mod Total
pub mod Values
