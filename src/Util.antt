-- ===== src/Util.antt =====
-- internal/util: slices of numbers, numbers in files, and the value parser.
pub mod Parse
pub mod ValueParser
