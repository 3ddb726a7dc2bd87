-- ===== src/Go.antt =====
-- The parts of Go and of its standard library that the parsers use.
pub mod Result
pub mod Cells
pub mod Text
pub mod Strconv
pub mod Scanner
pub mod Slices
pub mod Yields
pub mod Lines
pub mod Files
pub mod Map
pub mod Hex
pub mod Reply
pub mod Switch
