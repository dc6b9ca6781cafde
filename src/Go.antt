-- ===== src/Go.antt =====
-- The parts of the Go language and its standard library that the program relies on.
pub mod Word
pub mod Text
pub mod Map
pub mod Unicode
