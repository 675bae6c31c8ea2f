-- ===== src/Morse.antt =====
-- Morse code (internal/morse): the element table, canonical text and its parser, element timing.
pub mod Table
pub mod Parse
pub mod Timing
pub mod Tests
