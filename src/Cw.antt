-- ===== src/Cw.antt =====
-- The CAT CW sender (internal/cw): how text is validated and cut into chunks for a rig's keyer buffer,
-- and how the chunks are queued, paced and sent.
pub mod Chunk
pub mod Cat
pub mod Serial
mod Tests
