-- ===== src/Rig.antt =====
-- The session of one radio (internal/rig): the connection with its pending requests, the fan-out of
-- events, and the rules of reconnecting and of giving up on a radio.
pub mod Conn
pub mod Events
pub mod Backoff
pub mod Cache
pub mod Patch
pub mod Setters
mod Tests
