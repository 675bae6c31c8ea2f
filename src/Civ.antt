-- ===== src/Civ.antt =====
-- The Icom CI-V backend (internal/rig/backend/civ).
pub mod Bcd
pub mod Frame
