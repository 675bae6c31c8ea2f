-- ===== src/Rig/Patch/Permitted.antt =====
-- A request that reaches the radio fits it, as a whole.
