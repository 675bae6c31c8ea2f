-- ===== src/Access.antt =====
-- Who may use a radio: HTTP Basic verification (internal/auth) and the single-use tickets that open a
-- WebSocket (internal/ws/ticket.go).
pub mod Ticket
pub mod Basic
mod Tests
