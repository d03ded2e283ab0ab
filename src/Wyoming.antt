-- ===== src/Wyoming.antt =====
-- src/wyoming: the Wyoming protocol.
pub mod Protocol
pub mod Server
