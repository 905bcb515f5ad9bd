-- ===== src/Protocol/RoundTrip.antt =====
-- Reading back what src/protocol.cpp wrote.
pub mod Packets
pub mod Payloads
pub mod Tokens
