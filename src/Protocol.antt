-- ===== src/Protocol.antt =====
-- protocol.py: the message frames, the message builders and the validators.
pub mod Frame
pub mod Messages
pub mod Validate
