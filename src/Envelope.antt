-- ===== src/Envelope.antt =====
-- internal/envelope: what the Envelopes of many Deliveries share.
pub mod SharedTokens
pub mod Tracks
pub mod Naming
pub mod Sharing
