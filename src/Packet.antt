-- ===== src/Packet.antt =====
-- The packet layer of qbase.
pub mod Number
