-- ===== src/Frame.antt =====
-- The frames of qbase/src/frame.
pub mod Kind
pub mod Stream
pub mod Crypto
