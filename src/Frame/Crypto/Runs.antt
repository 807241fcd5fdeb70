-- ===== src/Frame/Crypto/Runs.antt =====
-- The room for CRYPTO data at concrete values.
