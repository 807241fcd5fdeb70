-- ===== src/Frame/Crypto/Capacity.antt =====
-- The estimate is exact.
use dquic.Base.{ℕ}
use dquic.Varint.Codec.{nbytes, shortest}

abbrev pub size_of : ℕ → ℕ
size_of x = nbytes (shortest x)
