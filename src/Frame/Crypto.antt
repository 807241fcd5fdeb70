-- ===== src/Frame/Crypto.antt =====
-- qbase/src/frame/crypto.rs: the CRYPTO frame and how much data a packet has room for.
pub mod Capacity
mod Runs
use dquic.Base.{
  ℕ, ◌+◌, ◌-◌, leb, if◌then◌else◌, Option, none, some, Outcome, ret, panic, ◌>>=◌, ◌>>◌, assert,
  add_u64,
}
use dquic.Varint.{varint_max, encoding_size}
use dquic.Frame.Kind.{FrameType, crypto}

pub record CryptoFrame : Type 0 where
  pub offset : ℕ
  pub length : ℕ

unfoldable pub frame_type : CryptoFrame → FrameType
frame_type f = crypto

unfoldable pub header_size : CryptoFrame → Outcome ℕ
header_size f = do
  offset ← encoding_size f.offset
  length ← encoding_size f.length
  ret (1 + offset + length)

-- The closure on what remains.
unfoldable pub data_in : ℕ → Outcome ℕ
data_in remaining =
    if leb remaining 62
    then ret (remaining + 1)
    else if leb remaining 0x3fff
    then ret remaining
    else if leb remaining 0x4001
    then ret 0x3fff
    else if leb remaining 0x40000001
    then ret (remaining - 2)
    else panic

unfoldable pub estimate_max_capacity : ℕ → ℕ → Outcome (Option ℕ)
unfolding data_in
estimate_max_capacity capacity offset = do
  assert (leb offset varint_max)
  o ← encoding_size offset
  if leb (1 + o + 2) capacity
      then (data_in (capacity - (1 + o + 2)) >>= λ most. ret (some most))
      else ret none

unfoldable pub range : CryptoFrame → Outcome (ℕ × ℕ)
range f = do end ← add_u64 f.offset f.length; ret (f.offset, end)
