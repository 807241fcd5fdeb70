-- ===== src/Varint.antt =====
-- qbase/src/varint.rs: QUIC variable-length integers. A `VarInt` is the u64 that it wraps.
pub mod Codec
pub mod Input
mod Runs
use dquic.Base.{
  ℕ, suc, ◌+◌, ◌-◌, ◌*◌, ◌/◌, ◌%◌, ◌^◌, List, ltb, if◌then◌else◌, bit_or, Outcome, ret, panic,
  ◌>>=◌, ◌>>◌, assert, sub_u64, Result, ok, err, length,
}
use dquic.Base.Nom.{BufMut, BitTake, BitResult, bits, needed, IResult, parsed, incomplete}

abbrev pub varint_max : ℕ
varint_max = 0x3fff_ffff_ffff_ffff

-- The error carries the value that does not fit.
pub data Overflow : Type 0 where
  overflow : ℕ → Overflow

pub from_u64 : ℕ → Result ℕ Overflow
from_u64 x = if ltb x (2 ^ 62) then ok x else err (overflow x)

pub data EncodeBytes : Type 0 where
  one two four eight : EncodeBytes

unfoldable pub encoding_size : ℕ → Outcome ℕ
encoding_size x =
    if ltb x (2 ^ 6)
    then ret 1
    else if ltb x (2 ^ 14)
    then ret 2
    else if ltb x (2 ^ 30)
    then ret 4
    else if ltb x (2 ^ 62)
    then ret 8
    else panic

module _ (m : BufMut) where
  open m use {Buf, put_u8, put_u16, put_u32, put_u64}

  pub put_varint : Buf → ℕ → Outcome Buf
  put_varint b x =
      if ltb x (2 ^ 6)
      then ret (put_u8 b (x % 2 ^ 8))
      else if ltb x (2 ^ 14)
      then ret (put_u16 b (bit_or (1 * 2 ^ 14) (x % 2 ^ 16)))
      else if ltb x (2 ^ 30)
      then ret (put_u32 b (bit_or (2 * 2 ^ 30) (x % 2 ^ 32)))
      else if ltb x (2 ^ 62)
      then ret (put_u64 b (bit_or (3 * 2 ^ 62) x))
      else panic

  pub encode_varint : Buf → ℕ → EncodeBytes → Outcome Buf
  encode_varint b x one = do assert (ltb x (2 ^ 6)); ret (put_u8 b (x % 2 ^ 8))
  encode_varint b x two = do
    assert (ltb x (2 ^ 14))
    ret (put_u16 b (bit_or (1 * 2 ^ 14) (x % 2 ^ 16)))
  encode_varint b x four = do
    assert (ltb x (2 ^ 30))
    ret (put_u32 b (bit_or (2 * 2 ^ 30) (x % 2 ^ 32)))
  encode_varint b x eight = do assert (ltb x (2 ^ 62)); ret (put_u64 b (bit_or (3 * 2 ^ 62) x))

-- `usize::div_ceil` by 8.
pub div_ceil8 : ℕ → ℕ
div_ceil8 n = (n + 7) / 8

-- What is still missing, in bytes; the subtraction is on usize.
pub missing : ℕ → List ℕ → Outcome (IResult ℕ)
unfolding div_ceil8
missing n input = do k ← sub_u64 (div_ceil8 n) (length input); ret (incomplete k)

-- The value behind the two bits of the length prefix.
pub take_value : List ℕ → BitResult → Outcome (IResult ℕ)
unfolding missing
take_value input (bits rest offset value) = ret (parsed rest value)
take_value input (needed n) = missing n input

module _ (t : BitTake) where
  open t use {take_bits}

  pub take_prefixed : List ℕ → BitResult → Outcome (IResult ℕ)
  unfolding take_value missing
  take_prefixed input (bits rest offset prefix) =
      take_value input (take_bits (8 * 2 ^ prefix - 2) rest offset)
  take_prefixed input (needed n) = missing n input

  pub be_varint : List ℕ → Outcome (IResult ℕ)
  unfolding take_prefixed
  be_varint input = take_prefixed input (take_bits 2 input 0)
