-- ===== src/Packet/Number.antt =====
-- qbase/src/packet/number.rs: truncated packet numbers, on the wire and back.
pub mod Window
pub mod RoundTrip
mod Runs
use dquic.Base.{
  ℕ, ◌+◌, ◌-◌, ◌*◌, ◌/◌, ◌%◌, ◌^◌, max, Bool, ◌&&◌, List, ltb, leb, ◌==◌, if◌then◌else◌, bit_and,
  bit_or, Outcome, ret, panic, ◌>>=◌, ◌>>◌, add_u64, sub_u64, mul_u64,
}
use dquic.Base.Nom.{BufMut, BeUint, IResult, parsed, incomplete, error}

-- `U24` and `U32` hold a u32.
pub data PacketNumber : Type 0 where
  u8 u16 u24 u32 : ℕ → PacketNumber

pub encode : ℕ → ℕ → Outcome PacketNumber
unfolding sub_u64 mul_u64
encode pn largest_acked = do
  unacked ← sub_u64 pn largest_acked
  doubled ← mul_u64 unacked 2
  let range = max doubled (2 ^ 16 - 1)
  if ltb range (2 ^ 8)
      then ret (u8 (pn % 2 ^ 8))
      else if ltb range (2 ^ 16)
      then ret (u16 (pn % 2 ^ 16))
      else if ltb range (2 ^ 24)
      then ret (u24 (pn % 2 ^ 32))
      else if ltb range (2 ^ 32)
      then ret (u32 (pn % 2 ^ 32))
      else panic

pub size : PacketNumber → ℕ
size (u8 x) = 1
size (u16 x) = 2
size (u24 x) = 3
size (u32 x) = 4

pub truncated : PacketNumber → ℕ
truncated (u8 x) = x
truncated (u16 x) = x
truncated (u24 x) = x
truncated (u32 x) = x

pub nbits : PacketNumber → ℕ
nbits (u8 x) = 8
nbits (u16 x) = 16
nbits (u24 x) = 24
nbits (u32 x) = 32

-- `(expected & !mask) | truncated`, for `mask = (1 << bits) - 1`.
pub candidate_of : ℕ → ℕ → ℕ → ℕ
candidate_of bits x expected = bit_or (bit_and expected (2 ^ 64 - 1 - (2 ^ bits - 1))) x

pub nearest : ℕ → ℕ → ℕ → Outcome ℕ
unfolding add_u64
nearest win candidate expected =
    let hwin = win / 2 in
    if leb hwin expected && leb candidate (expected - hwin) then add_u64 candidate win else do
      top ← add_u64 expected hwin
      if ltb top candidate && ltb win candidate then ret (candidate - win) else ret candidate

pub decode : PacketNumber → ℕ → Outcome ℕ
unfolding nbits truncated candidate_of nearest
decode p expected = nearest (2 ^ nbits p) (candidate_of (nbits p) (truncated p) expected) expected

-- `put_packet_number`.
module _ (m : BufMut) where
  open m use {Buf, put_u8, put_u16, put_u32}

  pub put_packet_number : Buf → PacketNumber → Buf
  put_packet_number b (u8 x) = put_u8 b x
  put_packet_number b (u16 x) = put_u16 b x
  put_packet_number b (u24 x) = put_u16 (put_u8 b (x / 2 ^ 16 % 2 ^ 8)) (x % 2 ^ 16)
  put_packet_number b (u32 x) = put_u32 b x

-- `nom::combinator::map`.
pub map_value : (ℕ → PacketNumber) → IResult ℕ → IResult PacketNumber
map_value f (parsed rest x) = parsed rest (f x)
map_value f (incomplete n) = incomplete n
map_value f (error k) = error k

-- The call reaches `unreachable!` on a length that is not 1 to 4.
module _ (n : BeUint) where
  open n use {be_uint}

  pub take_pn_len : ℕ → List ℕ → Outcome (IResult PacketNumber)
  unfolding map_value
  take_pn_len len input =
      if len == 1
      then ret (map_value u8 (be_uint 1 input))
      else if len == 2
      then ret (map_value u16 (be_uint 2 input))
      else if len == 3
      then ret (map_value u24 (be_uint 3 input))
      else if len == 4
      then ret (map_value u32 (be_uint 4 input))
      else panic
