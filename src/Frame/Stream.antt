-- ===== src/Frame/Stream.antt =====
-- qbase/src/frame/stream.rs: the STREAM frame, its size and how it is fitted into a packet. The
-- identifier, the offset and the length are numbers.
pub mod Fit
mod Runs
use dquic.Base.{
  ℕ, ◌+◌, ◌-◌, ◌^◌, Bool, true, false, not, ltb, leb, ◌==◌, if◌then◌else◌, Option, none, some,
  Outcome, ret, panic, ◌>>=◌, ◌>>◌, assert, add_u64,
}
use dquic.Varint.{varint_max, encoding_size}
use dquic.Frame.Kind.{
  Offset, zero_offset, non_zero, Len, explicit, omit, Fin, fin_yes, fin_no, FrameType, stream,
}

pub record StreamFrame : Type 0 where
  pub id : ℕ
  pub offset : ℕ
  pub length : ℕ
  pub len_bit : Len
  pub fin_bit : Fin

abbrev pub stream_frame_max_encoding_size : ℕ
stream_frame_max_encoding_size = 1 + 8 + 8 + 8

unfoldable pub frame_type : StreamFrame → FrameType
frame_type f = stream (if f.offset == 0 then zero_offset else non_zero) f.len_bit f.fin_bit

unfoldable pub offset_size : ℕ → Outcome ℕ
offset_size offset = if not (offset == 0) then encoding_size offset else ret 0

unfoldable pub length_size : Len → ℕ → Outcome ℕ
length_size explicit length = encoding_size length
length_size omit length = ret 0

-- `encoding_size` of the frame; a length of 2^62 or more panics in either way.
unfoldable pub header_size : StreamFrame → Outcome ℕ
unfolding offset_size length_size
header_size f = do
  id ← encoding_size f.id
  offset ← offset_size f.offset
  length ← length_size f.len_bit f.length
  ret (1 + id + offset + length)

unfoldable pub new : ℕ → ℕ → ℕ → Outcome StreamFrame
new id offset length = do
  assert (leb offset varint_max)
  ret (record { id = id; offset = offset; length = length; len_bit = omit; fin_bit = fin_no })

-- The half-open range of offsets that the data covers.
unfoldable pub range : StreamFrame → Outcome (ℕ × ℕ)
range f = do end ← add_u64 f.offset f.length; ret (f.offset, end)

unfoldable pub set_eos_flag : StreamFrame → Bool → StreamFrame
set_eos_flag f is_eos = record f { fin_bit = if is_eos then fin_yes else fin_no }

unfoldable pub set_len_bit : StreamFrame → Len → StreamFrame
set_len_bit f len_bit = record f { len_bit = len_bit }

pub record EncodingStrategy : Type 0 where
  pub carried : Len
  pub pre_padding : ℕ

-- The strategy for the space that remains beside the frame without its length.
unfoldable pub strategy_for : ℕ → ℕ → EncodingStrategy
strategy_for remaining len_encoding_size =
    if leb len_encoding_size remaining
    then if ltb (remaining - len_encoding_size) stream_frame_max_encoding_size
      then record { carried = explicit; pre_padding = remaining - len_encoding_size }
      else record { carried = explicit; pre_padding = 0 }
    else record { carried = omit; pre_padding = remaining }

unfoldable pub is_omit : Len → Bool
is_omit omit = true
is_omit explicit = false

unfoldable pub encoding_strategy : StreamFrame → ℕ → Outcome EncodingStrategy
unfolding header_size strategy_for is_omit
encoding_strategy f capacity = do
  assert (is_omit f.len_bit)
  header ← header_size f
  without_length ← add_u64 header f.length
  assert (leb without_length capacity)
  len_encoding_size ← encoding_size f.length
  ret (strategy_for (capacity - without_length) len_encoding_size)

unfoldable pub estimate_max_capacity : ℕ → ℕ → ℕ → Outcome (Option ℕ)
unfolding offset_size
estimate_max_capacity capacity sid offset = do
  assert (leb offset varint_max)
  id ← encoding_size sid
  more ← offset_size offset
  ret (if leb capacity (1 + id + more) then none else some (capacity - (1 + id + more)))
