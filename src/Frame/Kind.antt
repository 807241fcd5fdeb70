-- ===== src/Frame/Kind.antt =====
-- qbase/src/frame.rs: the frame types, their codes, the packets that may carry them and the rules
-- that apply to them, with the flags of frame/ack.rs, frame/stream.rs, frame/connection_close.rs
-- and net.rs, and the packet types of packet/type.rs.
pub mod Codes
pub mod Rules
mod Runs
use dquic.Base.{
  ℕ, ◌%◌, ◌^◌, Bool, true, false, not, ◌&&◌, ◌||◌, leb, ◌==◌, if◌then◌else◌, bit_and, bit_or,
  Result, ok, err,
}
use dquic.Role.{Dir, bi, uni}

pub data Ecn : Type 0 where
  absent exist : Ecn

pub data Layer : Type 0 where
  quic app : Layer

pub data Family : Type 0 where
  v4 v6 : Family

pub data Offset : Type 0 where
  zero_offset non_zero : Offset

pub data Len : Type 0 where
  explicit omit : Len

pub data Fin : Type 0 where
  fin_yes fin_no : Fin

pub offset_bit : Offset → ℕ
offset_bit zero_offset = 0
offset_bit non_zero = 0x04

pub offset_of : ℕ → Offset
offset_of value = if bit_and value 0x04 == 0 then zero_offset else non_zero

pub len_bit : Len → ℕ
len_bit explicit = 0x02
len_bit omit = 0

pub len_of : ℕ → Len
len_of value = if bit_and value 0x02 == 0 then omit else explicit

pub fin_bit : Fin → ℕ
fin_bit fin_yes = 0x01
fin_bit fin_no = 0

pub fin_of : ℕ → Fin
fin_of value = if bit_and value 0x01 == 0 then fin_no else fin_yes

-- `family as u32`.
abbrev pub family_bit : Family → ℕ
family_bit v4 = 0
family_bit v6 = 1

pub data FrameType : Type 0 where
  padding ping : FrameType
  ack : Ecn → FrameType
  reset_stream stop_sending crypto new_token : FrameType
  stream : Offset → Len → Fin → FrameType
  max_data max_stream_data : FrameType
  max_streams : Dir → FrameType
  data_blocked stream_data_blocked : FrameType
  streams_blocked : Dir → FrameType
  new_connection_id retire_connection_id path_challenge path_response : FrameType
  connection_close : Layer → FrameType
  handshake_done : FrameType
  datagram : ℕ → FrameType
  add_address : Family → FrameType
  remove_address : FrameType
  punch_me_now : Family → FrameType
  punch_hello punch_done : FrameType

-- The error keeps the code; it may be that of an extension.
pub data InvalidType : Type 0 where
  invalid_type : ℕ → InvalidType

-- `TryFrom<VarInt>`.
pub try_from_ext : ℕ → Result FrameType InvalidType
try_from_ext v =
    if v == 0x3d7e90
    then ok (add_address v4)
    else if v == 0x3d7e91
    then ok (add_address v6)
    else if v == 0x3d7e92
    then ok (punch_me_now v4)
    else if v == 0x3d7e93
    then ok (punch_me_now v6)
    else if v == 0x3d7e94
    then ok remove_address
    else if v == 0x3d7e95
    then ok punch_hello
    else if v == 0x3d7e96
    then ok punch_done
    else err (invalid_type v)

pub try_from_high : ℕ → Result FrameType InvalidType
unfolding try_from_ext
try_from_high v =
    if v == 0x18
    then ok new_connection_id
    else if v == 0x19
    then ok retire_connection_id
    else if v == 0x1a
    then ok path_challenge
    else if v == 0x1b
    then ok path_response
    else if v == 0x1c
    then ok (connection_close quic)
    else if v == 0x1d
    then ok (connection_close app)
    else if v == 0x1e
    then ok handshake_done
    else if v == 0x30 || v == 0x31
    then ok (datagram (bit_and (v % 2 ^ 8) 1))
    else try_from_ext v

pub try_from_middle : ℕ → Result FrameType InvalidType
unfolding try_from_high offset_of len_of fin_of
try_from_middle v =
    if leb 0x08 v && leb v 0x0f
    then ok (stream (offset_of v) (len_of v) (fin_of v))
    else if v == 0x10
    then ok max_data
    else if v == 0x11
    then ok max_stream_data
    else if v == 0x12
    then ok (max_streams bi)
    else if v == 0x13
    then ok (max_streams uni)
    else if v == 0x14
    then ok data_blocked
    else if v == 0x15
    then ok stream_data_blocked
    else if v == 0x16
    then ok (streams_blocked bi)
    else if v == 0x17
    then ok (streams_blocked uni)
    else try_from_high v

pub try_from : ℕ → Result FrameType InvalidType
unfolding try_from_middle
try_from v =
    if v == 0x00
    then ok padding
    else if v == 0x01
    then ok ping
    else if v == 0x02
    then ok (ack absent)
    else if v == 0x03
    then ok (ack exist)
    else if v == 0x04
    then ok reset_stream
    else if v == 0x05
    then ok stop_sending
    else if v == 0x06
    then ok crypto
    else if v == 0x07
    then ok new_token
    else try_from_middle v

-- `From<FrameType> for VarInt`.
pub into_varint : FrameType → ℕ
unfolding offset_bit len_bit fin_bit
into_varint padding = 0x00
into_varint ping = 0x01
into_varint (ack absent) = 0x02
into_varint (ack exist) = 0x03
into_varint reset_stream = 0x04
into_varint stop_sending = 0x05
into_varint crypto = 0x06
into_varint new_token = 0x07
into_varint (stream offset len fin) =
    bit_or (bit_or (bit_or 0x08 (offset_bit offset)) (len_bit len)) (fin_bit fin)
into_varint max_data = 0x10
into_varint max_stream_data = 0x11
into_varint (max_streams bi) = 0x12
into_varint (max_streams uni) = 0x13
into_varint data_blocked = 0x14
into_varint stream_data_blocked = 0x15
into_varint (streams_blocked bi) = 0x16
into_varint (streams_blocked uni) = 0x17
into_varint new_connection_id = 0x18
into_varint retire_connection_id = 0x19
into_varint path_challenge = 0x1a
into_varint path_response = 0x1b
into_varint (connection_close quic) = 0x1c
into_varint (connection_close app) = 0x1d
into_varint handshake_done = 0x1e
into_varint (datagram with_len) = bit_or 0x30 with_len
into_varint (add_address family) = bit_or 0x3d7e90 (family_bit family)
into_varint (punch_me_now family) = bit_or 0x3d7e92 (family_bit family)
into_varint remove_address = 0x3d7e94
into_varint punch_hello = 0x3d7e95
into_varint punch_done = 0x3d7e96
