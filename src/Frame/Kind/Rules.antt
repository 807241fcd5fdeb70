-- ===== src/Frame/Kind/Rules.antt =====
-- qbase/src/frame.rs: which packets may carry a frame (`belongs_to`), and the marks of RFC 9000,
-- table 3 (`specs`). The packet types are those of qbase/src/packet/type.rs and its children.
use dquic.Base.{ℕ, ◌≡◌, ◌↔◌, ◌⊎◌, arith, Bool, true, false, not, ◌&&◌, ◌||◌, ◌==◌, bit_and, bit_or}
use dquic.Frame.Kind.{
  FrameType, padding, ping, ack, reset_stream, stop_sending, crypto, new_token, stream, max_data,
  max_stream_data, max_streams, data_blocked, stream_data_blocked, streams_blocked,
  new_connection_id, retire_connection_id, path_challenge, path_response, connection_close,
  handshake_done, datagram, add_address, remove_address, punch_me_now, punch_hello, punch_done, Ecn,
  quic, app,
}

-- `long::v1::Type`.
pub data LongV1 : Type 0 where
  initial zero_rtt handshake retry : LongV1

-- The spin bit of a 1-RTT packet is a flag.
pub data PacketType : Type 0 where
  version_negotiation : PacketType
  v1 : LongV1 → PacketType
  one_rtt : Bool → PacketType

pub is_initial : PacketType → Bool
is_initial (v1 initial) = true
is_initial _ = false

pub is_handshake : PacketType → Bool
is_handshake (v1 handshake) = true
is_handshake _ = false

pub is_zero_rtt : PacketType → Bool
is_zero_rtt (v1 zero_rtt) = true
is_zero_rtt _ = false

pub is_one_rtt : PacketType → Bool
is_one_rtt (one_rtt spin) = true
is_one_rtt _ = false

-- The four flags of the table are those of the packet type: `i`, `h`, `o` and `l`.
pub allowed : FrameType → Bool → Bool → Bool → Bool → Bool
allowed padding i h o l = i || h || o || l
allowed ping i h o l = i || h || o || l
allowed (ack _) i h o l = i || h || l
allowed reset_stream i h o l = o || l
allowed stop_sending i h o l = o || l
allowed crypto i h o l = i || h || l
allowed new_token i h o l = l
allowed (stream _ _ _) i h o l = o || l
allowed max_data i h o l = o || l
allowed max_stream_data i h o l = o || l
allowed (max_streams _) i h o l = o || l
allowed data_blocked i h o l = o || l
allowed stream_data_blocked i h o l = o || l
allowed (streams_blocked _) i h o l = o || l
allowed new_connection_id i h o l = o || l
allowed retire_connection_id i h o l = o || l
allowed path_challenge i h o l = o || l
allowed path_response i h o l = l
allowed (connection_close app) i h o l = o || l
allowed (connection_close quic) i h o l = i || h || o || l
allowed handshake_done i h o l = l
allowed (datagram _) i h o l = o || l
allowed (add_address _) i h o l = o || l
allowed remove_address i h o l = o || l
allowed (punch_me_now _) i h o l = o || l
allowed punch_hello i h o l = o || l
allowed punch_done i h o l = o || l

pub belongs_to : FrameType → PacketType → Bool
unfolding allowed is_initial is_handshake is_zero_rtt is_one_rtt
belongs_to t p = allowed t (is_initial p) (is_handshake p) (is_zero_rtt p) (is_one_rtt p)

pub data Spec : Type 0 where
  non_ack_eliciting congestion_control_free probe_new_path flow_controlled : Spec

-- `spec as u8`.
abbrev pub spec_bit : Spec → ℕ
spec_bit non_ack_eliciting = 1
spec_bit congestion_control_free = 2
spec_bit probe_new_path = 4
spec_bit flow_controlled = 8

pub contain : ℕ → Spec → Bool
contain specs spec = not (bit_and specs (spec_bit spec) == 0)

pub specs : FrameType → ℕ
specs padding = bit_or (spec_bit non_ack_eliciting) (spec_bit probe_new_path)
specs (ack _) = bit_or (spec_bit non_ack_eliciting) (spec_bit congestion_control_free)
specs (stream _ _ _) = spec_bit flow_controlled
specs new_connection_id = spec_bit probe_new_path
specs path_challenge = spec_bit probe_new_path
specs path_response = spec_bit probe_new_path
specs (connection_close _) = bit_or (spec_bit non_ack_eliciting) (spec_bit congestion_control_free)
specs punch_hello = spec_bit non_ack_eliciting
specs punch_done = spec_bit non_ack_eliciting
specs _ = 0

-- In a packet of the Initial or Handshake space the only frames that may stand and that elicit an
-- acknowledgement are PING and CRYPTO.
pub belongs_to_handshake_eliciting :
    (t : FrameType) (p : PacketType)
    → (p ≡ v1 initial) ⊎ (p ≡ v1 handshake)
    → ((belongs_to t p && not (contain (specs t) non_ack_eliciting)) ≡ true)
      ↔ ((t ≡ ping) ⊎ (t ≡ crypto))
unfolding belongs_to contain specs
belongs_to_handshake_eliciting t p h = ground arith

-- The frames that a 1-RTT packet may carry and a 0-RTT packet may not.
abbrev pub NeedsOneRtt : FrameType → Type 0
NeedsOneRtt t =
    ((e : Ecn) × (t ≡ ack e))
    ⊎ (t ≡ crypto)
    ⊎ (t ≡ new_token)
    ⊎ (t ≡ path_response)
    ⊎ (t ≡ handshake_done)

-- Every frame may stand in a 1-RTT packet. In a 0-RTT packet every frame may but ACK, CRYPTO,
-- NEW_TOKEN, PATH_RESPONSE and HANDSHAKE_DONE. A Retry or Version Negotiation packet carries none.
belongs_to_data :
    (t : FrameType) (spin : Bool)
    → (belongs_to t (one_rtt spin) ≡ true)
      × ((belongs_to t (v1 zero_rtt) ≡ false) ↔ NeedsOneRtt t)
      × (belongs_to t (v1 retry) ≡ false)
      × (belongs_to t version_negotiation ≡ false)
unfolding belongs_to
belongs_to_data t spin = ground arith
