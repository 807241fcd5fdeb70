-- ===== src/Frame/Kind/Codes.antt =====
-- The codes of the frame types are those of the wire, one for each type.
use dquic.Base.{
  ℕ, ◌+◌, ◌<◌, ◌≤◌, ◌≡◌, ◌↔◌, ◌-◌, refl, arith, ok, suc, zero, subst, leb, ◌&&◌, true, false,
  Bool-cases, inl, inr,
}
use dquic.Role.{bi, uni}
use dquic.Frame.Kind.{
  FrameType, padding, ack, stream, max_streams, streams_blocked, connection_close, datagram,
  add_address, punch_me_now, absent, exist, quic, app, v4, v6, zero_offset, non_zero, explicit,
  omit, fin_yes, fin_no, try_from, try_from_middle, try_from_high, try_from_ext, into_varint,
  offset_of, len_of, fin_of,
}

-- A DATAGRAM type holds one flag bit; every other type is as it can be built.
abbrev pub IsCoded : FrameType → Type 0
IsCoded (datagram with_len) = with_len < 2
IsCoded _ = Unit {0}

pub try_from-into_varint : (t : FrameType) → IsCoded t → try_from (into_varint t) ≡ ok t
unfolding try_from into_varint
try_from-into_varint padding h = refl
try_from-into_varint (ack absent) h = refl
try_from-into_varint (ack exist) h = refl
try_from-into_varint (stream zero_offset explicit fin_yes) h = refl
try_from-into_varint (stream zero_offset explicit fin_no) h = refl
try_from-into_varint (stream zero_offset omit fin_yes) h = refl
try_from-into_varint (stream zero_offset omit fin_no) h = refl
try_from-into_varint (stream non_zero explicit fin_yes) h = refl
try_from-into_varint (stream non_zero explicit fin_no) h = refl
try_from-into_varint (stream non_zero omit fin_yes) h = refl
try_from-into_varint (stream non_zero omit fin_no) h = refl
try_from-into_varint (max_streams bi) h = refl
try_from-into_varint (max_streams uni) h = refl
try_from-into_varint (streams_blocked bi) h = refl
try_from-into_varint (streams_blocked uni) h = refl
try_from-into_varint (connection_close quic) h = refl
try_from-into_varint (connection_close app) h = refl
try_from-into_varint (datagram zero) h = refl
try_from-into_varint (datagram (suc zero)) h = refl
try_from-into_varint (datagram (suc (suc n))) h = absurd (omega arith)
try_from-into_varint (add_address v4) h = refl
try_from-into_varint (add_address v6) h = refl
try_from-into_varint (punch_me_now v4) h = refl
try_from-into_varint (punch_me_now v6) h = refl
try_from-into_varint _ h = refl

into_varint-try_from_ext :
    (v : ℕ) (t : FrameType) → try_from_ext v ≡ ok t → (into_varint t ≡ v) × IsCoded t
unfolding try_from_ext into_varint
into_varint-try_from_ext v t e = ground arith

into_varint-try_from_high :
    (v : ℕ) (t : FrameType) → try_from_high v ≡ ok t → (into_varint t ≡ v) × IsCoded t
unfolding try_from_high into_varint
into_varint-try_from_high v t e = ground (arith, into_varint-try_from_ext v t)

-- The eight STREAM types, by their last three bits.
stream_code :
    (k : ℕ)
    → k < 8
    → into_varint (stream (offset_of (8 + k)) (len_of (8 + k)) (fin_of (8 + k))) ≡ 8 + k
unfolding into_varint offset_of len_of fin_of
stream_code zero h = refl
stream_code (suc zero) h = refl
stream_code (suc (suc zero)) h = refl
stream_code (suc (suc (suc zero))) h = refl
stream_code (suc (suc (suc (suc zero)))) h = refl
stream_code (suc (suc (suc (suc (suc zero))))) h = refl
stream_code (suc (suc (suc (suc (suc (suc zero)))))) h = refl
stream_code (suc (suc (suc (suc (suc (suc (suc zero))))))) h = refl
stream_code (suc (suc (suc (suc (suc (suc (suc (suc k)))))))) h = absurd (omega arith)

stream_code_at :
    (v : ℕ) → 8 ≤ v → v ≤ 15 → into_varint (stream (offset_of v) (len_of v) (fin_of v)) ≡ v
stream_code_at v lo hi =
    subst (λ (w : ℕ). into_varint (stream (offset_of w) (len_of w) (fin_of w)) ≡ w) back
      (stream_code (v - 8) (omega arith))
  where
    back : 8 + (v - 8) ≡ v
    back = omega arith

into_varint-try_from_stream :
    (v : ℕ) (t : FrameType)
    → (leb 8 v && leb v 15) ≡ true
    → try_from_middle v ≡ ok t
    → (into_varint t ≡ v) × IsCoded t
unfolding try_from_middle
into_varint-try_from_stream v t h e = ground (arith, stream_code_at v)

into_varint-try_from_rest :
    (v : ℕ) (t : FrameType)
    → (leb 8 v && leb v 15) ≡ false
    → try_from_middle v ≡ ok t
    → (into_varint t ≡ v) × IsCoded t
unfolding try_from_middle into_varint
into_varint-try_from_rest v t h e = ground (arith, into_varint-try_from_high v t)

into_varint-try_from_middle :
    (v : ℕ) (t : FrameType) → try_from_middle v ≡ ok t → (into_varint t ≡ v) × IsCoded t
into_varint-try_from_middle v t e = elim (Bool-cases (leb 8 v && leb v 15)) [
  | inl h ↦ into_varint-try_from_stream v t h e
  | inr h ↦ into_varint-try_from_rest v t h e
]

into_varint-try_from : (v : ℕ) (t : FrameType) → try_from v ≡ ok t → (into_varint t ≡ v) × IsCoded t
unfolding try_from into_varint
into_varint-try_from v t e = ground (arith, into_varint-try_from_middle v t)

-- `TryFrom<VarInt>` yields a frame type for exactly the codes that `From<FrameType>` writes: a code
-- is read as a type if and only if it is the code of that type, for every type whose DATAGRAM flag,
-- if it has one, is a single bit.
pub try_from-into_varint_iff :
    (v : ℕ) (t : FrameType) → (try_from v ≡ ok t) ↔ ((into_varint t ≡ v) × IsCoded t)
try_from-into_varint_iff v t = (
  into_varint-try_from v t,
  λ h. subst (λ (w : ℕ). try_from w ≡ ok t) h.0 (try_from-into_varint t h.1),
)
