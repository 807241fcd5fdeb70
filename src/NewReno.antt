-- ===== src/NewReno.antt =====
-- qcongestion/src/algorithm/new_reno.rs: the New Reno congestion controller. Instants are numbers;
-- `mtu` is what `max_datagram_size` holds when a call loads it. Logged metrics are left out.
pub mod Lost
pub mod Window
mod Runs
use dquic.Ack.{EcnCounts}
use dquic.Base.{
  ℕ, ◌+◌, ◌-◌, ◌*◌, ◌/◌, ◌^◌, min, max, Bool, true, false, not, ◌&&◌, ltb, leb, if◌then◌else◌,
  Option, none, some, List, [], ◌∷◌, Outcome, ret, panic, ◌>>=◌, add_u64, sub_u64, mul_u64,
}

-- The packets of qcongestion/src/packets.rs, as far as they are looked at.
pub data State : Type 0 where
  inflight acked retransmitted : State

-- The three packet number spaces.
pub data Epoch : Type 0 where
  initial handshake data_ : Epoch

pub record SentPacket : Type 0 where
  pub time_sent : ℕ
  pub sent_bytes : ℕ
  pub count_for_cc : Bool
  pub state : State

pub record NewReno : Type 0 where
  pub bytes_in_flight : ℕ
  pub congestion_window : ℕ
  pub recovery_start_time : Option ℕ
  pub ssthresh : ℕ
  pub ecn_ce_counters : Epoch → ℕ

unfoldable pub mul_u16 : ℕ → ℕ → Outcome ℕ
mul_u16 a b = if ltb (a * b) (2 ^ 16) then ret (a * b) else panic

unfoldable pub new : ℕ → Outcome NewReno
unfolding mul_u16
new mtu = do
  ten ← mul_u16 mtu 10
  two ← mul_u16 mtu 2
  ret (record {
    bytes_in_flight = 0;
    congestion_window = min ten (max two 14600);
    recovery_start_time = none;
    ssthresh = 2 ^ 64 - 1;
    ecn_ce_counters = λ epoch. 0;
  })

unfoldable pub on_packet_sent_cc : NewReno → ℕ → Outcome NewReno
on_packet_sent_cc s sent_bytes = do
  flight ← add_u64 s.bytes_in_flight sent_bytes
  ret (record s { bytes_in_flight = flight })

unfoldable pub in_recovery : Option ℕ → ℕ → Bool
in_recovery none sent_time = false
in_recovery (some start) sent_time = leb sent_time start

-- The window after the acknowledgement of a packet sent outside recovery.
unfoldable pub grow : ℕ → NewReno → ℕ → Outcome NewReno
grow mtu s sent_bytes =
    if ltb s.congestion_window s.ssthresh
    then (add_u64 s.congestion_window sent_bytes >>= λ window.
        ret (record s { congestion_window = window }))
    else (mul_u64 mtu sent_bytes >>= λ product.
        if leb s.congestion_window 0
        then panic
        else (add_u64 s.congestion_window (product / s.congestion_window) >>= λ window.
            ret (record s { congestion_window = window })))

unfoldable pub landed : NewReno → State → ℕ → NewReno
landed s inflight sent_bytes = record s { bytes_in_flight = s.bytes_in_flight - sent_bytes }
landed s acked sent_bytes = s
landed s retransmitted sent_bytes = s

unfoldable pub on_packet_acked : ℕ → NewReno → SentPacket → Outcome NewReno
unfolding grow landed in_recovery
on_packet_acked mtu s packet =
    if not packet.count_for_cc
    then ret s
    else if in_recovery s.recovery_start_time packet.time_sent
    then ret (landed s packet.state packet.sent_bytes)
    else grow mtu (landed s packet.state packet.sent_bytes) packet.sent_bytes

-- `now` is what the clock shows.
unfoldable pub on_congestion_event : ℕ → NewReno → ℕ → ℕ → Outcome NewReno
unfolding in_recovery
on_congestion_event mtu s now sent_time =
    if in_recovery s.recovery_start_time sent_time
    then ret s
    else (sub_u64 s.congestion_window mtu >>= λ thresh. ret (record s {
      recovery_start_time = some now;
      ssthresh = thresh;
      congestion_window = max thresh (2 * mtu);
    }))

unfoldable pub later : Option ℕ → ℕ → Option ℕ
later none t = some t
later (some u) t = some (max u t)

-- The loop of `on_packets_lost`.
unfoldable pub lose : NewReno → Option ℕ → List SentPacket → NewReno × Option ℕ
unfolding later
lose s last [] = (s, last)
lose s last (p ∷ ps) =
    if p.count_for_cc
    then lose (record s { bytes_in_flight = s.bytes_in_flight - p.sent_bytes })
        (later last p.time_sent) ps
    else lose s last ps

unfoldable pub reset_if : Bool → ℕ → NewReno → NewReno
reset_if true mtu s = record s {
  ssthresh = s.congestion_window / 2;
  congestion_window = max (s.congestion_window / 2) (2 * mtu);
  recovery_start_time = none;
}
reset_if false mtu s = s

unfoldable pub react : ℕ → NewReno → ℕ → Option ℕ → Outcome NewReno
unfolding on_congestion_event
react mtu s now none = ret s
react mtu s now (some time) = on_congestion_event mtu s now time

unfoldable pub on_packets_lost : ℕ → NewReno → ℕ → List SentPacket → Bool → Outcome NewReno
unfolding lose react reset_if
on_packets_lost mtu s now lost persistent_lost = do
  let r = lose s none lost
  t ← react mtu r.0 now r.1
  ret (reset_if persistent_lost mtu t)

unfoldable pub remove_one : NewReno → SentPacket → Outcome NewReno
remove_one s p =
    if p.count_for_cc
    then (sub_u64 s.bytes_in_flight p.sent_bytes >>= λ flight.
        ret (record s { bytes_in_flight = flight }))
    else ret s

unfoldable pub remove_from_bytes_in_flight : NewReno → List SentPacket → Outcome NewReno
unfolding remove_one
remove_from_bytes_in_flight s [] = ret s
remove_from_bytes_in_flight s (p ∷ ps) = do
  t ← elim p.state [ retransmitted ↦ ret s | inflight ↦ remove_one s p | acked ↦ remove_one s p ]
  remove_from_bytes_in_flight t ps

pub same_epoch : Epoch → Epoch → Bool
same_epoch initial initial = true
same_epoch handshake handshake = true
same_epoch data_ data_ = true
same_epoch _ _ = false

-- The counts are those of an ACK frame.
unfoldable pub process_ecn : ℕ → NewReno → ℕ → Option EcnCounts → ℕ → Epoch → Outcome NewReno
unfolding on_congestion_event same_epoch
process_ecn mtu s now none sent_time epoch = ret s
process_ecn mtu s now (some counts) sent_time epoch =
    if ltb (s.ecn_ce_counters epoch) counts.ce
    then on_congestion_event mtu
        (record s {
          ecn_ce_counters = λ e. if same_epoch e epoch then counts.ce else s.ecn_ce_counters e;
        })
        now sent_time
    else ret s
