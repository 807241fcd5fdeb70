-- ===== src/Received/Acks.antt =====
-- qrecovery/src/journal/rcvd.rs: the ACK frame for the packets received.
pub mod Below
pub mod Round
pub mod Loop
pub mod Frame
pub mod Exact
mod Runs
use dquic.Base.{
  ℕ, zero, suc, ◌+◌, ◌-◌, ◌^◌, min, ◌||◌, ltb, leb, ◌==◌, if◌then◌else◌, Option, none, some, List,
  [], ◌∷◌, get_elem?, take, reverse, Outcome, ret, ◌>>=◌, sub_u64, Result, ok, err,
}
use dquic.Varint.{varint_max, encoding_size}
use dquic.Ack.{AckFrame}
use dquic.Received.{Range, ReceivedPacketRanges, RcvdJournal, partition_point, holds}

-- `Poll::Pending` and `Poll::Ready(())`.
pub data NoFrame : Type 0 where
  pending : NoFrame
  no_room : NoFrame

-- The start of the first range, and the ranges below it.
unfoldable pub base : List Range → ℕ → ℕ → Option (ℕ × List Range)
unfolding partition_point holds
base ranges retired largest =
    let index = partition_point (λ r. leb r.end largest) ranges in
    let historical = if ltb largest retired then some (largest, []) else none in
    elim (get_elem? ranges index) [
      | none ↦ historical
      | some r ↦ if holds (some r) largest then some (r.start, take index ranges) else historical
    ]

unfoldable pub range_count_size_increment : ℕ → ℕ
range_count_size_increment len =
    if len == 2 ^ 6 - 1
    then 1
    else if len == 2 ^ 14 - 1
    then 2
    else if len == 2 ^ 30 - 1
    then 4
    else 0

abbrev pub Ranges : Type 0
Ranges = Outcome (Result (List (ℕ × ℕ)) NoFrame)

unfoldable pub push : ℕ × ℕ → Result (List (ℕ × ℕ)) NoFrame → Result (List (ℕ × ℕ)) NoFrame
push p (ok ps) = ok (p ∷ ps)
push p (err e) = err e

-- A round of the loop, once the gap is known; `more` is the rest of the loop, by the capacity left.
unfoldable pub push_if_room : ℕ → ℕ → ℕ → ℕ → (ℕ → Ranges) → Ranges
unfolding range_count_size_increment push
push_if_room capacity count gap ack more = do
  g ← encoding_size gap
  a ← encoding_size ack
  if ltb capacity (range_count_size_increment count + g + a)
      then ret (ok [])
      else (more (capacity - (range_count_size_increment count + g + a)) >>= λ r.
          ret (push (gap, ack) r))

unfoldable pub with_gap : ℕ → ℕ → ℕ → Range → (ℕ → Ranges) → Ranges
unfolding push_if_room
with_gap capacity count gap previous more = do
  width ← sub_u64 previous.end previous.start
  ack ← sub_u64 width 1
  if leb (2 ^ 62) ack then ret (err pending) else push_if_room capacity count gap ack more

-- The loop, over the previous ranges from the last one down; `count` ranges have been pushed.
unfoldable pub more_ranges : ℕ → ℕ → ℕ → List Range → Ranges
unfolding with_gap
more_ranges capacity count current_start [] = ret (ok [])
more_ranges capacity count current_start (previous ∷ rest) =
    if ltb current_start (previous.end + 1) || leb (2 ^ 62) (current_start - (previous.end + 1))
    then ret (err pending)
    else with_gap capacity count (current_start - (previous.end + 1)) previous
        (λ left. more_ranges left (count + 1) previous.start rest)

unfoldable pub frame_with : ℕ → ℕ → ℕ → Result (List (ℕ × ℕ)) NoFrame → Result AckFrame NoFrame
frame_with largest delay first_range (ok ranges) = ok (record {
  largest = largest;
  delay = delay;
  first_range = first_range;
  ranges = ranges;
  ecn = none;
})
frame_with largest delay first_range (err e) = err e

-- The part after the three integers; `min_len` is the least size of the frame.
unfoldable pub fill : ℕ → ℕ → ℕ → ℕ → List Range → ℕ → ℕ → Outcome (Result AckFrame NoFrame)
unfolding more_ranges frame_with
fill largest delay first_range range_start previous capacity min_len =
    if ltb capacity min_len
    then ret (err no_room)
    else (more_ranges (capacity - min_len) 0 range_start (reverse previous) >>= λ r.
        ret (frame_with largest delay first_range r))

unfoldable pub build : ℕ → ℕ → List Range → ℕ → ℕ → Outcome (Result AckFrame NoFrame)
unfolding fill
build largest range_start previous delay capacity = do
  first_range ← sub_u64 largest range_start
  l ← encoding_size largest
  d ← encoding_size delay
  f ← encoding_size first_range
  fill largest delay first_range range_start previous capacity (1 + l + d + 1 + f)

-- `elapsed` is `rcvd_time.elapsed()` in microseconds.
unfoldable pub gen_ack_frame_util {ℓ} :
    {T : Type ℓ} → RcvdJournal T → ℕ → ℕ → ℕ → Outcome (Result AckFrame NoFrame)
unfolding base build
gen_ack_frame_util j largest elapsed capacity =
    elim (base j.packets.ranges j.packets.retired_before largest) [
      | none ↦ ret (err pending)
      | some (range_start, previous) ↦
          if leb (2 ^ 62) largest
          then ret (err pending)
          else build largest range_start previous (min elapsed varint_max) capacity
    ]
