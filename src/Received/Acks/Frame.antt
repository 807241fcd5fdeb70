-- ===== src/Received/Acks/Frame.antt =====
-- A frame of ranges, its size and what it acknowledges.
use dquic.Base.{
  ℕ, ◌+◌, ◌-◌, ◌^◌, ◌≤◌, ◌<◌, ◌≡◌, refl, arith, none, List, ◌∷◌, length, ret, sub_u64-ret,
}
use dquic.Varint.Codec.{encoding_size-shortest}
use dquic.Ack.{AckFrame, frame_size, ecn_size, iter_ranges, ranges_size, scan}
use dquic.Received.Acks.Round.{size_of}

abbrev pub frame_of : ℕ → ℕ → ℕ → List (ℕ × ℕ) → AckFrame
frame_of largest start delay gaps = record {
  largest = largest;
  delay = delay;
  first_range = largest - start;
  ranges = gaps;
  ecn = none;
}

-- The size of a frame of its first range only.
abbrev pub least_size : ℕ → ℕ → ℕ → ℕ
least_size largest start delay = 1 + size_of largest + size_of delay + 1 + size_of (largest - start)

abbrev pub size_with : ℕ → ℕ → ℕ → ℕ → ℕ → ℕ
size_with largest start delay count size =
    1 + size_of largest + size_of delay + size_of count + size_of (largest - start) + size + 0

pub frame_size-frame_of :
    (largest start delay size : ℕ) (gaps : List (ℕ × ℕ))
    → largest < 2 ^ 62
    → delay < 2 ^ 62
    → length gaps < 2 ^ 62
    → ranges_size gaps ≡ ret size
    → frame_size (frame_of largest start delay gaps)
      ≡ ret (size_with largest start delay (length gaps) size)
unfolding frame_size ecn_size
frame_size-frame_of largest start delay size gaps b d c e =
    rw
      (
        encoding_size-shortest (length gaps) c,
        encoding_size-shortest largest b,
        encoding_size-shortest delay d,
        encoding_size-shortest (largest - start) (omega arith),
        e,
      )
      refl

pub iter_ranges-frame_of :
    (largest start delay : ℕ) (gaps ranges : List (ℕ × ℕ))
    → start ≤ largest
    → scan start gaps ≡ ret ranges
    → iter_ranges (frame_of largest start delay gaps) ≡ ret ((start, largest) ∷ ranges)
unfolding iter_ranges
iter_ranges-frame_of largest start delay gaps ranges a e =
    rw (sub_u64-ret largest (largest - start) (omega arith), first, e) refl
  where
    first : largest - (largest - start) ≡ start
    first = omega arith

none_before : (n : ℕ) → 0 + n ≡ n
none_before n = omega arith

-- What fits next to the count of no range fits the capacity.
pub fits_capacity :
    (largest start delay capacity count size : ℕ)
    → least_size largest start delay ≤ capacity
    → size_of (0 + count) + size ≤ 1 + (capacity - least_size largest start delay)
    → size_with largest start delay count size ≤ capacity
fits_capacity largest start delay capacity count size room h =
    sum (size_of largest) (size_of delay) (size_of (largest - start)) (size_of count) room
      (rw none_before at h)
  where
    sum :
        (x y z w : ℕ)
        → 1 + x + y + 1 + z ≤ capacity
        → w + size ≤ 1 + (capacity - (1 + x + y + 1 + z))
        → 1 + x + y + w + z + size + 0 ≤ capacity
    sum x y z w room h = omega (arith, h, room)

pub over_capacity :
    (largest start delay capacity count size : ℕ)
    → least_size largest start delay ≤ capacity
    → 1 + (capacity - least_size largest start delay) < size_of (0 + count) + size
    → capacity < size_with largest start delay count size
over_capacity largest start delay capacity count size room h =
    sum (size_of largest) (size_of delay) (size_of (largest - start)) (size_of count) room
      (rw none_before at h)
  where
    sum :
        (x y z w : ℕ)
        → 1 + x + y + 1 + z ≤ capacity
        → 1 + (capacity - (1 + x + y + 1 + z)) < w + size
        → capacity < 1 + x + y + w + z + size + 0
    sum x y z w room h = omega (arith, h, room)
