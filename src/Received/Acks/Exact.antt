-- ===== src/Received/Acks/Exact.antt =====
-- The ACK frame acknowledges exactly the ranges tracked, as far as they fit.
use dquic.Base.{
  suc, ℕ, ◌-◌, ◌^◌, ◌≤◌, ◌<◌, ◌≡◌, ◌⊎◌, inl, inr, min, refl, arith, true, leb, some, List, ◌∷◌, map,
  length, get_elem?, take, reverse, length-take, length-reverse, dec_lt, lt→leb, lt→ltb, le→ltb,
  ret, sub_u64-ret, ok, err,
}
use dquic.Varint.{varint_max}
use dquic.Varint.Codec.{encoding_size-shortest}
use dquic.Ack.{AckFrame, frame_size, iter_ranges}
use dquic.Received.{Range, RcvdJournal, partition_point, max_tracked_ack_ranges}
use dquic.Received.Ranges.{in_range, covered}
use dquic.Received.Insert.{IsValid}
use dquic.Received.Acks.{no_room, frame_with, fill, build, gen_ack_frame_util}
use dquic.Received.Acks.Round.{inclusive}
use dquic.Received.Acks.Frame.{
  frame_of, least_size, size_with, frame_size-frame_of, iter_ranges-frame_of, fits_capacity,
  over_capacity,
}
use dquic.Received.Acks.Below.{Below, found, base-found}
use dquic.Received.Acks.Loop.{Pushed, more_ranges-Pushed}

-- A frame that differs from `f` in its ranges only, acknowledges one range of `below` more than
-- `taken`, and does not fit the capacity.
pub record Longer (largest start capacity : ℕ) (below : List Range) (taken : ℕ) (f : AckFrame)
    : Type 0 where
  pub longer : AckFrame
  pub same_rest : longer ≡ record f { ranges = longer.ranges }
  pub one_more :
      iter_ranges longer ≡ ret ((start, largest) ∷ map inclusive (take (suc taken) below))
  pub size : ℕ
  pub measured : frame_size longer ≡ ret size
  pub too_long : capacity < size

-- The frame acknowledges, downwards, the part of the tracked range up to `largest`, and then the
-- ranges of `below` from the first one on, whole, and all of them or as many as the capacity has
-- room for; it carries the delay and fits the capacity.
pub record Acknowledges (largest start delay capacity : ℕ) (below : List Range) (f : AckFrame)
    : Type 0 where
  pub same_largest : f.largest ≡ largest
  pub same_delay : f.delay ≡ delay
  pub taken : ℕ
  pub ranges : iter_ranges f ≡ ret ((start, largest) ∷ map inclusive (take taken below))
  pub size : ℕ
  pub measured : frame_size f ≡ ret size
  pub fits : size ≤ capacity
  pub maximal : (taken ≡ length below) ⊎ Longer largest start capacity below taken f

frame_of-Acknowledges :
    (largest start delay capacity : ℕ) (below : List Range)
    → start ≤ largest
    → largest < 2 ^ 62
    → delay < 2 ^ 62
    → length below < 2 ^ 62
    → least_size largest start delay ≤ capacity
    → (p : Pushed (capacity - least_size largest start delay) 0 start below)
    → Acknowledges largest start delay capacity below (frame_of largest start delay p.gaps)
frame_of-Acknowledges largest start delay capacity below a b d l room p = record {
  same_largest = refl;
  same_delay = refl;
  taken = p.taken;
  ranges =
      iter_ranges-frame_of largest start delay p.gaps (map inclusive (take p.taken below)) a
        p.scanned;
  size = size_with largest start delay (length p.gaps) p.size;
  measured =
      frame_size-frame_of largest start delay p.size p.gaps b d (omega (arith, p.bounded))
        p.measured;
  fits = fits_capacity largest start delay capacity (length p.gaps) p.size room p.fits;
  maximal = elim p.maximal [
    | inl all ↦ inl all
    | inr more ↦ inr (record {
      longer = frame_of largest start delay more.gaps;
      same_rest = refl;
      one_more =
          iter_ranges-frame_of largest start delay more.gaps
            (map inclusive (take (suc p.taken) below)) a more.scanned;
      size = size_with largest start delay (length more.gaps) more.size;
      measured =
          frame_size-frame_of largest start delay more.size more.gaps b d
            (omega (arith, more.bounded)) more.measured;
      too_long =
          over_capacity largest start delay capacity (length more.gaps) more.size room more.over;
    })
  ];
}

build-Acknowledges :
    (largest start delay capacity : ℕ) (previous : List Range)
    → start ≤ largest
    → largest < 2 ^ 62
    → delay < 2 ^ 62
    → length (reverse previous) < 2 ^ 62
    → Below start (reverse previous)
    → ((capacity < least_size largest start delay)
        × (build largest start previous delay capacity ≡ ret (err no_room)))
      ⊎ ((f : AckFrame) × (build largest start previous delay capacity ≡ ret (ok f))
          × Acknowledges largest start delay capacity (reverse previous) f)
unfolding build fill frame_with
build-Acknowledges largest start delay capacity previous a b d l below =
    let least = least_size largest start delay in
    rw
      (
        sub_u64-ret largest start a,
        encoding_size-shortest largest b,
        encoding_size-shortest delay d,
        encoding_size-shortest (largest - start) (omega arith),
      )
      (elim (dec_lt capacity least) [
        | yes full ↦ inl (full, rw (lt→ltb capacity least full) refl)
        | no room ↦
            let p =
              more_ranges-Pushed (reverse previous) (capacity - least) 0 start below (omega arith)
                (omega arith) in
            inr (
              frame_of largest start delay p.gaps,
              rw (le→ltb capacity least (omega arith), p.returned) refl,
              frame_of-Acknowledges largest start delay capacity (reverse previous) a b d l
                  (omega arith) p,
            )
      ])

-- On a valid journal, for a tracked number below 2^62 whose range starts at `start` and whatever the
-- time elapsed: either the capacity is below the size of a frame of one range, and the frame is refused
-- for want of room, or the frame returned acknowledges exactly the tracked packets from `start` to
-- the number and, downwards, whole tracked ranges below, its encoding fits the capacity, and it
-- leaves out a range only if with one range more it would not fit. The delay is the time elapsed, at
-- most 2^62 - 1. Nothing panics.
pub gen_ack_frame_util-Acknowledges {ℓ} :
    {T : Type ℓ} (j : RcvdJournal T) (largest elapsed capacity : ℕ)
    → IsValid j.packets
    → covered j.packets.ranges largest ≡ true
    → largest < 2 ^ 62
    → let delay = min elapsed varint_max in
      let index = partition_point (λ r. leb r.end largest) j.packets.ranges in
      (r : Range) × (get_elem? j.packets.ranges index ≡ some r)
      × (in_range r largest ≡ true)
      × (((capacity < least_size largest r.start delay)
            × (gen_ack_frame_util j largest elapsed capacity ≡ ret (err no_room)))
          ⊎ ((f : AckFrame) × (gen_ack_frame_util j largest elapsed capacity ≡ ret (ok f))
              × Acknowledges largest r.start delay capacity
                  (reverse (take index j.packets.ranges))
                  f))
unfolding gen_ack_frame_util
gen_ack_frame_util-Acknowledges j largest elapsed capacity v h small =
    let index = partition_point (λ r. leb r.end largest) j.packets.ranges in
    let (r, e, from, to, below) =
      found j.packets.retired_before largest j.packets.ranges v.separated h in
    (
      r,
      e,
      ground (arith, from, to),
      rw
          (
            gen_ack_frame_util,
            base-found j.packets.ranges j.packets.retired_before largest r e from to,
            lt→leb (2 ^ 62) largest small,
          )
          (build-Acknowledges largest r.start (min elapsed varint_max) capacity
            (take index j.packets.ranges) from small (omega arith) (short (v.bounded)) below),
    )
  where
    short :
        length j.packets.ranges ≤ max_tracked_ack_ranges
        → length (
            reverse
              (take (partition_point (λ r. leb r.end largest) j.packets.ranges) j.packets.ranges))
          < 2 ^ 62
    short bounded =
        let index = partition_point (λ r. leb r.end largest) j.packets.ranges in
        omega (
          arith,
          bounded,
          length-reverse (take index j.packets.ranges),
          length-take index j.packets.ranges,
        )
