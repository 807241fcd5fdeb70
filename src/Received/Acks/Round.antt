-- ===== src/Received/Acks/Round.antt =====
-- One round of the loop of `gen_ack_frame_util`.
use dquic.Base.{
  ℕ, suc, ◌+◌, ◌-◌, ◌^◌, ◌≤◌, ◌<◌, ◌≡◌, refl, arith, ltb, if◌then◌else◌, List, [], ◌∷◌, map, length,
  take, lt→leb, le→ltb, ret, ◌>>=◌, sub_u64-ret, ok,
}
use dquic.Varint.Codec.{nbytes, shortest, encoding_size-shortest}
use dquic.Ack.{ranges_size, scan}
use dquic.Received.{Range}
use dquic.Received.Acks.{range_count_size_increment, push, push_if_room, with_gap, more_ranges}

abbrev pub size_of : ℕ → ℕ
size_of x = nbytes (shortest x)

pub size_of-suc :
    (n : ℕ) → n + 1 < 2 ^ 62 → size_of (n + 1) ≡ size_of n + range_count_size_increment n
unfolding range_count_size_increment
size_of-suc n h = ground arith

abbrev pub inclusive : Range → ℕ × ℕ
inclusive r = (r.start, r.end - 1)

-- The gaps for one range more than the `taken` ones, which the capacity has no room for.
pub record OneMore (capacity count current taken : ℕ) (ps : List Range) : Type 0 where
  pub gaps : List (ℕ × ℕ)
  pub size : ℕ
  pub scanned : scan current gaps ≡ ret (map inclusive (take (suc taken) ps))
  pub bounded : length gaps ≤ length ps
  pub measured : ranges_size gaps ≡ ret size
  pub over : size_of count + capacity < size_of (count + length gaps) + size

abbrev pub gap_of : ℕ → Range → ℕ
gap_of current p = current - (p.end + 1)

abbrev pub ack_of : Range → ℕ
ack_of p = p.end - p.start - 1

abbrev pub cost_of : ℕ → ℕ → Range → ℕ
cost_of count current p =
    range_count_size_increment count + size_of (gap_of current p) + size_of (ack_of p)

-- A round on a range that lies below.
pub more_ranges-round :
    (p : Range) (ps : List Range) (capacity count current : ℕ)
    → p.end < current
    → p.start < p.end
    → current < 2 ^ 62
    → more_ranges capacity count current (p ∷ ps) ≡ (
        if ltb capacity (cost_of count current p)
        then ret (ok [])
        else (more_ranges (capacity - cost_of count current p) (count + 1) p.start ps >>= λ r.
            ret (push (gap_of current p, ack_of p) r)))
unfolding more_ranges with_gap push_if_room
more_ranges-round p ps capacity count current below filled h =
    rw
      (
        le→ltb current (p.end + 1) (omega arith),
        lt→leb (2 ^ 62) (gap_of current p) (omega arith),
        sub_u64-ret p.end p.start (omega arith),
        sub_u64-ret (p.end - p.start) 1 (omega arith),
        lt→leb (2 ^ 62) (ack_of p) (omega arith),
        encoding_size-shortest (gap_of current p) (omega arith),
        encoding_size-shortest (ack_of p) (omega arith),
      )
      refl

pub scan-round :
    (p : Range) (current : ℕ) (gaps : List (ℕ × ℕ)) (ranges : List (ℕ × ℕ))
    → p.end < current
    → p.start < p.end
    → scan p.start gaps ≡ ret ranges
    → scan current ((gap_of current p, ack_of p) ∷ gaps) ≡ ret (inclusive p ∷ ranges)
unfolding scan
scan-round p current gaps ranges below filled e =
    rw
      (
        sub_u64-ret current (gap_of current p) (omega arith),
        sub_u64-ret (current - gap_of current p) 2 (omega arith),
        sub_u64-ret (current - gap_of current p - 2) (ack_of p) (omega arith),
        left,
        right,
        e,
      )
      refl
  where
    left : current - gap_of current p - 2 - ack_of p ≡ p.start
    left = omega arith

    right : current - gap_of current p - 2 ≡ p.end - 1
    right = omega arith

pub nothing_more : (count capacity : ℕ) → size_of (count + 0) + 0 ≤ size_of count + capacity
nothing_more count capacity = rw (plus count) (omega arith)
  where
    plus : (n : ℕ) → n + 0 ≡ n
    plus n = omega arith

-- The capacity that a round leaves pays for the rest.
pub room_left :
    (count n increment gap ack size capacity : ℕ)
    → size_of (count + 1) ≡ size_of count + increment
    → increment + gap + ack ≤ capacity
    → size_of (count + 1 + n) + size ≤ size_of (count + 1) + (capacity - (increment + gap + ack))
    → size_of (count + suc n) + (gap + ack + size) ≤ size_of count + capacity
room_left count n increment gap ack size capacity e room fits =
    rw (shift count n) (arithmetic (size_of (count + 1)) (size_of (count + 1 + n)) e fits)
  where
    shift : (count n : ℕ) → count + suc n ≡ count + 1 + n
    shift count n = omega arith

    arithmetic :
        (a b : ℕ)
        → a ≡ size_of count + increment
        → b + size ≤ a + (capacity - (increment + gap + ack))
        → b + (gap + ack + size) ≤ size_of count + capacity
    arithmetic a b e fits = omega (arith, e, room, fits)

pub measured-round :
    (p : Range) (current size : ℕ) (gaps : List (ℕ × ℕ))
    → p.end < current
    → p.start < p.end
    → current < 2 ^ 62
    → ranges_size gaps ≡ ret size
    → ranges_size ((gap_of current p, ack_of p) ∷ gaps)
      ≡ ret (size_of (gap_of current p) + size_of (ack_of p) + size)
unfolding ranges_size
measured-round p current size gaps below filled h e =
    rw
      (
        encoding_size-shortest (gap_of current p) (omega arith),
        encoding_size-shortest (ack_of p) (omega arith),
        e,
      )
      refl

-- The first range does not fit.
pub first_over :
    (p : Range) (ps : List Range) (capacity count current : ℕ)
    → p.end < current
    → p.start < p.end
    → current < 2 ^ 62
    → count + 1 < 2 ^ 62
    → capacity < cost_of count current p
    → OneMore capacity count current 0 (p ∷ ps)
first_over p ps capacity count current below filled h c full = record {
  gaps = (gap_of current p, ack_of p) ∷ [];
  size = size_of (gap_of current p) + size_of (ack_of p) + 0;
  scanned = scan-round p current [] [] below filled (unfold scan in refl);
  bounded = omega arith;
  measured = measured-round p current 0 [] below filled h (unfold ranges_size in refl);
  over =
      arithmetic (size_of (count + 1)) (range_count_size_increment count)
        (size_of (gap_of current p)) (size_of (ack_of p)) (size_of-suc count c) full;
}
  where
    arithmetic :
        (next increment gap ack : ℕ)
        → next ≡ size_of count + increment
        → capacity < increment + gap + ack
        → size_of count + capacity < next + (gap + ack + 0)
    arithmetic next increment gap ack e over = omega (arith, e, over)

-- The first range fits, and a later one does not.
pub later_over :
    (p : Range) (ps : List Range) (capacity count current taken : ℕ)
    → p.end < current
    → p.start < p.end
    → current < 2 ^ 62
    → count + 1 < 2 ^ 62
    → cost_of count current p ≤ capacity
    → OneMore (capacity - cost_of count current p) (count + 1) p.start taken ps
    → OneMore capacity count current (suc taken) (p ∷ ps)
later_over p ps capacity count current taken below filled h c room more = record {
  gaps = (gap_of current p, ack_of p) ∷ more.gaps;
  size = size_of (gap_of current p) + size_of (ack_of p) + more.size;
  scanned =
      scan-round p current more.gaps (map inclusive (take (suc taken) ps)) below filled
        more.scanned;
  bounded = omega (arith, more.bounded);
  measured = measured-round p current more.size more.gaps below filled h more.measured;
  over = rw (shift count (length more.gaps)) (
      arithmetic (size_of (count + 1)) (size_of (count + 1 + length more.gaps))
        (range_count_size_increment count) (size_of (gap_of current p)) (size_of (ack_of p))
        (size_of-suc count c) room more.over);
}
  where
    shift : (count n : ℕ) → count + suc n ≡ count + 1 + n
    shift count n = omega arith

    arithmetic :
        (next last increment gap ack : ℕ)
        → next ≡ size_of count + increment
        → increment + gap + ack ≤ capacity
        → next + (capacity - (increment + gap + ack)) < last + more.size
        → size_of count + capacity < last + (gap + ack + more.size)
    arithmetic next last increment gap ack e room over = omega (arith, e, room, over)
