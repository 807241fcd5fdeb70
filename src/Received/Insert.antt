-- ===== src/Received/Insert.antt =====
-- What one insertion does to the numbers known.
use dquic.Base.{
  ◌∙◌, ℕ, ◌+◌, ◌≤◌, ◌<◌, ◌≡◌, ◌⊎◌, inl, inr, max, refl, arith, Bool, true, false, not, ◌&&◌, ◌||◌,
  ltb, ◌==◌, Option, List, [], ◌∷◌, length, dec_lt, lt→ltb, le→ltb, Bool-cases,
}
use dquic.Received.{
  Range, ReceivedPacketRanges, max_tracked_ack_ranges, partition_point, add_to_ranges, evict, newer,
  insert,
}
use dquic.Received.Room.{alone, lowest_end, Grown, add-Grown}
use dquic.Received.Ranges.{
  covered, Separated, Separated-weaken, covered_below, contains-covered, add_here-Separated,
  add_here-covered,
}

add-Separated :
    (low pn : ℕ) (rs : List Range)
    → Separated low rs
    → low ≤ pn
    → covered rs pn ≡ false
    → Separated low (add_to_ranges rs pn)
unfolding add_to_ranges partition_point
add-Separated low pn [] v h new = add_here-Separated low pn [] v h new refl
add-Separated low pn (r ∷ rs) v h new = elim (dec_lt r.end pn) [
  | yes past ↦
      rw (lt→ltb r.end pn past)
        (v.0, v.1, add-Separated (r.end + 1) pn rs v.2 (omega arith) (ground (arith, new)))
  | no here ↦
      rw (le→ltb r.end pn (omega arith)) (add_here-Separated low pn (r ∷ rs) v h new (ground arith))
]

add-covered :
    (low pn j : ℕ) (rs : List Range)
    → Separated low rs
    → low ≤ pn
    → covered rs pn ≡ false
    → covered (add_to_ranges rs pn) j ≡ (j == pn || covered rs j)
unfolding add_to_ranges partition_point
add-covered low pn j [] v h new = add_here-covered low pn j [] v h new refl
add-covered low pn j (r ∷ rs) v h new = elim (dec_lt r.end pn) [
  | yes past ↦
      rw (lt→ltb r.end pn past)
        (ground (arith, add-covered (r.end + 1) pn j rs v.2 (omega arith) (ground (arith, new))))
  | no here ↦
      rw (le→ltb r.end pn (omega arith)) (add_here-covered low pn j (r ∷ rs) v h new (ground arith))
]

module _ {ℓ} {T : Type ℓ} where
  -- A number that is never accepted again.
  abbrev pub known : ReceivedPacketRanges T → ℕ → Bool
  known s j = ltb j s.retired_before || covered s.ranges j

  pub record IsValid (s : ReceivedPacketRanges T) : Type 0 where
    pub separated : Separated s.retired_before s.ranges
    pub bounded : length s.ranges ≤ max_tracked_ack_ranges

  -- The state after the number `pn` is accepted, as it is for the number `j`: it is valid; the
  -- tracked numbers are those tracked before and `pn`, less the retired ones. The boundary below
  -- which numbers are retired moves exactly when all ranges are in use and `pn`, of which neither
  -- neighbour is tracked, takes one more; it moves up to the end of the lowest range then.
  pub record Accepted (s t : ReceivedPacketRanges T) (pn j : ℕ) : Type 0 where
    pub valid : IsValid t
    pub tracked :
        covered t.ranges j ≡ (not (ltb j t.retired_before) && (j == pn || covered s.ranges j))
    pub retired :
        ((t.retired_before ≡ s.retired_before)
          × ((length s.ranges < max_tracked_ack_ranges) ⊎ (alone s.ranges pn ≡ false)))
        ⊎ ((length s.ranges ≡ max_tracked_ack_ranges)
            × (alone s.ranges pn ≡ true)
            × (s.retired_before < t.retired_before)
            × (t.retired_before ≡ lowest_end s.ranges pn))

  -- Nothing below the boundary is tracked.
  none_below :
      (s : ReceivedPacketRanges T) (pn j : ℕ) (rs : List Range)
      → Separated s.retired_before rs
      → covered rs j ≡ (j == pn || covered s.ranges j)
      → covered rs j ≡ (not (ltb j s.retired_before) && (j == pn || covered s.ranges j))
  none_below s pn j rs sep e = elim (dec_lt j s.retired_before) [
    | yes low ↦ rw (lt→ltb j s.retired_before low) (covered_below s.retired_before j rs low sep)
    | no up ↦ rw (le→ltb j s.retired_before (omega arith)) e
  ]

  -- Nothing is evicted: a range was free, or none was taken.
  room :
      (s : ReceivedPacketRanges T) (new : List Range) (pn : ℕ)
      → IsValid s
      → length new ≤ max_tracked_ack_ranges
      → Grown s.ranges pn new
      → (length s.ranges < max_tracked_ack_ranges) ⊎ (alone s.ranges pn ≡ false)
  room s new pn v few (inl (apart, longer, lowest)) = inl (omega arith)
  room s new pn v few (inr (joined, same)) = inr joined

  evict-Accepted :
      (s : ReceivedPacketRanges T) (rs : List Range) (pn j : ℕ) (largest : Option (ℕ × T))
      → IsValid s
      → Separated s.retired_before rs
      → Grown s.ranges pn rs
      → covered rs j ≡ (j == pn || covered s.ranges j)
      → Accepted s (evict (record s { largest_received = largest }) rs) pn j
  unfolding evict
  evict-Accepted s [] pn j largest v sep grown e = record {
    valid = record { separated = tt; bounded = omega arith };
    tracked = none_below s pn j [] sep e;
    retired = inl (refl, room s [] pn v (omega arith) grown);
  }
  evict-Accepted s (r ∷ rest) pn j largest v sep grown e =
      elim (dec_lt max_tracked_ack_ranges (length (r ∷ rest))) [
        | yes many ↦ rw (lt→ltb max_tracked_ack_ranges (length (r ∷ rest)) many) (evicted many)
        | no few ↦ rw (le→ltb max_tracked_ack_ranges (length (r ∷ rest)) (omega arith)) record {
          valid = record { separated = sep; bounded = omega arith };
          tracked = none_below s pn j (r ∷ rest) sep e;
          retired = inl (refl, room s (r ∷ rest) pn v (omega arith) grown);
        }
      ]
    where
      evicted :
          max_tracked_ack_ranges < length (r ∷ rest)
          → Accepted s
              (record s {
                ranges = rest;
                retired_before = max s.retired_before r.end;
                largest_received = largest;
              })
              pn
              j
      evicted many = record {
        valid = record {
          separated =
              Separated-weaken (r.end + 1) (max s.retired_before r.end) rest
                (omega (arith, sep.0, sep.1)) sep.2;
          bounded = omega (arith, all_in_use.0);
        };
        tracked = rw top (rest_covered (dec_lt j r.end));
        retired = inr (all_in_use.1, all_in_use.2, omega (arith, sep.0, sep.1), top ∙ all_in_use.3);
      }
        where
          top : max s.retired_before r.end ≡ r.end
          top = omega (arith, sep.0, sep.1)

          all_in_use :
              (length rest ≤ max_tracked_ack_ranges)
              × (length s.ranges ≡ max_tracked_ack_ranges)
              × (alone s.ranges pn ≡ true)
              × (r.end ≡ lowest_end s.ranges pn)
          all_in_use = full grown
            where
              full :
                  Grown s.ranges pn (r ∷ rest)
                  → (length rest ≤ max_tracked_ack_ranges)
                    × (length s.ranges ≡ max_tracked_ack_ranges)
                    × (alone s.ranges pn ≡ true)
                    × (r.end ≡ lowest_end s.ranges pn)
              full (inl (apart, longer, lowest)) =
                  (omega (arith, v.bounded), omega (arith, many, v.bounded), apart, lowest)
              full (inr (joined, same)) = absurd (omega (arith, many, v.bounded))

          rest_covered :
              Dec (j < r.end)
              → covered rest j ≡ (not (ltb j r.end) && (j == pn || covered s.ranges j))
          rest_covered (yes low) =
              rw (lt→ltb j r.end low) (covered_below (r.end + 1) j rest (omega arith) sep.2)
          rest_covered (no up) = ground (arith, e)

  -- On a valid state a number that is retired or tracked is refused and nothing changes, and any other
  -- number is accepted.
  pub insert_cases :
      (s : ReceivedPacketRanges T) (pn : ℕ) (now : T) (j : ℕ)
      → IsValid s
      → ((known s pn ≡ true) × (insert s pn now ≡ (s, false)))
        ⊎ ((known s pn ≡ false)
            × ((t : ReceivedPacketRanges T) × (insert s pn now ≡ (t, true)) × Accepted s t pn j))
  unfolding insert
  insert_cases s pn now j v =
      rw (contains-covered s.retired_before pn s.ranges v.separated)
        (elim (Bool-cases (known s pn)) [
          | inl e ↦ inl (e, rw e refl)
          | inr e ↦ inr (
            e,
            (
              evict (record s { largest_received = newer s.largest_received pn now })
                  (add_to_ranges s.ranges pn),
              rw e refl,
              evict-Accepted s (add_to_ranges s.ranges pn) pn j (newer s.largest_received pn now) v
                  (add-Separated s.retired_before pn s.ranges v.separated (fresh e).0 (fresh e).1)
                  (add-Grown s.retired_before pn s.ranges v.separated (fresh e).1)
                  (add-covered s.retired_before pn j s.ranges v.separated (fresh e).0 (fresh e).1),
            ),
          )
        ])
    where
      fresh : known s pn ≡ false → (s.retired_before ≤ pn) × (covered s.ranges pn ≡ false)
      fresh e = ground (arith, e)
