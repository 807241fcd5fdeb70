-- ===== src/Received/Acks/Loop.antt =====
-- What the loop of `gen_ack_frame_util` pushes.
use dquic.Base.{
  ℕ, suc, ◌+◌, ◌-◌, ◌^◌, ◌≤◌, ◌<◌, ◌≡◌, ◌⊎◌, inl, inr, ap, refl, ◌∙◌, arith, List, [], ◌∷◌, map,
  length, take, dec_lt, lt→ltb, le→ltb, ret, ok,
}
use dquic.Ack.{ranges_size, scan}
use dquic.Received.{Range}
use dquic.Received.Acks.{range_count_size_increment, push, more_ranges}
use dquic.Received.Acks.Below.{Below}
use dquic.Received.Acks.Round.{
  size_of, size_of-suc, inclusive, OneMore, gap_of, ack_of, cost_of, more_ranges-round, scan-round,
  nothing_more, room_left, measured-round, first_over, later_over,
}

-- What the loop returns.
pub record Pushed (capacity count current : ℕ) (ps : List Range) : Type 0 where
  pub gaps : List (ℕ × ℕ)
  pub taken : ℕ
  pub size : ℕ
  pub returned : more_ranges capacity count current ps ≡ ret (ok gaps)
  pub scanned : scan current gaps ≡ ret (map inclusive (take taken ps))
  pub bounded : length gaps ≤ length ps
  pub measured : ranges_size gaps ≡ ret size
  pub fits : size_of (count + length gaps) + size ≤ size_of count + capacity
  pub maximal : (taken ≡ length ps) ⊎ OneMore capacity count current taken ps

pub more_ranges-Pushed :
    (ps : List Range) (capacity count current : ℕ)
    → Below current ps
    → current < 2 ^ 62
    → count + length ps < 2 ^ 62
    → Pushed capacity count current ps
unfolding more_ranges scan ranges_size push
more_ranges-Pushed [] capacity count current b h c = record {
  gaps = [];
  taken = 0;
  size = 0;
  returned = refl;
  scanned = refl;
  bounded = omega arith;
  measured = refl;
  fits = nothing_more count capacity;
  maximal = inl refl;
}
more_ranges-Pushed (p ∷ ps) capacity count current b h c =
    elim (dec_lt capacity (cost_of count current p)) [
      | yes full ↦ record {
        gaps = [];
        taken = 0;
        size = 0;
        returned =
            more_ranges-round p ps capacity count current b.0 b.1 h
            ∙ rw (lt→ltb capacity (cost_of count current p) full) refl;
        scanned = refl;
        bounded = omega arith;
        measured = refl;
        fits = nothing_more count capacity;
        maximal = inr (first_over p ps capacity count current b.0 b.1 h (omega arith) full);
      }
      | no room ↦
          let rest =
            more_ranges-Pushed ps (capacity - cost_of count current p) (count + 1) p.start b.2
              (omega (arith, b.0, b.1)) (omega (arith, c)) in
          record {
            gaps = (gap_of current p, ack_of p) ∷ rest.gaps;
            taken = suc rest.taken;
            size = size_of (gap_of current p) + size_of (ack_of p) + rest.size;
            returned =
                more_ranges-round p ps capacity count current b.0 b.1 h
                ∙ rw (le→ltb capacity (cost_of count current p) (omega arith), rest.returned) refl;
            scanned =
                scan-round p current rest.gaps (map inclusive (take rest.taken ps)) b.0 b.1
                  rest.scanned;
            bounded = omega (arith, rest.bounded);
            measured = measured-round p current rest.size rest.gaps b.0 b.1 h rest.measured;
            fits =
                room_left count (length rest.gaps) (range_count_size_increment count)
                  (size_of (gap_of current p)) (size_of (ack_of p)) rest.size capacity
                  (size_of-suc count (omega arith)) (omega arith) rest.fits;
            maximal = elim rest.maximal [
              | inl all ↦ inl (ap suc all)
              | inr more ↦ inr (
                  later_over p ps capacity count current rest.taken b.0 b.1 h (omega arith)
                    (omega arith) more)
            ];
          }
    ]
