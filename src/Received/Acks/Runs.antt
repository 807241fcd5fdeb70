-- ===== src/Received/Acks/Runs.antt =====
-- An ACK frame at concrete values.
use dquic.Base.{
  ◌<◌, min, ℕ, ◌≡◌, ◌⊎◌, refl, arith, true, leb, some, none, [], ◌∷◌, get_elem?, take, reverse, ret,
  ok, err, sub_u64,
}
use dquic.Varint.{varint_max, encoding_size}
use dquic.Received.Acks.Frame.{least_size}
use dquic.Ack.{AckFrame}
use dquic.Received.{Range, RcvdJournal, partition_point}
use dquic.Received.Ranges.{in_range}
use dquic.Received.Insert.{IsValid}
use dquic.Received.Acks.{gen_ack_frame_util, no_room}
use dquic.Received.Acks.Exact.{Acknowledges, gen_ack_frame_util-Acknowledges}

-- The numbers 3, 4, 6 to 8 and 20 have been received.
abbrev journal : RcvdJournal ℕ
journal = record {
  packets = record {
    ranges =
        record { start = 3; end = 5 }
        ∷ record { start = 6; end = 9 }
        ∷ record { start = 20; end = 21 }
        ∷ [];
    retired_before = 2;
    largest_received = some (20, 100);
  };
  largest_authenticated = some 20;
}

journal-IsValid : IsValid journal.packets
journal-IsValid = record {
  separated =
      (omega arith, omega arith, (omega arith, omega arith, (omega arith, omega arith, tt)));
  bounded = omega arith;
}

frame_of_two :
    gen_ack_frame_util journal 7 40 9
    ≡ ret
        (ok (record { largest = 7; delay = 40; first_range = 1; ranges = (0, 1) ∷ []; ecn = none }))
unfolding gen_ack_frame_util sub_u64 encoding_size
frame_of_two = refl

gen_ack_frame_util-Acknowledges_example :
    let index = partition_point (λ r. leb r.end 7) journal.packets.ranges in
    (r : Range) × (get_elem? journal.packets.ranges index ≡ some r)
    × (in_range r 7 ≡ true)
    × (((9 < least_size 7 r.start (min 40 varint_max))
          × (gen_ack_frame_util journal 7 40 9 ≡ ret (err no_room)))
        ⊎ ((f : AckFrame) × (gen_ack_frame_util journal 7 40 9 ≡ ret (ok f))
            × Acknowledges 7 r.start
                (min 40 varint_max)
                9
                (reverse (take index journal.packets.ranges))
                f))
gen_ack_frame_util-Acknowledges_example =
    gen_ack_frame_util-Acknowledges journal 7 40 9 journal-IsValid refl (omega arith)
