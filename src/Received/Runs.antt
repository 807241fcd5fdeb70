-- ===== src/Received/Runs.antt =====
-- Received packet numbers at concrete values; times are numbers.
use dquic.Base.{
  ℕ, zero, suc, ◌+◌, refl, length, ◌≤◌, ◌≡◌, ◌≢◌, ◌↔◌, ◌⊎◌, arith, true, false, some, List, [], ◌∷◌,
  ok,
}
use dquic.Varint.{varint_max}
use dquic.Received.Ranges.{Separated}
use dquic.Received.{
  Range, max_tracked_ack_ranges, ReceivedPacketRanges, RcvdJournal, insert, check_pn, on_rcvd_pn,
}
use dquic.Received.Insert.{known, IsValid, Accepted, insert_cases}
use dquic.Received.Once.{arrive, count, no_packets, arrive_once, check_pn-on_rcvd_pn}

-- The numbers 3, 4 and 6 to 8 have been received.
abbrev received : ReceivedPacketRanges ℕ
received = record {
  ranges = record { start = 3; end = 5 } ∷ record { start = 6; end = 9 } ∷ [];
  retired_before = 2;
  largest_received = some (8, 100);
}

received-IsValid : IsValid received
received-IsValid = record {
  separated = (omega arith, omega arith, (omega arith, omega arith, tt));
  bounded = omega arith;
}

abbrev journal : RcvdJournal ℕ
journal = record { packets = received; largest_authenticated = some 8 }

abbrev packets : List (ℕ × ℕ)
packets = (4, 10) ∷ (6, 11) ∷ (5, 12) ∷ (6, 13) ∷ []

-- Every second number from `start` on, in `n` ranges.
spaced : ℕ → ℕ → List Range
spaced zero start = []
spaced (suc n) start = record { start = start; end = start + 1 } ∷ spaced n (start + 2)

spaced-Separated : (n start low : ℕ) → low ≤ start → Separated low (spaced n start)
unfolding spaced
spaced-Separated zero start low h = tt
spaced-Separated (suc n) start low h =
    (h, omega arith, spaced-Separated n (start + 2) (start + 1 + 1) (omega arith))

length-spaced : (n start : ℕ) → length (spaced n start) ≡ n
unfolding spaced
length-spaced zero start = refl
length-spaced (suc n) start = omega (arith, length-spaced n (start + 2))

-- All ranges are in use.
abbrev full : ReceivedPacketRanges ℕ
full = record {
  ranges = spaced max_tracked_ack_ranges 3;
  retired_before = 2;
  largest_received = some (513, 100);
}

full-IsValid : IsValid full
full-IsValid = record {
  separated = spaced-Separated max_tracked_ack_ranges 3 2 (omega arith);
  bounded = omega (arith, length-spaced max_tracked_ack_ranges 3);
}

-- The number has no neighbour, so that the lowest range, which ends at 4, goes.
full_evicts : (insert full 600 101).0.retired_before ≡ 4
unfolding insert spaced
full_evicts = refl

insert_cases_example :
    ((known full 600 ≡ true) × (insert full 600 101 ≡ (full, false)))
    ⊎ ((known full 600 ≡ false)
        × ((t : ReceivedPacketRanges ℕ) × (insert full 600 101 ≡ (t, true))
            × Accepted full t 600 3))
insert_cases_example = insert_cases full 600 101 3 full-IsValid

arrive_once_example :
    (count 6 (arrive (no_packets {T = ℕ}) packets).1 ≤ 1)
    × (IsValid (arrive (no_packets {T = ℕ}) packets).0)
arrive_once_example = arrive_once packets 6

check_pn-on_rcvd_pn_example :
    ((check_pn journal 5 ≡ ok 5) ↔ ((5 ≤ varint_max) × ((insert journal.packets 5 101).1 ≡ true)))
    × (check_pn (on_rcvd_pn journal 5 101) 5 ≢ ok 5)
check_pn-on_rcvd_pn_example = check_pn-on_rcvd_pn journal 5 101 received-IsValid
