-- ===== src/NewReno/Runs.antt =====
-- The window at concrete values.
use dquic.Base.{
  ◌+◌, ◌*◌, ◌≤◌, ◌<◌, ◌≡◌, ◌⊎◌, max, refl, arith, true, false, some, List, [], ◌∷◌, ret, panic,
}
use dquic.NewReno.{
  NewReno, SentPacket, inflight, new, in_recovery, on_congestion_event, on_packets_lost,
}
use dquic.NewReno.Window.{on_congestion_event_cases, on_packets_lost-once, new_cases}

abbrev reno : NewReno
reno = record {
  bytes_in_flight = 6000;
  congestion_window = 12000;
  recovery_start_time = some 50;
  ssthresh = 12000;
  ecn_ce_counters = λ epoch. 0;
}

abbrev packets : List SentPacket
packets =
    record { time_sent = 40; sent_bytes = 1200; count_for_cc = true; state = inflight }
    ∷ record { time_sent = 45; sent_bytes = 1000; count_for_cc = true; state = inflight }
    ∷ []

on_congestion_event_cases_example :
    ((in_recovery reno.recovery_start_time 60 ≡ true)
      × (on_congestion_event 1200 reno 100 60 ≡ ret reno))
    ⊎ ((in_recovery reno.recovery_start_time 60 ≡ false)
        × ((t : NewReno) × (on_congestion_event 1200 reno 100 60 ≡ ret t)
            × (t.recovery_start_time ≡ some 100)
            × (t.ssthresh + 1200 ≡ reno.congestion_window)
            × (t.congestion_window ≡ max t.ssthresh (2 * 1200))
            × (2 * 1200 ≤ t.congestion_window)
            × (t.congestion_window ≤ reno.congestion_window)
            × (t.bytes_in_flight ≡ reno.bytes_in_flight)))
on_congestion_event_cases_example = on_congestion_event_cases 1200 reno 100 60 (omega arith)

-- The second was sent after the recovery started.
abbrev late_packets : List SentPacket
late_packets =
    record { time_sent = 40; sent_bytes = 1200; count_for_cc = true; state = inflight }
    ∷ record { time_sent = 60; sent_bytes = 1000; count_for_cc = true; state = inflight }
    ∷ []

on_packets_lost-once_example :
    (t : NewReno) × (on_packets_lost 1200 reno 100 packets false ≡ ret t)
    × (t.congestion_window ≡ reno.congestion_window)
    × (t.ssthresh ≡ reno.ssthresh)
    × (t.recovery_start_time ≡ reno.recovery_start_time)
on_packets_lost-once_example =
    on_packets_lost-once 1200 reno 100 50 packets refl (omega arith, (omega arith, tt))

new_cases_example :
    ((1200 ≤ 6553)
      × ((s : NewReno) × (new 1200 ≡ ret s)
          × (2 * 1200 ≤ s.congestion_window)
          × (s.congestion_window ≤ 10 * 1200)
          × (s.bytes_in_flight ≡ 0)))
    ⊎ ((6553 < 1200) × (new 1200 ≡ panic))
new_cases_example = new_cases 1200
