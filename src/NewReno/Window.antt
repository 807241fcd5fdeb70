-- ===== src/NewReno/Window.antt =====
-- What losses do to the window.
use dquic.Base.{
  ℕ, ◌+◌, ◌-◌, ◌*◌, ◌/◌, ◌≤◌, ◌<◌, ◌≡◌, ◌⊎◌, inl, inr, max, refl, ap, ◌∙◌, arith, Bool, true, false,
  if◌then◌else◌, Option, none, some, List, All, Bool-cases, ret, sub_u64-ret, dec_le, lt→ltb,
  le→ltb, panic, ◌^◌,
}
use dquic.NewReno.{
  NewReno, SentPacket, new, mul_u16, in_recovery, on_congestion_event, lose, react, reset_if,
  on_packets_lost,
}
use dquic.NewReno.Lost.{
  counted_bytes, lose_lem, fresh_loss, outside, outside-lose, fresh_loss-before,
}

-- A congestion event while the window is at least two datagrams: in recovery from a time not before
-- the packet was sent nothing changes; otherwise recovery starts now, the threshold is the window
-- less one datagram, and the window is the larger of that and two datagrams, so it does not grow and
-- stays at least two datagrams. Nothing panics.
pub on_congestion_event_cases :
    (mtu : ℕ) (s : NewReno) (now sent_time : ℕ)
    → 2 * mtu ≤ s.congestion_window
    → ((in_recovery s.recovery_start_time sent_time ≡ true)
        × (on_congestion_event mtu s now sent_time ≡ ret s))
      ⊎ ((in_recovery s.recovery_start_time sent_time ≡ false)
          × ((t : NewReno) × (on_congestion_event mtu s now sent_time ≡ ret t)
              × (t.recovery_start_time ≡ some now)
              × (t.ssthresh + mtu ≡ s.congestion_window)
              × (t.congestion_window ≡ max t.ssthresh (2 * mtu))
              × (2 * mtu ≤ t.congestion_window)
              × (t.congestion_window ≤ s.congestion_window)
              × (t.bytes_in_flight ≡ s.bytes_in_flight)))
unfolding on_congestion_event
on_congestion_event_cases mtu s now sent_time h =
    elim (Bool-cases (in_recovery s.recovery_start_time sent_time)) [
      | inl e ↦ inl (e, rw (on_congestion_event, e) refl)
      | inr e ↦ inr (
        e,
        (
          record s {
            recovery_start_time = some now;
            ssthresh = s.congestion_window - mtu;
            congestion_window = max (s.congestion_window - mtu) (2 * mtu);
          },
          rw (on_congestion_event, e, sub_u64-ret s.congestion_window mtu (omega arith)) refl,
          refl,
          omega arith,
          refl,
          omega arith,
          omega arith,
          refl,
        ),
      )
    ]

-- The window after the reaction to such a loss.
abbrev pub reduced : ℕ → Bool → ℕ → ℕ
reduced mtu fresh window = if fresh then max (window - mtu) (2 * mtu) else window

-- After a batch of losses: the window falls by a datagram, not below two, exactly where a fresh loss is in it,
-- and is halved then, not below two datagrams, where the losses are persistent; the bytes are off the flight.
pub record Shrunk (mtu : ℕ) (s : NewReno) (now : ℕ) (lost : List SentPacket) (persistent : Bool)
    (t : NewReno) : Type 0 where
  pub window :
      let fresh = fresh_loss s.recovery_start_time lost in
      let w = reduced mtu fresh s.congestion_window in
      t.congestion_window ≡ (if persistent then max (w / 2) (2 * mtu) else w)
  pub threshold :
      let fresh = fresh_loss s.recovery_start_time lost in
      let w = reduced mtu fresh s.congestion_window in
      t.ssthresh
      ≡ (if persistent then w / 2 else if fresh then s.congestion_window - mtu else s.ssthresh)
  pub recovery :
      let fresh = fresh_loss s.recovery_start_time lost in
      t.recovery_start_time
      ≡ (if persistent then none else if fresh then some now else s.recovery_start_time)
  pub at_least : 2 * mtu ≤ t.congestion_window
  pub at_most : t.congestion_window ≤ s.congestion_window
  pub off_flight : t.bytes_in_flight ≡ s.bytes_in_flight - counted_bytes lost

react-inside :
    (mtu : ℕ) (s : NewReno) (now : ℕ) (last : Option ℕ)
    → outside s.recovery_start_time last ≡ false
    → react mtu s now last ≡ ret s
unfolding react on_congestion_event
react-inside mtu s now none e = refl
react-inside mtu s now (some time) e = ground (arith, e)

-- The state after the reaction, from what the loop left.
abbrev reacted : ℕ → NewReno → ℕ → Bool → NewReno
reacted mtu r now fresh =
    if fresh
    then record r {
      recovery_start_time = some now;
      ssthresh = r.congestion_window - mtu;
      congestion_window = max (r.congestion_window - mtu) (2 * mtu);
    }
    else r

-- One reduction per recovery: losses of packets that were all sent before the recovery in progress
-- started, when they are not persistent, change neither the window nor the threshold nor the recovery.
pub on_packets_lost-once :
    (mtu : ℕ) (s : NewReno) (now start : ℕ) (lost : List SentPacket)
    → s.recovery_start_time ≡ some start
    → All (λ (p : SentPacket). p.time_sent ≤ start) lost
    → (t : NewReno) × (on_packets_lost mtu s now lost false ≡ ret t)
      × (t.congestion_window ≡ s.congestion_window)
      × (t.ssthresh ≡ s.ssthresh)
      × (t.recovery_start_time ≡ s.recovery_start_time)
unfolding on_packets_lost reset_if
on_packets_lost-once mtu s now start lost e h =
    let r = lose s none lost in
    let (a, b, c, d) = lose_lem lost s none in
    let latest =
      ap (λ from. outside from r.1) (c ∙ e)
      ∙ outside-lose lost s (some start) none
      ∙ fresh_loss-before lost start h in
    (r.0, rw (react-inside mtu r.0 now r.1 latest) refl, a, b, c)

-- The initial window for a datagram size of at most 6553 is between two and ten datagrams; a larger
-- size overflows the u16 product and panics.
pub new_cases :
    (mtu : ℕ)
    → ((mtu ≤ 6553)
        × ((s : NewReno) × (new mtu ≡ ret s)
            × (2 * mtu ≤ s.congestion_window)
            × (s.congestion_window ≤ 10 * mtu)
            × (s.bytes_in_flight ≡ 0)))
      ⊎ ((6553 < mtu) × (new mtu ≡ panic))
unfolding new mul_u16
new_cases mtu = elim (dec_le mtu 6553) [
  | yes h ↦
      rw (lt→ltb (mtu * 10) (2 ^ 16) (omega arith), lt→ltb (mtu * 2) (2 ^ 16) (omega arith))
        (inl (h, (_, refl, omega arith, omega arith, refl)))
  | no h ↦ inr (omega arith, rw (le→ltb (mtu * 10) (2 ^ 16) (omega arith)) refl)
]
