-- ===== src/NewReno/Lost.antt =====
-- What the loop over the lost packets finds.
use dquic.Base.{
  ℕ, ◌+◌, ◌-◌, ◌≤◌, ◌≡◌, inl, inr, max, refl, ap, ◌∙◌, arith, Bool, false, not, ◌&&◌, ◌||◌,
  if◌then◌else◌, Option, none, some, List, [], ◌∷◌, All, Bool-cases, le→leb,
}
use dquic.NewReno.{NewReno, SentPacket, in_recovery, later, lose}

-- The bytes of the packets that count.
abbrev pub counted_bytes : List SentPacket → ℕ
counted_bytes [] = 0
counted_bytes (p ∷ ps) = (if p.count_for_cc then p.sent_bytes else 0) + counted_bytes ps

pub lose_lem :
    (ps : List SentPacket) (s : NewReno) (last : Option ℕ)
    → ((lose s last ps).0.congestion_window ≡ s.congestion_window)
      × ((lose s last ps).0.ssthresh ≡ s.ssthresh)
      × ((lose s last ps).0.recovery_start_time ≡ s.recovery_start_time)
      × ((lose s last ps).0.bytes_in_flight ≡ s.bytes_in_flight - counted_bytes ps)
unfolding lose
lose_lem [] s last = (refl, refl, refl, omega arith)
lose_lem (p ∷ ps) s last = elim (Bool-cases p.count_for_cc) [
  | inl e ↦
      let (a, b, c, d) =
        lose_lem ps (record s { bytes_in_flight = s.bytes_in_flight - p.sent_bytes })
          (later last p.time_sent) in
      rw (lose, e) (a, b, c, d ∙ omega arith)
  | inr e ↦ let (a, b, c, d) = lose_lem ps s last in rw (lose, e) (a, b, c, d ∙ omega arith)
]

-- Some lost packet that counts was sent outside the recovery that started at `start`.
abbrev pub fresh_loss : Option ℕ → List SentPacket → Bool
fresh_loss start [] = false
fresh_loss start (p ∷ ps) =
    (p.count_for_cc && not (in_recovery start p.time_sent)) || fresh_loss start ps

-- The latest loss is outside the recovery.
abbrev pub outside : Option ℕ → Option ℕ → Bool
outside start none = false
outside start (some time) = not (in_recovery start time)

outside-later :
    (start last : Option ℕ) (time : ℕ)
    → outside start (some (elim last [ none ↦ time | some u ↦ max u time ]))
      ≡ (outside start last || not (in_recovery start time))
unfolding in_recovery
outside-later none none time = refl
outside-later none (some u) time = refl
outside-later (some start) none time = refl
outside-later (some start) (some u) time = ground arith

later_lem :
    (last : Option ℕ) (time : ℕ)
    → later last time ≡ some (elim last [ none ↦ time | some u ↦ max u time ])
unfolding later
later_lem none time = refl
later_lem (some u) time = refl

pub outside-lose :
    (ps : List SentPacket) (s : NewReno) (start last : Option ℕ)
    → outside start (lose s last ps).1 ≡ (outside start last || fresh_loss start ps)
unfolding lose
outside-lose [] s start last = ground arith
outside-lose (p ∷ ps) s start last = elim (Bool-cases p.count_for_cc) [
  | inl e ↦
      let t = record s { bytes_in_flight = s.bytes_in_flight - p.sent_bytes } in
      let later_outside = ap (outside start) (later_lem last p.time_sent) in
      rw (lose, e)
        (ground (
          arith,
          outside-lose ps t start (later last p.time_sent),
          later_outside,
          outside-later start last p.time_sent,
        ))
  | inr e ↦ rw (lose, e) (outside-lose ps s start last)
]

-- Packets sent before the recovery started are no fresh loss.
pub fresh_loss-before :
    (ps : List SentPacket) (start : ℕ)
    → All (λ (p : SentPacket). p.time_sent ≤ start) ps
    → fresh_loss (some start) ps ≡ false
unfolding in_recovery
fresh_loss-before [] start h = refl
fresh_loss-before (p ∷ ps) start h =
    rw (le→leb p.time_sent start h.0, fresh_loss-before ps start h.1) (ground arith)
