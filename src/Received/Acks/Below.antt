-- ===== src/Received/Acks/Below.antt =====
-- The ranges below a tracked number, downwards.
use dquic.Base.{
  ℕ, zero, suc, ◌+◌, ◌≤◌, ◌<◌, ◌≡◌, refl, arith, true, leb, some, List, [], ◌∷◌, ◌++◌, get_elem?,
  take, reverse, All, All-append, All-get_elem?, dec_le, le→leb, lt→leb, lt→ltb,
}
use dquic.Received.{Range, partition_point, holds}
use dquic.Received.Ranges.{covered, Separated, covered_below}
use dquic.Received.Acks.{base}

-- Non-empty ranges downwards from `current`, with a number between any two.
abbrev pub Below : ℕ → List Range → Type 0
Below current [] = Unit {0}
Below current (p ∷ ps) = (p.end < current) × (p.start < p.end) × Below p.start ps

Below-append :
    (current : ℕ) (ps : List Range) (r : Range)
    → Below current ps
    → All (λ p. r.end < p.start) ps
    → r.end < current
    → r.start < r.end
    → Below current (ps ++ r ∷ [])
Below-append current [] r b above h s = (h, s, tt)
Below-append current (p ∷ ps) r b above h s =
    (b.0, b.1, Below-append p.start ps r b.2 above.1 above.0 s)

Separated-All :
    (low : ℕ) (rs : List Range) → Separated (low + 1) rs → All (λ (r : Range). low < r.start) rs
Separated-All low [] v = tt
Separated-All low (r ∷ rs) v = (omega (arith, v.0), Separated-All low rs (weaken rs v.2))
  where
    weaken : (rs : List Range) → Separated (r.end + 1) rs → Separated (low + 1) rs
    weaken [] w = tt
    weaken (x ∷ xs) w = (omega (arith, w.0, v.0, v.1), w.1, w.2)

All-reverse :
    (P : Range → Type 0) (n : ℕ) (rs : List Range) → All P rs → All P (reverse (take n rs))
All-reverse P zero rs h = tt
All-reverse P (suc n) [] h = tt
All-reverse P (suc n) (r ∷ rs) h =
    All-append P (reverse (take n rs)) (r ∷ []) (All-reverse P n rs h.1) (h.0, tt)

-- Where the number is tracked, the search finds its range, with the others in order below it.
pub found :
    (low largest : ℕ) (rs : List Range)
    → Separated low rs
    → covered rs largest ≡ true
    → let index = partition_point (λ r. leb r.end largest) rs in
      (r : Range) × (get_elem? rs index ≡ some r)
      × (r.start ≤ largest)
      × (largest < r.end)
      × Below r.start (reverse (take index rs))
unfolding partition_point
found low largest [] v h = ground arith
found low largest (r ∷ rs) v h = elim (dec_le r.end largest) [
  | yes past ↦
      let (x, e, a, b, down) = found (r.end + 1) largest rs v.2 (ground (arith, h)) in
      let above = Separated-All r.end rs v.2 in
      rw (le→leb r.end largest past) (
        x,
        e,
        a,
        b,
        Below-append x.start (reverse (take (partition_point (λ r. leb r.end largest) rs) rs)) r
            down
            (All-reverse (λ (p : Range). r.end < p.start)
              (partition_point (λ r. leb r.end largest) rs) rs above)
            (All-get_elem? (λ (p : Range). r.end < p.start) rs
              (partition_point (λ r. leb r.end largest) rs) x above e)
            v.1,
      )
  | no here ↦ rw (lt→leb r.end largest (omega arith)) (
    r,
    refl,
    ground (arith, h, covered_below (r.end + 1) largest rs (omega arith) v.2),
    omega arith,
    tt,
  )
]

pub base-found :
    (ranges : List Range) (retired largest : ℕ) (r : Range)
    → get_elem? ranges (partition_point (λ r. leb r.end largest) ranges) ≡ some r
    → r.start ≤ largest
    → largest < r.end
    → base ranges retired largest
      ≡ some (r.start, take (partition_point (λ r. leb r.end largest) ranges) ranges)
unfolding base holds
base-found ranges retired largest r e from to =
    rw (base, e, le→leb r.start largest from, lt→ltb largest r.end to) refl
