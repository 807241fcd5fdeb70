-- ===== src/Received/Ranges.antt =====
-- Ranges as a set of numbers.
use dquic.Base.{
  ℕ, ◌+◌, ◌≤◌, ◌<◌, ◌≡◌, refl, arith, Bool, false, ◌&&◌, ◌||◌, ltb, leb, ◌==◌, List, [], ◌∷◌,
  dec_le, le→leb, lt→leb, lt→ltb, le→ltb,
}
use dquic.Received.{Range, partition_point, holds, contains, join_next, add_here}

abbrev pub in_range : Range → ℕ → Bool
in_range r j = leb r.start j && ltb j r.end

-- A number is in one of the ranges.
abbrev pub covered : List Range → ℕ → Bool
covered [] j = false
covered (r ∷ rs) j = in_range r j || covered rs j

-- Non-empty ranges from `low` on, with at least one number between two of them.
abbrev pub Separated : ℕ → List Range → Type 0
Separated low [] = Unit {0}
Separated low (r ∷ rs) = (low ≤ r.start) × (r.start < r.end) × Separated (r.end + 1) rs

pub Separated-weaken :
    (low low' : ℕ) (rs : List Range) → low' ≤ low → Separated low rs → Separated low' rs
Separated-weaken low low' [] h v = tt
Separated-weaken low low' (r ∷ rs) h v = (omega (arith, v.0), v.1, v.2)

pub covered_below :
    (low j : ℕ) (rs : List Range) → j < low → Separated low rs → covered rs j ≡ false
covered_below low j [] h v = refl
covered_below low j (r ∷ rs) h v =
    rw (lt→leb r.start j (omega (arith, v.0)))
      (covered_below (r.end + 1) j rs (omega (arith, v.0, v.1)) v.2)

-- On separated ranges the binary search finds out whether a range has the number.
pub contains-covered :
    (low j : ℕ) (rs : List Range) → Separated low rs → contains rs j ≡ covered rs j
unfolding contains partition_point holds
contains-covered low j [] v = refl
contains-covered low j (r ∷ rs) v = elim (dec_le r.end j) [
  | yes past ↦
      rw (le→leb r.end j past, le→ltb j r.end past)
        (ground (arith, contains-covered (r.end + 1) j rs v.2))
  | no here ↦
      rw
        (
          lt→leb r.end j (omega arith),
          lt→ltb j r.end (omega arith),
          covered_below (r.end + 1) j rs (omega arith) v.2,
        )
        (ground arith)
]

-- The first range that does not end before the number: `add_here` adds the number to the set and keeps
-- the ranges separated.
pub add_here-Separated :
    (low pn : ℕ) (rs : List Range)
    → Separated low rs
    → low ≤ pn
    → covered rs pn ≡ false
    → partition_point (λ r. ltb r.end pn) rs ≡ 0
    → Separated low (add_here rs pn)
unfolding add_here join_next partition_point
add_here-Separated low pn [] v h new here = ground arith
add_here-Separated low pn (r ∷ []) v h new here = ground arith
add_here-Separated low pn (r ∷ next ∷ rest) v h new here = ground arith

pub add_here-covered :
    (low pn j : ℕ) (rs : List Range)
    → Separated low rs
    → low ≤ pn
    → covered rs pn ≡ false
    → partition_point (λ r. ltb r.end pn) rs ≡ 0
    → covered (add_here rs pn) j ≡ (j == pn || covered rs j)
unfolding add_here join_next partition_point
add_here-covered low pn j [] v h new here = ground arith
add_here-covered low pn j (r ∷ []) v h new here = ground arith
add_here-covered low pn j (r ∷ next ∷ rest) v h new here = ground arith
