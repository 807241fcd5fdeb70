-- ===== src/Received/Room.antt =====
-- When the ranges with a number added are one more.
use dquic.Base.{
  ℕ, ◌+◌, ◌-◌, ◌≤◌, ◌<◌, ◌≡◌, ◌⊎◌, inl, inr, refl, arith, Bool, true, false, not, ◌&&◌, ltb, List,
  [], ◌∷◌, length, dec_lt, lt→ltb, le→ltb, ℕ_discrete, eq→==, ne→==, if◌then◌else◌,
}
use dquic.Received.{Range, partition_point, join_next, add_here, add_to_ranges}
use dquic.Received.Ranges.{covered, Separated, covered_below}

-- Neither neighbour of the number is in the ranges.
abbrev pub alone : List Range → ℕ → Bool
alone rs pn = not (covered rs (pn - 1)) && not (covered rs (pn + 1))

abbrev pub head_end : List Range → ℕ
head_end [] = 0
head_end (r ∷ rs) = r.end

-- The end of the lowest range, once a range of its own holds the number.
abbrev pub lowest_end : List Range → ℕ → ℕ
lowest_end [] pn = pn + 1
lowest_end (r ∷ rs) pn = if ltb pn r.start then pn + 1 else r.end

-- A number without neighbours takes one range more, and any other number none.
abbrev pub Grown : List Range → ℕ → List Range → Type 0
Grown rs pn new =
    ((alone rs pn ≡ true) × (length new ≡ length rs + 1) × (head_end new ≡ lowest_end rs pn))
    ⊎ ((alone rs pn ≡ false) × (length new ≤ length rs))

join_next-length : (r : Range) (rest : List Range) → length (join_next r rest) ≤ 1 + length rest
unfolding join_next
join_next-length r [] = omega arith
join_next-length r (next ∷ rest) = ground arith

add_here-Grown :
    (low pn : ℕ) (r : Range) (rest : List Range)
    → Separated low (r ∷ rest)
    → covered (r ∷ rest) pn ≡ false
    → pn ≤ r.end
    → Grown (r ∷ rest) pn (add_here (r ∷ rest) pn)
unfolding add_here
add_here-Grown low pn r rest v new h = elim (ℕ_discrete r.end pn) [
  | yes touches ↦
      rw (eq→== r.end pn touches) (
        inr (ground (arith, v.1), omega (arith, join_next-length (record r { end = pn + 1 }) rest)))
  | no other ↦ rw (ne→== r.end pn other) (elim (ℕ_discrete r.start (pn + 1)) [
    | yes before ↦ rw (eq→== r.start (pn + 1) before) (inr (ground (arith, v.1), omega arith))
    | no gap ↦ rw (ne→== r.start (pn + 1) gap) (
        inl (
          rw
              (
                covered_below (r.end + 1) (pn - 1) rest (omega (arith, v.1, before_it other)) v.2,
                covered_below (r.end + 1) (pn + 1) rest (omega (arith, v.1, before_it other)) v.2,
              )
              (ground (arith, before_it other, gap)),
          omega arith,
          rw (lt→ltb pn r.start (before_it other)) refl,
        ))
  ])
]
  where
    before_it : ¬ (r.end ≡ pn) → pn < r.start
    before_it other = ground (arith, new, h, other)

past-Grown :
    (pn : ℕ) (r : Range) (rs new : List Range)
    → r.start < r.end
    → r.end < pn
    → Grown rs pn new
    → Grown (r ∷ rs) pn (r ∷ new)
past-Grown pn r rs new filled past (inl (a, l, e)) =
    inl (ground (arith, a), omega (arith, l), rw (le→ltb pn r.start (omega arith)) refl)
past-Grown pn r rs new filled past (inr (a, l)) = inr (ground (arith, a), omega (arith, l))

pub add-Grown :
    (low pn : ℕ) (rs : List Range)
    → Separated low rs
    → covered rs pn ≡ false
    → Grown rs pn (add_to_ranges rs pn)
unfolding add_to_ranges partition_point add_here
add-Grown low pn [] v new = inl (refl, refl, refl)
add-Grown low pn (r ∷ rs) v new = elim (dec_lt r.end pn) [
  | yes past ↦ rw (lt→ltb r.end pn past) (
      past-Grown pn r rs (add_to_ranges rs pn) v.1 past
        (add-Grown (r.end + 1) pn rs v.2 (ground (arith, new))))
  | no here ↦ rw (le→ltb r.end pn (omega arith)) (add_here-Grown low pn r rs v new (omega arith))
]
