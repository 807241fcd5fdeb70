-- ===== src/SendBuf/Loss/Mark.antt =====
-- `mark_flighting_lost` in terms of the colours.
use dquic.Base.{
  ℕ, ◌+◌, ◌≡◌, refl, ap, ◌∙◌, sym, arith, inl, inr, Bool-cases, List, [], ◌∷◌, map, dec_le,
}
use dquic.SendBuf.State.{
  Color, flighting, recved, lost, State, offset, color, eq_color, offset-set_color, color-set_color,
}
use dquic.SendBuf.Map.{BufMap}
use dquic.SendBuf.Paint.{Ascending, paint, paint-at, paint-before, paint-nil, color_at, eq_color-eq}
use dquic.SendBuf.Valid.{IsValid}
use dquic.SendBuf.Loss.{mark_state, mark_flighting_lost}
use dquic.SendBuf.Loss.Tail.{lose, lose-same}

offset-mark : (s : State) → offset (mark_state s) ≡ offset s
unfolding mark_state
offset-mark s = elim (Bool-cases (eq_color (color s) flighting)) [
  | inl e ↦ rw (mark_state, e) (offset-set_color s lost)
  | inr e ↦ rw (mark_state, e) refl
]

color-mark : (s : State) → color (mark_state s) ≡ lose (color s)
unfolding mark_state
color-mark s = elim (Bool-cases (eq_color (color s) flighting)) [
  | inl e ↦
      rw (mark_state, e)
        (color-set_color s lost ∙ ap lose (sym (eq_color-eq (color s) flighting e)))
  | inr e ↦ rw (mark_state, e) (sym (lose-same (color s) e))
]

Ascending-mark :
    (states : List State) (lo hi : ℕ)
    → Ascending lo hi states
    → Ascending lo hi (map mark_state states)
unfolding Ascending
Ascending-mark [] lo hi a = tt
Ascending-mark (s ∷ states) lo hi a =
    rw (offset-mark s) (a.0, a.1, Ascending-mark states (offset s + 1) hi a.2)

paint-mark :
    (c : Color) (states : List State) (x : ℕ)
    → paint (lose c) (map mark_state states) x ≡ lose (paint c states x)
paint-mark c [] x = paint-nil (lose c) x ∙ ap lose (sym (paint-nil c x))
paint-mark c (s ∷ states) x = elim (dec_le (offset s) x) [
  | yes at ↦
      paint-at (lose c) (mark_state s) (map mark_state states) x (omega (arith, offset-mark s))
      ∙ ap (λ d. paint d (map mark_state states) x) (color-mark s)
      ∙ paint-mark (color s) states x
      ∙ ap lose (sym (paint-at c s states x at))
  | no before ↦
      paint-before (lose c) (mark_state s) (map mark_state states) x (omega (arith, offset-mark s))
      ∙ paint-mark c states x
      ∙ ap lose (sym (paint-before c s states x (omega arith)))
]

-- What is in flight is lost, and nothing else changes.
pub mark_flighting_lost-IsValid :
    (m : BufMap)
    → IsValid m
    → IsValid (mark_flighting_lost m)
      × ((mark_flighting_lost m).size ≡ m.size)
      × ((x : ℕ) → color_at (mark_flighting_lost m) x ≡ lose (color_at m x))
unfolding mark_flighting_lost color_at
mark_flighting_lost-IsValid m v = (
  record { ascending = Ascending-mark m.states 0 m.size v.ascending; small = v.small },
  refl,
  paint-mark recved m.states,
)
