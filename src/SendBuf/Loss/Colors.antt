-- ===== src/SendBuf/Loss/Colors.antt =====
-- `may_loss` colours what is lost, and leaves what has been received.
use dquic.Base.{
  ℕ, suc, ◌+◌, ◌≤◌, ◌<◌, ◌≡◌, ◌≢◌, refl, ap, ◌∙◌, sym, subst, arith, true, false, if◌then◌else◌, [],
  ◌∷◌, ◌++◌, length, get_elem?, inl, inr, Bool-cases, some, get_elem?-append_right,
}
use dquic.SendBuf.State.{Color, pending, recved, flighting, lost, color, eq_color}
use dquic.SendBuf.Map.{BufMap}
use dquic.SendBuf.Paint.{
  Ascending, paint, paint-append, paint-at, color_at, Ascending-weaken, empty, paint-nil,
  last_below, eq_color-ne, eq_color-eq,
}
use dquic.SendBuf.Splice.{append_assoc}
use dquic.SendBuf.Neighbours.{search-lem, hit, miss, last_split}
use dquic.SendBuf.Valid.{IsValid, Returns, in_range}
use dquic.SendBuf.Loss.{may_loss}
use dquic.SendBuf.Loss.Tail.{lose}
use dquic.SendBuf.Loss.Cases.{after_recved, at_later}
use dquic.SendBuf.Loss.Hit.{at_hit}

is_lost :
    (c : Color) → c ≢ pending → eq_color c recved ≡ false → eq_color c flighting ≡ false → c ≡ lost
is_lost pending h g g' = absurd (h refl)
is_lost flighting h g g' = cc
is_lost recved h g g' = cc
is_lost lost h g g' = refl

module _ (m : BufMap) (start end : ℕ) (v : IsValid m) (filled : start < end) (inside : end ≤ m.size)
    (sent : (x : ℕ) → start ≤ x → x < end → color_at m x ≢ pending) where
  -- Of a valid map, the loss of a range that is not empty, ends within the size and covers nothing
  -- pending returns a valid map of the same size. In the range what was in flight or lost is lost and
  -- what was received stays received; outside it no colour changes.
  pub may_loss-Returns :
      Returns
        (may_loss m start end)
        m.size
        (λ x. if in_range start end x then lose (color_at m x) else color_at m x)
  unfolding may_loss
  may_loss-Returns = elim (search-lem m.states 0 m.size start v.ascending) [
    | hit xs s ys e f a o u ↦
        let (fresh, r_recved, r_lost, r_flighting) =
          at_hit m start end v filled inside sent xs s ys e a o u in
        let here : get_elem? m.states (length xs) ≡ some s =
          ap (λ l. get_elem? l (length xs)) e
          ∙ get_elem?-append_right xs (s ∷ ys) (length xs) 0 (omega arith) in
        rw (may_loss, f, here, eq_color-ne (color s) pending fresh)
          (elim (Bool-cases (eq_color (color s) recved)) [
            | inl g ↦ rw g (r_recved (eq_color-eq (color s) recved g))
            | inr g ↦ elim (Bool-cases (eq_color (color s) flighting)) [
              | inl g' ↦ rw (g, g') (r_flighting (eq_color-eq (color s) flighting g'))
              | inr g' ↦ rw (g, g') (r_lost (is_lost (color s) fresh g g'))
            ]
          ])
    | miss [] ys e f a u ↦
        rw (may_loss, f)
          (after_recved m start end v filled inside sent [] ys 0 e refl (empty 0 (start + 1)) u
            (λ x h. paint-nil recved x))
    | miss (x ∷ xs) ys e f a u ↦
        let (ws, s, g, n) = last_split (length xs) (x ∷ xs) refl in
        let e' : m.states ≡ ws ++ s ∷ [] ++ ys = e ∙ ap (λ l. l ++ ys) g in
        let up : Ascending 0 start (ws ++ s ∷ []) = subst (Ascending 0 start) g a in
        let (fresh, r) =
          at_later m start end v filled inside sent ws s ys (length xs) e' (ap length g) up u in
        let here : get_elem? m.states (length xs) ≡ some s =
          ap (λ l. get_elem? l (length xs)) (e' ∙ append_assoc ws (s ∷ []) ys)
          ∙ get_elem?-append_right ws (s ∷ ys) (length xs) 0 (omega (arith, n)) in
        rw (may_loss, f, here, eq_color-ne (color s) pending fresh)
          (elim (Bool-cases (eq_color (color s) recved)) [
            | inl h ↦ rw h (
                after_recved m start end v filled inside sent (ws ++ s ∷ []) ys (suc (length xs)) e'
                  (ap length g)
                  (Ascending-weaken (ws ++ s ∷ []) 0 0 start (start + 1) (omega arith) (omega arith)
                    up)
                  u
                  (λ y l.
                    paint-append recved ws (s ∷ []) y
                    ∙ paint-at (paint recved ws y) s [] y (last_below ws s start y up l)
                    ∙ paint-nil (color s) y
                    ∙ eq_color-eq (color s) recved h))
            | inr h ↦
                rw h
                  (r (λ c. (let k : true ≡ false = sym (ap (λ d. eq_color d recved) c) ∙ h in cc)))
          ])
  ]
