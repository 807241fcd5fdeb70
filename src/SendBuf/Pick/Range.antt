-- ===== src/SendBuf/Pick/Range.antt =====
-- `pick` takes a range of one colour and puts it in flight.
use dquic.Base.{
  ℕ, ◌+◌, ◌≤◌, ◌<◌, ◌≡◌, ap, ◌∙◌, sym, subst, arith, if◌then◌else◌, List, [], ◌∷◌, ◌++◌, get_elem?,
  dec_lt, lt→ltb, le→ltb, le→leb, lt→leb, Outcome, ret, Result, ok,
}
use dquic.SendBuf.State.{
  Color, pending, flighting, recved, State, offset, color, set_color, eq_color, offset-set_color,
  color-set_color,
}
use dquic.SendBuf.Map.{BufMap}
use dquic.SendBuf.Paint.{
  Ascending, paint, paint-append, paint-at, paint-before, paint-below, paint-nil, color_at,
  Ascending-append, Ascending-weaken, Ascending-right, Ascending-snoc, Ascending-until,
}
use dquic.SendBuf.Valid.{IsValid, in_range}
use dquic.SendBuf.Pick.{Picked, Availability, next_offset}

-- The call takes a range from the state's offset on and returns it with a valid map.
pub record Taken (m : BufMap) (s : State) (allowance : ℕ)
    (call : Outcome (BufMap × Result Picked Availability)) : Type 0 where
  pub end : ℕ
  pub after : BufMap
  pub returned :
      call
      ≡ ret (
        after,
        ok (record { start = offset s; end = end; is_fresh = eq_color (color s) pending }),
      )
  pub filled : offset s < end
  pub inside : end ≤ m.size
  pub allowed : end ≤ offset s + allowance
  pub uniform : (x : ℕ) → offset s ≤ x → x < end → color_at m x ≡ color s
  pub valid : IsValid after
  pub sized : after.size ≡ m.size
  pub painted :
      (x : ℕ)
      → x < m.size
      → color_at after x ≡ (if in_range (offset s) end x then flighting else color_at m x)

pub next-bounds :
    (ys : List State) (lo hi : ℕ)
    → lo ≤ hi
    → Ascending lo hi ys
    → (lo ≤ next_offset (get_elem? ys 0) hi)
      × (next_offset (get_elem? ys 0) hi ≤ hi)
      × Ascending (next_offset (get_elem? ys 0) hi) hi ys
unfolding Ascending
next-bounds [] lo hi h a = (h, omega arith, tt)
next-bounds (y ∷ ys) lo hi h a = (a.0, omega (arith, a.1), (omega arith, a.1, a.2))

-- From the first of the states on, the colour before them is of no matter.
pub next-paint :
    (ys : List State) (c d : Color) (hi x : ℕ)
    → next_offset (get_elem? ys 0) hi ≤ x
    → x < hi
    → paint c ys x ≡ paint d ys x
next-paint [] c d hi x h h' = absurd (omega arith)
next-paint (y ∷ ys) c d hi x h h' = paint-at c y ys x h ∙ sym (paint-at d y ys x h)

module _ (m : BufMap) (v : IsValid m) (xs : List State) (s : State) (ys : List State)
    (whole : m.states ≡ xs ++ s ∷ ys) where
  pub sorted : Ascending 0 m.size (xs ++ s ∷ ys)
  sorted = subst (Ascending 0 m.size) whole v.ascending

  pub from_s : Ascending (offset s) m.size (s ∷ ys)
  unfolding Ascending
  from_s = let a = Ascending-right xs (s ∷ ys) 0 m.size sorted in (omega arith, a.1, a.2)

  before_s : Ascending 0 (offset s) xs
  before_s = Ascending-until xs s ys 0 m.size sorted

  pub after_s : Ascending (offset s + 1) m.size ys
  unfolding Ascending
  after_s = from_s.2

  pub start_in : offset s < m.size
  unfolding Ascending
  start_in = from_s.1

  pub old-early : (x : ℕ) → x < offset s → color_at m x ≡ paint recved xs x
  unfolding color_at
  old-early x h =
      ap (λ l. paint recved l x) whole
      ∙ paint-append recved xs (s ∷ ys) x
      ∙ paint-below (paint recved xs x) (s ∷ ys) (offset s) m.size x from_s h

  pub old-late : (x : ℕ) → offset s ≤ x → color_at m x ≡ paint (color s) ys x
  unfolding color_at
  old-late x h =
      ap (λ l. paint recved l x) whole
      ∙ paint-append recved xs (s ∷ ys) x
      ∙ paint-at (paint recved xs x) s ys x h

  abbrev s' : State
  s' = set_color s flighting

  pub snoc : Ascending 0 (offset s + 1) (xs ++ s' ∷ [])
  snoc = Ascending-snoc xs s' (offset s) before_s (offset-set_color s flighting)

  -- The chosen state, in flight, with those it is merged with, and any tail.
  module _ (head tail : List State) (end : ℕ) (low : offset s < end) (high : end ≤ m.size)
      (head_ascending : Ascending 0 (offset s + 1) head)
      (head_painted : (x : ℕ) → paint recved head x ≡ paint recved (xs ++ s' ∷ []) x)
      (tail_ascending : Ascending end m.size tail)
      (tail_painted : (x : ℕ)
        → end ≤ x
        → x < m.size
        → paint flighting tail x ≡ paint (color s) ys x) where
    pub joined-IsValid : IsValid (record { states = head ++ tail; size = m.size })
    joined-IsValid = record {
      ascending =
          Ascending-append head tail 0 end m.size high (omega arith)
            (Ascending-weaken head 0 0 (offset s + 1) end (omega arith) (omega arith)
              head_ascending)
            tail_ascending;
      small = v.small;
    }

    pub joined-painted :
        (x : ℕ)
        → x < m.size
        → color_at (record { states = head ++ tail; size = m.size }) x
          ≡ (if in_range (offset s) end x then flighting else color_at m x)
    unfolding color_at
    joined-painted x h =
        let at = offset-set_color s flighting in
        paint-append recved head tail x
        ∙ ap (λ c. paint c tail x) (head_painted x ∙ paint-append recved xs (s' ∷ []) x)
        ∙ elim (dec_lt x (offset s)) [
          | yes early ↦ rw (lt→leb (offset s) x early) (
              paint-below _ tail end m.size x tail_ascending (omega arith)
              ∙ paint-before (paint recved xs x) s' [] x (omega (arith, at))
              ∙ paint-nil (paint recved xs x) x
              ∙ sym (old-early x early))
          | no late ↦
              ap (λ c. paint c tail x)
                (paint-at (paint recved xs x) s' [] x (omega (arith, at))
                  ∙ paint-nil (color s') x
                  ∙ color-set_color s flighting)
              ∙ elim (dec_lt x end) [
                | yes within ↦
                    rw (le→leb (offset s) x (omega arith), lt→ltb x end within)
                      (paint-below flighting tail end m.size x tail_ascending within)
                | no past ↦
                    rw (le→leb (offset s) x (omega arith), le→ltb x end (omega arith))
                      (tail_painted x (omega arith) h ∙ sym (old-late x (omega arith)))
              ]
        ]
