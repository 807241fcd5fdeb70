-- ===== src/SendBuf/Pick/Take.antt =====
-- `take_range` cuts the chosen state or takes all of it.
use dquic.Base.{
  ℕ, ◌+◌, ◌^◌, ◌≤◌, ◌<◌, min, ◌≡◌, refl, ap, ◌∙◌, sym, subst, arith, List, [], ◌∷◌, ◌++◌, length,
  get_elem?, set, dec_lt, length-append, lt→ltb, le→ltb, Outcome, ret, add_u64-ret,
  get_elem?-append_right, Result,
}
use dquic.SendBuf.State.{
  flighting, State, encode, offset, color, set_color, color-set_color, offset-encode, color-encode,
}
use dquic.SendBuf.Map.{BufMap, same_before}
use dquic.SendBuf.Paint.{
  Ascending, paint, paint-append, paint-at, paint-below, paint-same, color_at, Ascending-weaken,
  Ascending-right, Ascending-cons, length-Ascending,
}
use dquic.SendBuf.Splice.{append_assoc, set-append}
use dquic.SendBuf.Merge.{Merged, merge-lem}
use dquic.SendBuf.Valid.{IsValid}
use dquic.SendBuf.Pick.{
  Picked, Availability, next_offset, take_range, split_state, join_state, drain_merged,
}
use dquic.SendBuf.Pick.Cut.{cut-parts, drain_merged-parts, merge_after-lem}
use dquic.SendBuf.Pick.Range.{
  Taken, next-bounds, next-paint, sorted, old-late, after_s, snoc, start_in, joined-IsValid,
  joined-painted,
}

module _ (m : BufMap) (v : IsValid m) (xs : List State) (s : State) (ys : List State)
    (whole : m.states ≡ xs ++ s ∷ ys) (window allowance : ℕ) where
  abbrev Call : Outcome (BufMap × Result Picked Availability)
  Call = take_range m window (length xs) s allowance

  abbrev colored : List State
  colored = xs ++ set_color s flighting ∷ ys

  abbrev end_of : ℕ
  end_of = next_offset (get_elem? ys 0) m.size

  bounds : (offset s + 1 ≤ end_of) × (end_of ≤ m.size) × Ascending end_of m.size ys
  bounds =
      next-bounds ys (offset s + 1) m.size (omega (arith, start_in m v xs s ys whole))
        (after_s m v xs s ys whole)

  short : length colored < 2 ^ 62
  short = omega (
    arith,
    length-append xs (s ∷ ys),
    length-append xs (set_color s flighting ∷ ys),
    length-Ascending (xs ++ s ∷ ys) 0 m.size (sorted m v xs s ys whole),
    v.small,
  )

  made : set m.states (length xs) (set_color s flighting) ≡ colored
  made =
      ap (λ l. set l (length xs) (set_color s flighting)) whole
      ∙ set-append xs ys s (set_color s flighting) (length xs) refl

  next : get_elem? colored (length xs + 1) ≡ get_elem? ys 0
  next = get_elem?-append_right xs (set_color s flighting ∷ ys) (length xs + 1) 1 refl

  uniform : (x : ℕ) → offset s ≤ x → x < end_of → color_at m x ≡ color s
  uniform x h h' =
      old-late m v xs s ys whole x h ∙ paint-below (color s) ys end_of m.size x bounds.2 h'

  abbrev i : ℕ
  i = same_before colored (length xs) flighting

  mg : Merged flighting xs (set_color s flighting) (offset s + 1)
  mg =
      merge-lem flighting xs (set_color s flighting) (offset s + 1) (snoc m v xs s ys whole)
        (color-set_color s flighting)

  cut_whole :
      (g : Merged flighting xs (set_color s flighting) (offset s + 1))
      → colored ≡ g.head ++ (g.mid ++ ys)
  cut_whole g =
      sym (append_assoc xs (set_color s flighting ∷ []) ys)
      ∙ ap (λ l. l ++ ys) g.whole
      ∙ append_assoc g.head g.mid ys

  measured :
      (g : Merged flighting xs (set_color s flighting) (offset s + 1))
      → length xs + 1 ≡ length g.head + length g.mid
  measured g = omega (
    arith,
    ap length g.whole,
    length-append xs (set_color s flighting ∷ []),
    length-append g.head g.mid,
  )

  -- The range ends before the state does.
  take-cut :
      (g : Merged flighting xs (set_color s flighting) (offset s + 1))
      → m.size ≤ window
      → 0 < allowance
      → offset s + allowance < end_of
      → Taken m s allowance Call
  unfolding take_range
  take-cut g wide some_ early =
      let limit = offset s + allowance in
      let tail = encode limit (color s) ∷ ys in
      let small : limit < 2 ^ 62 = omega (arith, v.small, bounds.1) in
      let at : offset (encode limit (color s)) ≡ limit = offset-encode limit (color s) small in
      let tail_up : Ascending limit m.size tail =
        Ascending-cons (encode limit (color s)) ys limit m.size at (omega (arith, bounds.1)) (
          Ascending-weaken ys end_of (limit + 1) m.size m.size (omega arith) (omega arith)
            bounds.2) in
      let tail_painted : (x : ℕ)
          → limit ≤ x
          → x < m.size
          → paint flighting tail x ≡ paint (color s) ys x =
        λ x h h'.
          paint-at flighting (encode limit (color s)) ys x (omega (arith, at))
          ∙ ap (λ c. paint c ys x) (color-encode limit (color s) small) in
      let split : split_state colored i (length xs) limit (color s) ≡ ret (g.head ++ tail) =
        ap (λ l. split_state l i (length xs) limit (color s)) (cut_whole g)
        ∙ cut-parts g.head g.mid ys i (length xs) limit (color s)
            (omega (arith, g.found (set_color s flighting ∷ ys))) (measured g) in
      record {
        end = limit;
        after = record { states = g.head ++ tail; size = m.size };
        returned =
            rw
              (
                made,
                next,
                add_u64-ret (offset s) allowance (omega (arith, small)),
                lt→ltb limit (min end_of window) (omega (arith, bounds.1)),
                split,
              )
              refl;
        filled = omega arith;
        inside = omega (arith, bounds.1);
        allowed = omega arith;
        uniform = λ x h h'. uniform x h (omega arith);
        valid =
            joined-IsValid m v xs s ys whole g.head tail limit (omega arith)
              (omega (arith, bounds.1)) g.ascending g.paints tail_up tail_painted;
        sized = refl;
        painted =
            joined-painted m v xs s ys whole g.head tail limit (omega arith)
              (omega (arith, bounds.1)) g.ascending g.paints tail_up tail_painted;
      }

  -- The range is all of the state.
  take-all :
      (g : Merged flighting xs (set_color s flighting) (offset s + 1))
      → m.size ≤ window
      → offset s + allowance < 2 ^ 64
      → end_of ≤ offset s + allowance
      → Taken m s allowance Call
  unfolding take_range join_state
  take-all g wide fits late =
      let r = merge_after-lem xs ys (set_color s flighting) flighting short in
      let regroup : xs ++ set_color s flighting ∷ r.post ≡ g.head ++ (g.mid ++ r.post) =
        sym (append_assoc xs (set_color s flighting ∷ []) r.post)
        ∙ ap (λ l. l ++ r.post) g.whole
        ∙ append_assoc g.head g.mid r.post in
      let join : join_state colored i (length xs) ≡ ret (g.head ++ r.post) =
        rw (join_state, r.merged)
          (ap (λ l. drain_merged l i (length xs)) regroup
            ∙ drain_merged-parts g.head g.mid r.post i (length xs)
                (omega (arith, g.found (set_color s flighting ∷ ys))) (measured g)) in
      let tail_up : Ascending end_of m.size r.post =
        Ascending-right r.run r.post end_of m.size
          (subst (Ascending end_of m.size) r.whole bounds.2) in
      let tail_painted : (x : ℕ)
          → end_of ≤ x
          → x < m.size
          → paint flighting r.post x ≡ paint (color s) ys x =
        λ x h h'.
          sym (ap (λ c. paint c r.post x) (paint-same flighting r.run x r.alike))
          ∙ sym (paint-append flighting r.run r.post x)
          ∙ sym (ap (λ l. paint flighting l x) r.whole)
          ∙ next-paint ys flighting (color s) m.size x h h' in
      let low : offset s < end_of = omega (arith, bounds.0) in
      let clipped : min end_of window ≡ end_of = omega (arith, bounds.1) in
      record {
        end = end_of;
        after = record { states = g.head ++ r.post; size = m.size };
        returned =
            rw
              (
                made,
                next,
                add_u64-ret (offset s) allowance fits,
                clipped,
                le→ltb (offset s + allowance) end_of late,
                join,
              )
              refl;
        filled = low;
        inside = bounds.1;
        allowed = late;
        uniform = uniform;
        valid =
            joined-IsValid m v xs s ys whole g.head r.post end_of low bounds.1 g.ascending g.paints
              tail_up tail_painted;
        sized = refl;
        painted =
            joined-painted m v xs s ys whole g.head r.post end_of low bounds.1 g.ascending g.paints
              tail_up tail_painted;
      }

  pub take_range-Taken :
      m.size ≤ window → 0 < allowance → offset s + allowance < 2 ^ 64 → Taken m s allowance Call
  take_range-Taken wide some_ fits = elim (dec_lt (offset s + allowance) end_of) [
    | yes early ↦ take-cut mg wide some_ early
    | no late ↦ take-all mg wide fits (omega arith)
  ]
