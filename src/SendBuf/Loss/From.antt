-- ===== src/SendBuf/Loss/From.antt =====
-- `may_lost_from`: all rounds of its loop.
use dquic.Base.{
  ℕ, ◌+◌, ◌^◌, ◌≤◌, ◌<◌, ◌≡◌, ◌≢◌, refl, ap, ◌∙◌, sym, subst, arith, Bool, true, false, ◌&&◌, ltb,
  inl, inr, Bool-cases, List, [], ◌∷◌, ◌++◌, length, All, set, drop, dec_lt, le→leb, lt→ltb, le→ltb,
  ne→==,
}
use dquic.SendBuf.State.{
  Color, pending, flighting, recved, lost, eq_color, State, offset, color, set_color,
}
use dquic.SendBuf.Paint.{Ascending, paint, paint-below, paint-nil, eq_color-ne, eq_color-eq, empty}
use dquic.SendBuf.Splice.{drop-append}
use dquic.SendBuf.Cuts.{Sent}
use dquic.SendBuf.Loss.{lost_loop, may_lost_from}
use dquic.SendBuf.Loss.Tail.{lose, lose-same, Lost, Round}
use dquic.SendBuf.Loss.Rounds.{Round-stop, Round-at}
use dquic.SendBuf.Loss.Marks.{Round-marked, Round-skipped, Round-recved}

pub and_false : (b : Bool) → (b && false) ≡ false
and_false true = refl
and_false false = refl

pub ltb_and : (a b : ℕ) (c : Bool) → (ltb a b && c) ≡ true → a < b
ltb_and a b c h = elim (dec_lt a b) [
  | yes p ↦ p
  | no p ↦
      let e : false ≡ true = ap (λ t. t && c) (sym (le→ltb a b (omega arith))) ∙ h in absurd (cc)
]

module _ (size end : ℕ) (inside : end ≤ size) (small : size < 2 ^ 62) where
  Lost-end :
      (lo i j : ℕ) (states : List State) (pre : Color) (old : ℕ → Color)
      (r : Round states lo size end i j pre [] old)
      → Lost (lost_loop size end states i j pre []) r.xs lo size end old
  unfolding lost_loop
  Lost-end lo i j states pre old r =
      Round-stop size end inside small states lo i j pre [] old
        (ltb end size && eq_color pre flighting) (lost_loop size end states i j pre []) r
        (rw (lost_loop, le→leb end size inside) refl) (empty (end + 1) size)
        (ltb_and end size (eq_color pre flighting))
        (λ h within. sym (
          lose-same pre (sym (ap (λ t. t && eq_color pre flighting) (lt→ltb end size within)) ∙ h)))
        (λ e. rw e (and_false (ltb end size)))

  Lost-above :
      (lo i j : ℕ) (states : List State) (pre : Color) (s : State) (rest : List State)
      (old : ℕ → Color) (r : Round states lo size end i j pre (s ∷ rest) old)
      → end < offset s
      → Lost (lost_loop size end states i j pre (s ∷ rest)) r.xs lo size end old
  unfolding lost_loop Ascending
  Lost-above lo i j states pre s rest old r above =
      Round-stop size end inside small states lo i j pre (s ∷ rest) old (eq_color pre flighting)
        (lost_loop size end states i j pre (s ∷ rest)) r
        (rw (lost_loop, le→ltb (offset s) end (omega arith), ne→== (offset s) end (omega arith))
          refl)
        (omega arith, r.rest_ascending.1, r.rest_ascending.2)
        (λ _. omega (arith, r.rest_ascending.1)) (λ h _. sym (lose-same pre h)) (λ e. rw e refl)

  pub lost_loop-Lost :
      (rest : List State) (lo i j : ℕ) (states : List State) (pre : Color) (old : ℕ → Color)
      → All (Sent end) rest
      → (r : Round states lo size end i j pre rest old)
      → Lost (lost_loop size end states i j pre rest) r.xs lo size end old
  unfolding lost_loop
  lost_loop-Lost [] lo i j states pre old sent r = Lost-end lo i j states pre old r
  lost_loop-Lost (s ∷ rest) lo i j states pre old sent r = elim (dec_lt (offset s) end) [
    | yes below ↦ elim (Bool-cases (eq_color (color s) recved)) [
      | inl e ↦
          let is_recved = eq_color-eq (color s) recved e in
          let (q, same) = Round-skipped size end i j lo states pre s rest old r below is_recved in
          let t =
            lost_loop-Lost rest (offset s + 1) (j + 1) (j + 1) states recved (paint recved rest)
              sent.1 q in
          Round-recved size end i j lo states pre s rest old r below is_recved inside (
            subst
              (λ xs.
                Lost (lost_loop size end states (j + 1) (j + 1) recved rest) xs (offset s + 1) size
                  end (paint recved rest))
              same t)
      | inr ne ↦
          let fresh = sent.0 below in
          let missing : color s ≢ recved =
            λ g. (let k : true ≡ false = sym (ap (λ c. eq_color c recved) g) ∙ ne in cc) in
          let (q, same) =
            Round-marked size end i j lo states pre s rest old r below fresh missing in
          let t =
            lost_loop-Lost rest lo i (j + 1) (set states j (set_color s lost)) (color s) old sent.1
              q in
          rw (lost_loop, lt→ltb (offset s) end below, eq_color-ne (color s) pending fresh, ne)
            (subst
              (λ xs.
                Lost (lost_loop size end (set states j (set_color s lost)) i (j + 1) (color s) rest)
                  xs lo size end old)
              same t)
    ]
    | no up ↦ elim (dec_lt end (offset s)) [
      | yes above ↦ Lost-above lo i j states pre s rest old r above
      | no here ↦ Round-at size end inside small states lo i j pre s rest old r (omega arith)
    ]
  ]

  -- From a state on, after states of which the last has been received.
  pub may_lost_from-Lost :
      (states xs rest : List State) (lo i : ℕ)
      → states ≡ xs ++ rest
      → i ≡ length xs
      → length states < 2 ^ 62
      → lo ≤ end
      → Ascending lo size rest
      → All (Sent end) rest
      → Lost (may_lost_from size states i end) xs lo size end (paint recved rest)
  unfolding may_lost_from
  may_lost_from-Lost states xs rest lo i e f short low a sent =
      let cut : drop i states ≡ rest = ap (drop i) e ∙ drop-append xs rest i 0 (omega (arith, f)) in
      rw (may_lost_from, cut)
        (lost_loop-Lost rest lo i i states recved (paint recved rest) sent (record {
          xs = xs;
          ys = [];
          bound = lo;
          whole = e;
          first = f;
          next = omega (arith, f);
          short = short;
          marked = tt;
          above = omega arith;
          below = low;
          ys_ascending = empty lo lo;
          rest_ascending = a;
          before =
              λ x h. paint-nil recved x ∙ ap lose (sym (paint-below recved rest lo size x a h));
          onwards = λ x h. paint-nil recved x;
          after = λ x h. refl;
          untouched = λ _. refl;
        }))
