-- ===== src/SendBuf/Loss/Marks.antt =====
-- The loop of `may_lost_from` marks what it passes as lost, and starts again after a received state.
use dquic.Base.{
  ℕ, ◌+◌, ◌≤◌, ◌<◌, ◌≡◌, ◌≢◌, refl, ap, ◌∙◌, sym, arith, false, List, [], ◌∷◌, ◌++◌, length, set,
  dec_lt, length-append, length-set, lt→ltb, All-append, ret,
}
use dquic.SendBuf.State.{
  Color, pending, recved, lost, State, encode, offset, color, set_color, offset-set_color,
  color-set_color,
}
use dquic.SendBuf.Paint.{
  Ascending, Has, paint, paint-append, paint-at, paint-before, paint-below, paint-nil,
  Ascending-append, Ascending-weaken,
}
use dquic.SendBuf.Splice.{append_assoc, append_nil, set-append}
use dquic.SendBuf.Loss.{lost_loop}
use dquic.SendBuf.Loss.Tail.{lose, lose-lost, kept, close-parts, Lost, Round, end-Lost}
use dquic.SendBuf.Loss.Rounds.{Ascending-at}

module _ (size end i j lo : ℕ) (states : List State) (pre : Color) (s : State) (rest : List State)
    (old : ℕ → Color) (r : Round states lo size end i j pre (s ∷ rest) old)
    (below : offset s < end) where
  -- The round that follows a state that is marked.
  pub Round-marked :
      color s ≢ pending
      → color s ≢ recved
      → (q : Round (set states j (set_color s lost)) lo size end i (j + 1) (color s) rest old)
        × (q.xs ≡ r.xs)
  unfolding Ascending
  Round-marked sent missing =
      let s' = set_color s lost in
      let at : offset s' ≡ offset s = offset-set_color s lost in
      let up = r.rest_ascending in
      let made : set states j s' ≡ r.xs ++ (r.ys ++ s' ∷ [] ++ rest) =
        ap (λ l. set l j s') (r.whole ∙ sym (append_assoc r.xs r.ys (s ∷ rest)))
        ∙ set-append (r.xs ++ r.ys) rest s s' j (omega (arith, r.next, length-append r.xs r.ys))
        ∙ append_assoc r.xs r.ys (s' ∷ rest)
        ∙ ap (λ l. r.xs ++ l) (sym (append_assoc r.ys (s' ∷ []) rest)) in
      let is_lost : lose (color s) ≡ lost = lose-lost (color s) sent missing in
      (
        record {
          xs = r.xs;
          ys = r.ys ++ s' ∷ [];
          bound = offset s + 1;
          whole = made;
          first = r.first;
          next = omega (arith, r.next, length-append r.ys (s' ∷ []));
          short = omega (arith, r.short, length-set states j s');
          marked = All-append (Has lost) r.ys (s' ∷ []) r.marked (color-set_color s lost, tt);
          above = omega (arith, r.above, up.0);
          below = omega arith;
          ys_ascending =
              Ascending-append r.ys (s' ∷ []) lo (offset s) (offset s + 1) (omega arith)
                (omega (arith, r.above, up.0))
                (Ascending-weaken r.ys lo lo r.bound (offset s) (omega arith) up.0 r.ys_ascending)
                (omega (arith, at), omega (arith, at), tt);
          rest_ascending = up.2;
          before = λ x h. paint-append recved r.ys (s' ∷ []) x ∙ elim (dec_lt x (offset s)) [
            | yes early ↦
                paint-before (paint recved r.ys x) s' [] x (omega (arith, at))
                ∙ paint-nil (paint recved r.ys x) x
                ∙ elim (dec_lt x r.bound) [
                  | yes first ↦ r.before x first
                  | no then_on ↦
                      r.onwards x (omega arith)
                      ∙ ap lose (
                          sym (
                            r.after x (omega arith)
                            ∙ paint-below pre (s ∷ rest) (offset s) size x
                                (Ascending-at s rest r.bound size (offset s) refl up) early))
                ]
            | no here ↦
                paint-at (paint recved r.ys x) s' [] x (omega (arith, at))
                ∙ paint-nil (color s') x
                ∙ color-set_color s lost
                ∙ sym is_lost
                ∙ ap lose (
                    sym (
                      r.after x (omega (arith, up.0))
                      ∙ paint-at pre s rest x (omega arith)
                      ∙ paint-below (color s) rest (offset s + 1) size x up.2 h))
          ];
          onwards = λ x h.
              paint-append recved r.ys (s' ∷ []) x
              ∙ paint-at (paint recved r.ys x) s' [] x (omega (arith, at))
              ∙ paint-nil (color s') x
              ∙ color-set_color s lost
              ∙ sym is_lost;
          after = λ x h. r.after x (omega (arith, up.0)) ∙ paint-at pre s rest x (omega arith);
          untouched = λ e. absurd (omega (arith, ap length e, length-append r.ys (s' ∷ [])));
        },
        refl,
      )

  -- The first round after a received state.
  pub Round-skipped :
      color s ≡ recved
      → (q : Round states (offset s + 1) size end (j + 1) (j + 1) recved rest (paint recved rest))
        × (q.xs ≡ r.xs ++ (r.ys ++ s ∷ []))
  unfolding Ascending
  Round-skipped e = (
    record {
      xs = r.xs ++ (r.ys ++ s ∷ []);
      ys = [];
      bound = offset s + 1;
      whole =
          r.whole
          ∙ ap (λ l. r.xs ++ l) (sym (append_assoc r.ys (s ∷ []) rest))
          ∙ sym (append_assoc r.xs (r.ys ++ s ∷ []) rest);
      first =
          omega (arith, r.next, length-append r.xs (r.ys ++ s ∷ []), length-append r.ys (s ∷ []));
      next =
          omega (arith, r.next, length-append r.xs (r.ys ++ s ∷ []), length-append r.ys (s ∷ []));
      short = r.short;
      marked = tt;
      above = omega arith;
      below = omega arith;
      ys_ascending = tt;
      rest_ascending = r.rest_ascending.2;
      before = λ x h.
          paint-nil recved x
          ∙ ap lose (sym (paint-below recved rest (offset s + 1) size x r.rest_ascending.2 h));
      onwards = λ x h. paint-nil recved x;
      after = λ x h. refl;
      untouched = λ _. refl;
    },
    refl,
  )

  -- A received state stays, with what the loop makes of the states after it.
  pub Round-recved :
      color s ≡ recved
      → end ≤ size
      → (t : Lost
          (lost_loop size end states (j + 1) (j + 1) recved rest)
          (r.xs ++ (r.ys ++ s ∷ []))
          (offset s + 1)
          size
          end
          (paint recved rest))
      → Lost (lost_loop size end states i j pre (s ∷ rest)) r.xs lo size end old
  unfolding Ascending lost_loop
  Round-recved e inside t =
      let up = r.rest_ascending in
      let after_all : r.xs ++ (r.ys ++ s ∷ []) ++ t.out ≡ r.xs ++ (r.ys ++ s ∷ t.out) =
        append_assoc r.xs (r.ys ++ s ∷ []) t.out
        ∙ ap (λ l. r.xs ++ l) (append_assoc r.ys (s ∷ []) t.out) in
      end-Lost r [] (s ∷ t.out) (offset s) (lost_loop size end states i j pre (s ∷ rest))
        (rw (lost_loop, lt→ltb (offset s) end below, e, t.returned, after_all)
          (close-parts r.xs r.ys (s ∷ t.out) i j false (encode end recved) r.first r.next
              (λ _. refl)
            ∙ ap (λ l. ret (r.xs ++ (kept l ++ s ∷ t.out))) (sym (append_nil r.ys))))
        tt inside up.0 (omega arith) (omega arith, up.1, t.ascending)
        (λ x g g'.
          r.after x g
          ∙ paint-below pre (s ∷ rest) (offset s) size x
              (Ascending-at s rest r.bound size (offset s) refl up) g')
        (λ x g g'.
          let now : old x ≡ paint recved rest x =
            r.after x (omega (arith, up.0))
            ∙ paint-at pre s rest x g
            ∙ ap (λ c. paint c rest x) e in
          rw now (paint-at (lose pre) s t.out x g ∙ ap (λ c. paint c t.out x) e ∙ t.painted x g'))
