-- ===== src/SendBuf/Loss/Hit.antt =====
-- `may_loss` on a range that starts with a state.
use dquic.Base.{
  ℕ, ◌+◌, ◌^◌, ◌≤◌, ◌<◌, ◌≡◌, ◌≢◌, refl, ap, ◌∙◌, sym, subst, arith, false, List, [], ◌∷◌, ◌++◌,
  length, set, length-append,
}
use dquic.SendBuf.State.{
  pending, recved, flighting, lost, State, offset, color, set_color, offset-set_color,
  color-set_color,
}
use dquic.SendBuf.Map.{BufMap, same_before}
use dquic.SendBuf.Paint.{
  Ascending, paint, paint-append, paint-at, paint-below, color_at, paint-nil, paint-before,
  Ascending-snoc,
}
use dquic.SendBuf.Splice.{append_assoc, append_nil, set-append}
use dquic.SendBuf.Merge.{merge-lem}
use dquic.SendBuf.Valid.{IsValid}
use dquic.SendBuf.Loss.{loss_from, lost_after}
use dquic.SendBuf.Ack.Around.{All-Sent}
use dquic.SendBuf.Loss.Around.{loss_from-lem}
use dquic.SendBuf.Loss.Cases.{Gone, length-states, after_recved}

module _ (m : BufMap) (start end : ℕ) (v : IsValid m) (filled : start < end) (inside : end ≤ m.size)
    (sent : (x : ℕ) → start ≤ x → x < end → color_at m x ≢ pending) where
  short : length m.states < 2 ^ 62
  short = length-states m v

  pub at_hit :
      (xs : List State) (s : State) (ys : List State)
      → m.states ≡ xs ++ s ∷ ys
      → Ascending 0 start xs
      → offset s ≡ start
      → Ascending (start + 1) m.size ys
      → (color s ≢ pending)
        × (color s ≡ recved → Gone m start end (lost_after m (length xs + 1) end))
        × (color s ≡ lost
            → Gone m start end
                (loss_from m start end (length xs + 1) false (length xs + 1) (color s)))
        × (let states = set m.states (length xs) (set_color s lost) in
            color s ≡ flighting
            → Gone m start end (
                loss_from
                  (record m { states = states })
                  start
                  end
                  (same_before states (length xs) lost + 1)
                  false
                  (length xs + 1)
                  (color s)))
  unfolding color_at
  at_hit xs s ys e a o u =
      let s' = set_color s lost in
      let o' : offset s' ≡ start = offset-set_color s lost ∙ o in
      let written : set m.states (length xs) s' ≡ xs ++ s' ∷ ys =
        ap (λ l. set l (length xs) s') e ∙ set-append xs ys s s' (length xs) refl in
      let mg =
        merge-lem lost xs s' (start + 1) (Ascending-snoc xs s' start a o')
          (color-set_color s lost) in
      let all : (x : ℕ) → paint recved m.states x ≡ paint (paint recved xs x) (s ∷ ys) x =
        λ x. ap (λ l. paint recved l x) e ∙ paint-append recved xs (s ∷ ys) x in
      let past : (x : ℕ) → start ≤ x → paint recved m.states x ≡ paint (color s) ys x =
        λ x h. all x ∙ paint-at (paint recved xs x) s ys x (omega (arith, o)) in
      let snoc : m.states ≡ xs ++ s ∷ [] ++ ys = e ∙ sym (append_assoc xs (s ∷ []) ys) in
      let late_sent =
        All-Sent ys (start + 1) m.size end (color s) u
          (λ x h h' g. sent x (omega arith) h' (past x (omega arith) ∙ g)) in
      let kept : (x : ℕ) → paint recved (mg.head ++ []) x ≡ paint (paint recved xs x) (s' ∷ []) x =
        λ x.
          ap (λ l. paint recved l x) (append_nil mg.head)
          ∙ mg.paints x
          ∙ paint-append recved xs (s' ∷ []) x in
      (
        λ g. sent start (omega arith) filled (
            past start (omega arith)
            ∙ paint-below (color s) ys (start + 1) m.size start u (omega arith)
            ∙ g),
        λ g.
            after_recved m start end v filled inside sent (xs ++ s ∷ []) ys (length xs + 1) snoc
              (omega (arith, length-append xs (s ∷ []))) (Ascending-snoc xs s start a o) u
              (λ x h.
                paint-append recved xs (s ∷ []) x
                ∙ paint-at (paint recved xs x) s [] x (omega (arith, o))
                ∙ paint-nil (color s) x
                ∙ g),
        λ g.
            loss_from-lem m start end (length xs + 1) false (length xs + 1) (color s) (color_at m)
              filled inside v.small short
              (record {
                xs = xs ++ s ∷ [];
                mid = [];
                rest = ys;
                whole = snoc;
                first = omega (arith, length-append xs (s ∷ []));
                next = omega (arith, length-append xs (s ∷ []));
                is_lost = rw g refl;
                head_ascending =
                    subst (Ascending 0 (start + 1)) (sym (append_nil (xs ++ s ∷ [])))
                      (Ascending-snoc xs s start a o);
                rest_ascending = u;
                head_old = λ x h.
                    ap (λ l. paint recved l x) (append_nil (xs ++ s ∷ []))
                    ∙ sym (
                        ap (λ l. paint recved l x) snoc
                        ∙ paint-append recved (xs ++ s ∷ []) ys x
                        ∙ paint-below (paint recved (xs ++ s ∷ []) x) ys (start + 1) m.size x u
                            (omega arith));
                head_new = λ x h.
                    ap (λ l. paint recved l x) (append_nil (xs ++ s ∷ []))
                    ∙ paint-append recved xs (s ∷ []) x
                    ∙ paint-at (paint recved xs x) s [] x (omega (arith, o))
                    ∙ paint-nil (color s) x
                    ∙ g;
                rest_old = λ x h. past x h;
                sent = late_sent;
              }),
        λ g. rw written (
            loss_from-lem (record { states = xs ++ s' ∷ ys; size = m.size }) start end
              (same_before (xs ++ s' ∷ ys) (length xs) lost + 1) false (length xs + 1) (color s)
              (color_at m) filled inside v.small
              (omega
                (arith, short, ap length e, length-append xs (s ∷ ys), length-append xs (s' ∷ ys)))
              (record {
                xs = mg.head;
                mid = mg.mid;
                is_lost = rw g refl;
                rest = ys;
                whole =
                    sym (append_assoc xs (s' ∷ []) ys)
                    ∙ ap (λ l. l ++ ys) mg.whole
                    ∙ append_assoc mg.head mg.mid ys;
                first = omega (arith, mg.found (s' ∷ ys));
                next = omega (
                  arith,
                  ap length mg.whole,
                  length-append xs (s' ∷ []),
                  length-append mg.head mg.mid,
                );
                head_ascending =
                    subst (Ascending 0 (start + 1)) (sym (append_nil mg.head)) mg.ascending;
                rest_ascending = u;
                head_old = λ x h.
                    kept x
                    ∙ paint-before (paint recved xs x) s' [] x (omega (arith, o'))
                    ∙ paint-nil (paint recved xs x) x
                    ∙ sym (
                        all x
                        ∙ paint-before (paint recved xs x) s ys x (omega (arith, o))
                        ∙ paint-below (paint recved xs x) ys (start + 1) m.size x u (omega arith));
                head_new = λ x h.
                    kept x
                    ∙ paint-at (paint recved xs x) s' [] x (omega (arith, o'))
                    ∙ paint-nil (color s') x
                    ∙ color-set_color s lost;
                rest_old = λ x h. past x h;
                sent = late_sent;
              })),
      )
