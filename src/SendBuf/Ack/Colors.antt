-- ===== src/SendBuf/Ack/Colors.antt =====
-- `ack_rcvd` colours what is acknowledged.
use dquic.Base.{
  ℕ, suc, ◌+◌, ◌^◌, ◌≤◌, ◌<◌, ◌≡◌, ◌≢◌, refl, ap, ◌∙◌, sym, subst, arith, false, not, if◌then◌else◌,
  List, [], ◌∷◌, ◌++◌, length, get_elem?, set, length-append, some, get_elem?-append_right, Outcome,
}
use dquic.SendBuf.State.{
  pending, recved, State, encode, offset, color, set_color, eq_color, offset-set_color,
  color-set_color,
}
use dquic.SendBuf.Map.{BufMap, same_before}
use dquic.SendBuf.Paint.{
  Ascending, paint, paint-append, paint-at, paint-below, color_at, Ascending-append,
  length-Ascending, empty, paint-nil, last_below, paint-before, Ascending-snoc, eq_color-ne,
}
use dquic.SendBuf.Splice.{append_assoc, append_nil, one_if, set-append}
use dquic.SendBuf.Neighbours.{search-lem, hit, miss, last_split}
use dquic.SendBuf.Merge.{merge-lem}
use dquic.SendBuf.Cuts.{not-other, paint-restored, Ascending-restored}
use dquic.SendBuf.Valid.{IsValid, Returns, in_range}
use dquic.SendBuf.Ack.{ack_from, ack_rcvd}
use dquic.SendBuf.Ack.Around.{ack_from-lem, All-Sent}

module _ (m : BufMap) (start end : ℕ) (v : IsValid m) (filled : start < end) (inside : end ≤ m.size)
    (sent : (x : ℕ) → start ≤ x → x < end → color_at m x ≢ pending) where
  short : length m.states < 2 ^ 62
  short = omega (arith, length-Ascending m.states 0 m.size v.ascending, v.small)

  abbrev Acked : Outcome BufMap → Type 0
  Acked r = Returns r m.size (λ x. if in_range start end x then recved else color_at m x)

  at_first :
      (ys : List State)
      → m.states ≡ ys
      → Ascending (start + 1) m.size ys
      → Acked (ack_from m start end 0 false 0 recved)
  unfolding color_at paint
  at_first ys e a =
      ack_from-lem m start end 0 false 0 recved (color_at m) filled inside v.small short (record {
        xs = [];
        mid = [];
        rest = ys;
        whole = e;
        first = refl;
        next = refl;
        head_ascending = empty 0 (start + 1);
        rest_ascending = a;
        head_old = λ x h. sym (
            ap (λ l. paint recved l x) e
            ∙ paint-below recved ys (start + 1) m.size x a (omega arith));
        head_new = λ x h. refl;
        rest_old = λ x h h'. sym (ap (λ l. paint recved l x) e);
        sent =
            All-Sent ys (start + 1) m.size end recved a
              (λ x h h' g. sent x (omega arith) h' (ap (λ l. paint recved l x) e ∙ g));
      })

  at_later :
      (ws : List State) (s : State) (ys : List State) (i : ℕ)
      → m.states ≡ ws ++ s ∷ [] ++ ys
      → suc i ≡ length (ws ++ s ∷ [])
      → Ascending 0 start (ws ++ s ∷ [])
      → Ascending (start + 1) m.size ys
      → (color s ≢ pending)
        × Acked (ack_from m start end (suc i) (not (eq_color (color s) recved)) (suc i) (color s))
  unfolding color_at
  at_later ws s ys i e f a u =
      let xs = ws ++ s ∷ [] in
      let here : (x : ℕ) → start ≤ x → paint recved xs x ≡ color s = λ x h.
        paint-append recved ws (s ∷ []) x
        ∙ paint-at (paint recved ws x) s [] x (last_below ws s start x a h)
        ∙ paint-nil (color s) x in
      let all : (x : ℕ) → paint recved m.states x ≡ paint (paint recved xs x) ys x =
        λ x. ap (λ l. paint recved l x) e ∙ paint-append recved xs ys x in
      let at_start : color_at m start ≡ color s =
        all start
        ∙ paint-below (paint recved xs start) ys (start + 1) m.size start u (omega arith)
        ∙ here start (omega arith) in
      let b = not (eq_color (color s) recved) in
      let new = one_if b (encode start recved) in
      let new_ascending : Ascending start (start + 1) new =
        subst (Ascending start (start + 1)) (append_nil new) (
          Ascending-restored start (omega (arith, v.small)) b recved [] (start + 1)
            (λ _. omega arith) (empty (start + 1) (start + 1))) in
      (
        λ g. sent start (omega arith) filled (at_start ∙ g),
        ack_from-lem m start end (suc i) b (suc i) (color s) (color_at m) filled inside v.small
            short
            (record {
              xs = xs;
              mid = [];
              rest = ys;
              whole = e;
              first = f;
              next = omega (arith, f);
              head_ascending =
                  Ascending-append xs new 0 start (start + 1) (omega arith) (omega arith) a
                    new_ascending;
              rest_ascending = u;
              head_old = λ x h.
                  paint-append recved xs new x
                  ∙ paint-below (paint recved xs x) new start (start + 1) x new_ascending h
                  ∙ sym (
                      all x
                      ∙ paint-below (paint recved xs x) ys (start + 1) m.size x u (omega arith));
              head_new = λ x h.
                  paint-append recved xs new x
                  ∙ ap (λ c. paint c new x) (here x h)
                  ∙ ap (λ l. paint (color s) l x) (sym (append_nil new))
                  ∙ paint-restored start (omega (arith, v.small)) b (color s) recved [] x
                      (λ g. sym (not-other (color s) recved g)) h
                  ∙ paint-nil recved x;
              rest_old =
                  λ x h h'. ap (λ c. paint c ys x) (sym (here x (omega arith))) ∙ sym (all x);
              sent = All-Sent ys (start + 1) m.size end (color s) u (λ x h h' g.
                  sent x (omega arith) h'
                    (all x ∙ ap (λ c. paint c ys x) (here x (omega arith)) ∙ g));
            }),
      )

  at_hit :
      (xs : List State) (s : State) (ys : List State)
      → m.states ≡ xs ++ s ∷ ys
      → Ascending 0 start xs
      → offset s ≡ start
      → Ascending (start + 1) m.size ys
      → (color s ≢ pending)
        × (let states = set m.states (length xs) (set_color s recved) in
            Acked (
              ack_from
                (record m { states = states })
                start
                end
                (same_before states (length xs) recved + 1)
                false
                (length xs + 1)
                (color s)))
  unfolding color_at
  at_hit xs s ys e a o u =
      let s' = set_color s recved in
      let o' : offset s' ≡ start = offset-set_color s recved ∙ o in
      let written : set m.states (length xs) s' ≡ xs ++ s' ∷ ys =
        ap (λ l. set l (length xs) s') e ∙ set-append xs ys s s' (length xs) refl in
      let mg =
        merge-lem recved xs s' (start + 1) (Ascending-snoc xs s' start a o')
          (color-set_color s recved) in
      let all : (x : ℕ) → paint recved m.states x ≡ paint (paint recved xs x) (s ∷ ys) x =
        λ x. ap (λ l. paint recved l x) e ∙ paint-append recved xs (s ∷ ys) x in
      let past : (x : ℕ) → start ≤ x → paint recved m.states x ≡ paint (color s) ys x =
        λ x h. all x ∙ paint-at (paint recved xs x) s ys x (omega (arith, o)) in
      let kept : (x : ℕ) → paint recved (mg.head ++ []) x ≡ paint (paint recved xs x) (s' ∷ []) x =
        λ x.
          ap (λ l. paint recved l x) (append_nil mg.head)
          ∙ mg.paints x
          ∙ paint-append recved xs (s' ∷ []) x in
      (
        λ g. sent start (omega arith) filled (
            past start (omega arith)
            ∙ paint-below (color s) ys (start + 1) m.size start u (omega arith)
            ∙ g),
        rw written (
            ack_from-lem (record { states = xs ++ s' ∷ ys; size = m.size }) start end
              (same_before (xs ++ s' ∷ ys) (length xs) recved + 1) false (length xs + 1) (color s)
              (color_at m) filled inside v.small
              (omega
                (arith, short, ap length e, length-append xs (s ∷ ys), length-append xs (s' ∷ ys)))
              (record {
                xs = mg.head;
                mid = mg.mid;
                rest = ys;
                whole =
                    sym (append_assoc xs (s' ∷ []) ys)
                    ∙ ap (λ l. l ++ ys) mg.whole
                    ∙ append_assoc mg.head mg.mid ys;
                first = omega (arith, mg.found (s' ∷ ys));
                next = omega (
                  arith,
                  ap length mg.whole,
                  length-append xs (s' ∷ []),
                  length-append mg.head mg.mid,
                );
                head_ascending =
                    subst (Ascending 0 (start + 1)) (sym (append_nil mg.head)) mg.ascending;
                rest_ascending = u;
                head_old = λ x h.
                    kept x
                    ∙ paint-before (paint recved xs x) s' [] x (omega (arith, o'))
                    ∙ paint-nil (paint recved xs x) x
                    ∙ sym (
                        all x
                        ∙ paint-before (paint recved xs x) s ys x (omega (arith, o))
                        ∙ paint-below (paint recved xs x) ys (start + 1) m.size x u (omega arith));
                head_new = λ x h.
                    kept x
                    ∙ paint-at (paint recved xs x) s' [] x (omega (arith, o'))
                    ∙ paint-nil (color s') x
                    ∙ color-set_color s recved;
                rest_old = λ x h h'. sym (past x (omega arith));
                sent =
                    All-Sent ys (start + 1) m.size end (color s) u
                      (λ x h h' g. sent x (omega arith) h' (past x (omega arith) ∙ g));
              })),
      )

  -- Of a valid map, the acknowledgement of a range that is not empty, ends within the size and covers
  -- nothing pending returns a valid map of the same size, in which the range has been received and no
  -- other colour has changed.
  pub ack_rcvd-Returns :
      Returns
        (ack_rcvd m start end)
        m.size
        (λ x. if in_range start end x then recved else color_at m x)
  unfolding ack_rcvd
  ack_rcvd-Returns = elim (search-lem m.states 0 m.size start v.ascending) [
    | hit xs s ys e f a o u ↦
        let (fresh, r) = at_hit xs s ys e a o u in
        let here : get_elem? m.states (length xs) ≡ some s =
          ap (λ l. get_elem? l (length xs)) e
          ∙ get_elem?-append_right xs (s ∷ ys) (length xs) 0 (omega arith) in
        rw (ack_rcvd, f, here, eq_color-ne (color s) pending fresh) r
    | miss [] ys e f a u ↦ rw (ack_rcvd, f) (at_first ys e u)
    | miss (x ∷ xs) ys e f a u ↦
        let (ws, s, g, n) = last_split (length xs) (x ∷ xs) refl in
        let e' : m.states ≡ ws ++ s ∷ [] ++ ys = e ∙ ap (λ l. l ++ ys) g in
        let (fresh, r) =
          at_later ws s ys (length xs) e' (ap length g) (subst (Ascending 0 start) g a) u in
        let here : get_elem? m.states (length xs) ≡ some s =
          ap (λ l. get_elem? l (length xs)) (e' ∙ append_assoc ws (s ∷ []) ys)
          ∙ get_elem?-append_right ws (s ∷ ys) (length xs) 0 (omega (arith, n)) in
        rw (ack_rcvd, f, here, eq_color-ne (color s) pending fresh) r
  ]
