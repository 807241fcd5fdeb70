-- ===== src/SendBuf/Loss/Cases.antt =====
-- `may_loss` on a range that starts within a state, or before all of them.
use dquic.Base.{
  ℕ, suc, ◌+◌, ◌^◌, ◌≤◌, ◌<◌, ◌≡◌, ◌≢◌, refl, ap, ◌∙◌, sym, subst, arith, if◌then◌else◌, List, [],
  ◌∷◌, ◌++◌, length, dec_lt, le→leb, lt→leb, Outcome,
}
use dquic.SendBuf.State.{pending, recved, flighting, lost, State, encode, color, eq_color}
use dquic.SendBuf.Map.{BufMap}
use dquic.SendBuf.Paint.{
  Ascending, paint, paint-append, paint-at, paint-below, color_at, Ascending-append,
  length-Ascending, empty, paint-nil, last_below,
}
use dquic.SendBuf.Splice.{append_nil, one_if}
use dquic.SendBuf.Cuts.{paint-restored, Ascending-restored}
use dquic.SendBuf.Valid.{IsValid, Returns, in_range}
use dquic.SendBuf.Loss.{loss_from, lost_after}
use dquic.SendBuf.Loss.Tail.{lose, lose-same, lose-lost}
use dquic.SendBuf.Loss.From.{may_lost_from-Lost}
use dquic.SendBuf.Ack.Around.{All-Sent}
use dquic.SendBuf.Loss.Around.{loss_from-lem}

-- The colours of the range are lost, those outside stay.
abbrev pub Gone : BufMap → ℕ → ℕ → Outcome BufMap → Type 0
Gone m start end r =
    Returns r m.size (λ x. if in_range start end x then lose (color_at m x) else color_at m x)

pub length-states : (m : BufMap) → IsValid m → length m.states < 2 ^ 62
length-states m v = omega (arith, length-Ascending m.states 0 m.size v.ascending, v.small)

module _ (m : BufMap) (start end : ℕ) (v : IsValid m) (filled : start < end) (inside : end ≤ m.size)
    (sent : (x : ℕ) → start ≤ x → x < end → color_at m x ≢ pending) where
  short : length m.states < 2 ^ 62
  short = length-states m v

  -- After states of which the last has been received, or after none.
  pub after_recved :
      (xs ys : List State) (i : ℕ)
      → m.states ≡ xs ++ ys
      → i ≡ length xs
      → Ascending 0 (start + 1) xs
      → Ascending (start + 1) m.size ys
      → ((x : ℕ) → start ≤ x → paint recved xs x ≡ recved)
      → Gone m start end (lost_after m i end)
  unfolding color_at lost_after
  after_recved xs ys i e f a u h =
      let all : (x : ℕ) → paint recved m.states x ≡ paint (paint recved xs x) ys x =
        λ x. ap (λ l. paint recved l x) e ∙ paint-append recved xs ys x in
      let now : (x : ℕ) → start ≤ x → paint recved m.states x ≡ paint recved ys x =
        λ x g. all x ∙ ap (λ c. paint c ys x) (h x g) in
      let t =
        may_lost_from-Lost m.size end inside v.small m.states xs ys (start + 1) i e f short
          (omega arith) u
          (All-Sent ys (start + 1) m.size end recved u
            (λ x g g' p. sent x (omega arith) g' (now x (omega arith) ∙ p))) in
      record {
        after = record { states = xs ++ t.out; size = m.size };
        returned = rw (lost_after, t.returned) refl;
        valid = record {
          ascending =
              Ascending-append xs t.out 0 (start + 1) m.size (omega arith) (omega arith) a
                t.ascending;
          small = v.small;
        };
        sized = refl;
        painted = λ x g. paint-append recved xs t.out x ∙ elim (dec_lt x start) [
          | yes low ↦ rw (lt→leb start x low) (
              paint-below (paint recved xs x) t.out (start + 1) m.size x t.ascending (omega arith)
              ∙ sym
                  (all x ∙ paint-below (paint recved xs x) ys (start + 1) m.size x u (omega arith)))
          | no up ↦
              rw (le→leb start x (omega arith), now x (omega arith), h x (omega arith))
                (t.painted x g)
        ];
      }

  pub at_later :
      (ws : List State) (s : State) (ys : List State) (i : ℕ)
      → m.states ≡ ws ++ s ∷ [] ++ ys
      → suc i ≡ length (ws ++ s ∷ [])
      → Ascending 0 start (ws ++ s ∷ [])
      → Ascending (start + 1) m.size ys
      → (color s ≢ pending)
        × (color s ≢ recved
            → Gone m start end
                (loss_from m start end (suc i) (eq_color (color s) flighting) (suc i) (color s)))
  unfolding color_at
  at_later ws s ys i e f a u =
      let xs = ws ++ s ∷ [] in
      let here : (x : ℕ) → start ≤ x → paint recved xs x ≡ color s = λ x h.
        paint-append recved ws (s ∷ []) x
        ∙ paint-at (paint recved ws x) s [] x (last_below ws s start x a h)
        ∙ paint-nil (color s) x in
      let all : (x : ℕ) → paint recved m.states x ≡ paint (paint recved xs x) ys x =
        λ x. ap (λ l. paint recved l x) e ∙ paint-append recved xs ys x in
      let at_start : color_at m start ≡ color s =
        all start
        ∙ paint-below (paint recved xs start) ys (start + 1) m.size start u (omega arith)
        ∙ here start (omega arith) in
      let b = eq_color (color s) flighting in
      let new = one_if b (encode start lost) in
      let new_ascending : Ascending start (start + 1) new =
        subst (Ascending start (start + 1)) (append_nil new) (
          Ascending-restored start (omega (arith, v.small)) b lost [] (start + 1) (λ _. omega arith)
            (empty (start + 1) (start + 1))) in
      (
        λ g. sent start (omega arith) filled (at_start ∙ g),
        λ kept.
            let turned =
              lose-lost (color s) (λ g. sent start (omega arith) filled (at_start ∙ g)) kept in
            loss_from-lem m start end (suc i) b (suc i) (color s) (color_at m) filled inside v.small
              short
              (record {
                xs = xs;
                mid = [];
                is_lost = turned;
                rest = ys;
                whole = e;
                first = f;
                next = omega (arith, f);
                head_ascending =
                    Ascending-append xs new 0 start (start + 1) (omega arith) (omega arith) a
                      new_ascending;
                rest_ascending = u;
                head_old = λ x h.
                    paint-append recved xs new x
                    ∙ paint-below (paint recved xs x) new start (start + 1) x new_ascending h
                    ∙ sym (
                        all x
                        ∙ paint-below (paint recved xs x) ys (start + 1) m.size x u (omega arith));
                head_new = λ x h.
                    paint-append recved xs new x
                    ∙ ap (λ c. paint c new x) (here x h)
                    ∙ ap (λ l. paint (color s) l x) (sym (append_nil new))
                    ∙ paint-restored start (omega (arith, v.small)) b (color s) lost [] x
                        (λ g. sym turned ∙ lose-same (color s) g) h
                    ∙ paint-nil lost x;
                rest_old = λ x h. all x ∙ ap (λ c. paint c ys x) (here x (omega arith));
                sent = All-Sent ys (start + 1) m.size end (color s) u (λ x h h' g.
                    sent x (omega arith) h'
                      (all x ∙ ap (λ c. paint c ys x) (here x (omega arith)) ∙ g));
              }),
      )
