-- ===== src/SendBuf/Loss/Rounds.antt =====
-- The loop of `may_lost_from`.
use dquic.Base.{
  ℕ, ◌+◌, ◌^◌, ◌≤◌, ◌<◌, ◌≡◌, refl, ap, ◌∙◌, sym, subst, arith, Bool, true, false, List, [], ◌∷◌,
  ◌++◌, length, length-append, le→ltb, eq→==, Outcome, ret,
}
use dquic.SendBuf.State.{Color, recved, lost, State, encode, offset}
use dquic.SendBuf.Paint.{Ascending, paint, paint-at, paint-below, Ascending-weaken}
use dquic.SendBuf.Splice.{append_assoc, append_nil, one_if}
use dquic.SendBuf.Cuts.{paint-restored, Ascending-restored, same_after-lem}
use dquic.SendBuf.Loss.{close, lost_loop}
use dquic.SendBuf.Loss.Tail.{lose, kept, close-parts, Lost, Round, end-Lost}

pub Ascending-at :
    (s : State) (rest : List State) (lo hi at : ℕ)
    → offset s ≡ at
    → Ascending lo hi (s ∷ rest)
    → Ascending at hi (s ∷ rest)
unfolding Ascending
Ascending-at s rest lo hi at e a = (omega (arith, e), a.1, a.2)

module _ (size end : ℕ) (inside : end ≤ size) (small : size < 2 ^ 62) where
  -- The loop stops before `rest`.
  pub Round-stop :
      (states : List State) (lo i j : ℕ) (pre : Color) (rest : List State) (old : ℕ → Color)
      (b : Bool) (call : Outcome (List State)) (r : Round states lo size end i j pre rest old)
      → call ≡ close states i j b (encode end pre)
      → Ascending (end + 1) size rest
      → (b ≡ true → end < size)
      → (b ≡ false → end < size → pre ≡ lose pre)
      → (pre ≡ recved → b ≡ false)
      → Lost call r.xs lo size end old
  Round-stop states lo i j pre rest old b call r e up h h' h'' =
      let last = one_if b (encode end pre) in
      let stopped : close states i j b (encode end pre)
          ≡ ret (r.xs ++ (kept (r.ys ++ []) ++ (last ++ rest))) =
        ap (λ l. close l i j b (encode end pre)) r.whole
        ∙ close-parts r.xs r.ys rest i j b (encode end pre) r.first r.next
            (λ n. h'' (r.untouched n))
        ∙ ap (λ l. ret (r.xs ++ (kept l ++ (last ++ rest)))) (sym (append_nil r.ys)) in
      let above : Ascending end size rest =
        Ascending-weaken rest (end + 1) end size size (omega arith) (omega arith) up in
      end-Lost r [] (last ++ rest) end call (e ∙ stopped) tt inside r.below (omega arith)
        (Ascending-restored end (omega arith) b pre rest size h up)
        (λ x g g'. r.after x g ∙ paint-below pre rest end size x above g')
        (λ x g g'. rw (le→ltb x end g) (
          paint-restored end (omega arith) b (lose pre) pre rest x (λ n. h' n (omega arith)) g
          ∙ sym (r.after x (omega (arith, r.below)))))

  -- The loop stops at the state at `end`, with the lost states from there on.
  pub Round-at :
      (states : List State) (lo i j : ℕ) (pre : Color) (s : State) (rest : List State)
      (old : ℕ → Color) (r : Round states lo size end i j pre (s ∷ rest) old)
      → offset s ≡ end
      → Lost (lost_loop size end states i j pre (s ∷ rest)) r.xs lo size end old
  unfolding lost_loop
  Round-at states lo i j pre s rest old r at =
      let a =
        same_after-lem states (r.xs ++ r.ys) (s ∷ rest) j lost
          (r.whole ∙ sym (append_assoc r.xs r.ys (s ∷ rest)))
          (omega (arith, r.next, length-append r.xs r.ys)) r.short in
      let whole : states ≡ r.xs ++ (r.ys ++ a.run ++ a.post) =
        r.whole
        ∙ ap (λ l. r.xs ++ (r.ys ++ l)) a.whole
        ∙ ap (λ l. r.xs ++ l) (sym (append_assoc r.ys a.run a.post)) in
      let above : Ascending end size (a.run ++ a.post) =
        subst (Ascending end size) a.whole
          (Ascending-at s rest r.bound size end at r.rest_ascending) in
      end-Lost r a.run a.post end (lost_loop size end states i j pre (s ∷ rest))
        (rw (lost_loop, le→ltb (offset s) end (omega (arith, at)), eq→== (offset s) end at, a.found)
          (ap (λ l. close l i (j + length a.run) false (encode end pre)) whole
            ∙ close-parts r.xs (r.ys ++ a.run) a.post i (j + length a.run) false (encode end pre)
                r.first (omega (arith, r.next, length-append r.ys a.run)) (λ _. refl)))
        a.alike inside r.below (omega arith) above
        (λ x g g'.
          r.after x g
          ∙ paint-below pre (s ∷ rest) end size x (subst (Ascending end size) (sym a.whole) above)
              g')
        (λ x g g'. rw (le→ltb x end g) (
          ap (λ l. paint (lose pre) l x) (sym a.whole)
          ∙ paint-at (lose pre) s rest x (omega (arith, at))
          ∙ sym (paint-at pre s rest x (omega (arith, at)))
          ∙ sym (r.after x (omega (arith, r.below)))))
