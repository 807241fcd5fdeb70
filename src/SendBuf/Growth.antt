-- ===== src/SendBuf/Growth.antt =====
-- `extend_to` and `shift` in terms of the colours.
use dquic.Base.{
  ℕ, ◌+◌, ◌^◌, ◌≤◌, ◌<◌, ◌≡◌, ◌≢◌, refl, ap, ◌∙◌, sym, arith, true, false, ltb, if◌then◌else◌, inl,
  inr, Bool-cases, List, [], ◌∷◌, ◌++◌, dec_lt, dec_le, lt→ltb, le→ltb, le→leb,
}
use dquic.SendBuf.State.{
  Color, pending, recved, State, encode, offset, color, eq_color, offset-encode, color-encode,
}
use dquic.SendBuf.Map.{BufMap, back, is_pending, extend_to}
use dquic.SendBuf.Paint.{
  Ascending, paint, paint-append, paint-at, paint-before, paint-below, paint-last, paint-nil,
  color_at, last_color, eq_color-eq, Ascending-append, Ascending-weaken, Ascending-cons, empty,
}
use dquic.SendBuf.Valid.{IsValid, Returns}
use dquic.SendBuf.Ack.{pop_recved, shift, first_offset}

back-last :
    (c : Color) (states : List State)
    → is_pending (back states) ≡ true
    → last_color c states ≡ pending
back-last c [] h = cc
back-last c (s ∷ []) h = eq_color-eq (color s) pending h
back-last c (s ∷ s' ∷ rest) h = back-last (color s) (s' ∷ rest) h

-- What is added is pending.
pub extend_to-Returns :
    (m : BufMap) (pos : ℕ)
    → IsValid m
    → m.size ≤ pos
    → pos < 2 ^ 62
    → Returns (extend_to m pos) pos (λ x. if ltb x m.size then color_at m x else pending)
unfolding extend_to color_at
extend_to-Returns m pos v h small = elim (dec_lt m.size pos) [
  | no same ↦ record {
    after = m;
    returned =
        rw
          (
            extend_to,
            lt→ltb pos (2 ^ 62) small,
            le→leb m.size pos h,
            le→ltb m.size pos (omega arith),
          )
          refl;
    valid = v;
    sized = omega arith;
    painted = λ x l. rw (lt→ltb x m.size (omega arith)) refl;
  }
  | yes more ↦ elim (Bool-cases (is_pending (back m.states))) [
    | inl p ↦ record {
      after = record { states = m.states; size = pos };
      returned =
          rw (extend_to, lt→ltb pos (2 ^ 62) small, le→leb m.size pos h, lt→ltb m.size pos more, p)
            refl;
      valid = record {
        ascending = Ascending-weaken m.states 0 0 m.size pos (omega arith) h v.ascending;
        small = small;
      };
      sized = refl;
      painted = λ x l. elim (dec_lt x m.size) [
        | yes old ↦ rw (lt→ltb x m.size old) refl
        | no new ↦ rw (le→ltb x m.size (omega arith)) (
            paint-last recved m.states 0 m.size x v.ascending (omega arith)
            ∙ back-last recved m.states p)
      ];
    }
    | inr p ↦
        let s = encode m.size pending in
        let at : offset s ≡ m.size = offset-encode m.size pending v.small in
        record {
          after = record { states = m.states ++ s ∷ []; size = pos };
          returned =
              rw
                (
                  extend_to,
                  lt→ltb pos (2 ^ 62) small,
                  le→leb m.size pos h,
                  lt→ltb m.size pos more,
                  p,
                )
                refl;
          valid = record {
            ascending =
                Ascending-append m.states (s ∷ []) 0 m.size pos h (omega arith) v.ascending
                  (Ascending-cons s [] m.size pos at more (empty (m.size + 1) pos));
            small = small;
          };
          sized = refl;
          painted = λ x l. paint-append recved m.states (s ∷ []) x ∙ elim (dec_lt x m.size) [
            | yes old ↦ rw (lt→ltb x m.size old) (
                paint-before (paint recved m.states x) s [] x (omega (arith, at))
                ∙ paint-nil (paint recved m.states x) x)
            | no new ↦ rw (le→ltb x m.size (omega arith)) (
                paint-at (paint recved m.states x) s [] x (omega (arith, at))
                ∙ paint-nil (color s) x
                ∙ color-encode m.size pending v.small)
          ];
        }
  ]
]

-- The position that `shift` returns is the first that has not been received, or the end.
pub record Shifted (m : BufMap) (n : BufMap) (pos : ℕ) : Type 0 where
  pub valid : IsValid n
  pub sized : n.size ≡ m.size
  pub same : (x : ℕ) → color_at n x ≡ color_at m x
  pub inside : pos ≤ m.size
  pub received : (x : ℕ) → x < pos → color_at m x ≡ recved
  pub missing : pos < m.size → color_at m pos ≢ recved

pop_recved-lem :
    (states : List State) (lo hi : ℕ)
    → lo ≤ hi
    → Ascending lo hi states
    → Ascending lo hi (pop_recved states)
      × ((x : ℕ) → paint recved (pop_recved states) x ≡ paint recved states x)
      × (lo ≤ first_offset (pop_recved states) hi)
      × (first_offset (pop_recved states) hi ≤ hi)
      × ((x : ℕ) → x < first_offset (pop_recved states) hi → paint recved states x ≡ recved)
      × (first_offset (pop_recved states) hi < hi
          → paint recved states (first_offset (pop_recved states) hi) ≢ recved)
unfolding pop_recved Ascending
pop_recved-lem [] lo hi h a =
    (tt, λ x. refl, h, omega arith, λ x g. paint-nil recved x, λ g. absurd (omega arith))
pop_recved-lem (s ∷ states) lo hi h a = elim (Bool-cases (eq_color (color s) recved)) [
  | inl e ↦
      let r = pop_recved-lem states (offset s + 1) hi (omega (arith, a.1)) a.2 in
      let gone : (x : ℕ) → paint recved (s ∷ states) x ≡ paint recved states x = λ x.
        elim (dec_le (offset s) x) [
          | yes at ↦
              paint-at recved s states x at
              ∙ ap (λ c. paint c states x) (eq_color-eq (color s) recved e)
          | no before ↦ paint-before recved s states x (omega arith)
        ] in
      rw (pop_recved, e)
        (
          Ascending-weaken (pop_recved states) (offset s + 1) lo hi hi (omega (arith, a.0))
              (omega arith) r.0,
          λ x. r.1 x ∙ sym (gone x),
          omega (arith, a.0, r.2),
          r.3,
          λ x g. gone x ∙ r.4 x g,
          λ g p. r.5 g (sym (gone _) ∙ p),
        )
  | inr e ↦
      rw (pop_recved, e)
        (
          a,
          λ x. refl,
          a.0,
          omega (arith, a.1),
          λ x g. paint-below recved (s ∷ states) (offset s) hi x (omega arith, a.1, a.2) g,
          λ g p.
              (let k : color s ≡ recved =
                  sym (
                    paint-at recved s states (offset s) (omega arith)
                    ∙ paint-below (color s) states (offset s + 1) hi (offset s) a.2 (omega arith))
                  ∙ p in
                let k' : false ≡ true = sym e ∙ ap (λ c. eq_color c recved) k in cc),
        )
]

pub shift-Shifted : (m : BufMap) → IsValid m → Shifted m (shift m).0 (shift m).1
unfolding shift color_at
shift-Shifted m v =
    let r = pop_recved-lem m.states 0 m.size (omega arith) v.ascending in
    record {
      valid = record { ascending = r.0; small = v.small };
      sized = refl;
      same = r.1;
      inside = r.3;
      received = r.4;
      missing = r.5;
    }
