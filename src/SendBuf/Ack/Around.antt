-- ===== src/SendBuf/Ack/Around.antt =====
-- What `ack_rcvd` does from its loop on.
use dquic.Base.{
  ℕ, ◌+◌, ◌^◌, ◌≤◌, ◌<◌, ◌≡◌, ◌≢◌, refl, ap, ◌∙◌, sym, arith, Bool, if◌then◌else◌, List, [], ◌∷◌,
  ◌++◌, length, All, dec_lt, length-append, le→leb, lt→leb, lt→ltb, le→ltb, ret, drop, Outcome,
  ◌>>=◌,
}
use dquic.SendBuf.State.{Color, pending, recved, State, encode, offset, color}
use dquic.SendBuf.Map.{BufMap}
use dquic.SendBuf.Paint.{
  Ascending, paint, paint-append, paint-at, paint-below, color_at, Ascending-append,
  Ascending-weaken,
}
use dquic.SendBuf.Splice.{append_assoc, one_if, finish-parts, drop-append}
use dquic.SendBuf.Cuts.{Sent}
use dquic.SendBuf.Valid.{Returns, in_range}
use dquic.SendBuf.Ack.{ack_from}
use dquic.SendBuf.Ack.Loop.{ack_scan-lem}

-- The loop and what follows it, on `xs`, the drained `mid` and `rest`; `old` are the colours before.
pub record Around (m : BufMap) (start end i : ℕ) (b : Bool) (d : ℕ) (pre : Color) (old : ℕ → Color)
    : Type 0 where
  pub xs : List State
  pub mid : List State
  pub rest : List State
  pub whole : m.states ≡ xs ++ (mid ++ rest)
  pub first : i ≡ length xs
  pub next : d ≡ length xs + length mid
  pub head_ascending : Ascending 0 (start + 1) (xs ++ one_if b (encode start recved))
  pub rest_ascending : Ascending (start + 1) m.size rest
  pub head_old : (x : ℕ) → x < start → paint recved (xs ++ one_if b (encode start recved)) x ≡ old x
  pub head_new :
      (x : ℕ) → start ≤ x → paint recved (xs ++ one_if b (encode start recved)) x ≡ recved
  pub rest_old : (x : ℕ) → end ≤ x → x < m.size → paint pre rest x ≡ old x
  pub sent : All (Sent end) rest

module _ (m : BufMap) (start end i : ℕ) (b : Bool) (d : ℕ) (pre : Color) (old : ℕ → Color)
    (filled : start < end) (inside : end ≤ m.size) (small : m.size < 2 ^ 62)
    (short : length m.states < 2 ^ 62) where
  pub ack_from-lem :
      Around m start end i b d pre old
      → Returns
          (ack_from m start end i b d pre)
          m.size
          (λ x. if in_range start end x then recved else old x)
  unfolding ack_from color_at
  ack_from-lem r =
      let after_mid : m.states ≡ r.xs ++ r.mid ++ r.rest =
        r.whole ∙ sym (append_assoc r.xs r.mid r.rest) in
      let s =
        ack_scan-lem m end pre d (start + 1) (r.xs ++ r.mid) r.rest inside small short after_mid
          (omega (arith, r.next, length-append r.xs r.mid)) r.rest_ascending r.sent in
      let tail = one_if s.result.at_end (encode end s.result.pre_color) ++ s.zs in
      let head = r.xs ++ one_if b (encode start recved) in
      let cut : m.states ≡ r.xs ++ (r.mid ++ s.ys ++ s.zs) =
        r.whole
        ∙ ap (λ l. r.xs ++ (r.mid ++ l)) s.whole
        ∙ ap (λ l. r.xs ++ l) (sym (append_assoc r.mid s.ys s.zs)) in
      let regroup : r.xs ++ (one_if b (encode start recved) ++ tail) ≡ head ++ tail =
        sym (append_assoc r.xs (one_if b (encode start recved)) tail) in
      let rest_drop : drop d m.states ≡ r.rest =
        ap (drop d) after_mid
        ∙ drop-append (r.xs ++ r.mid) r.rest d 0
            (omega (arith, r.next, length-append r.xs r.mid)) in
      record {
        after = record { states = head ++ tail; size = m.size };
        returned =
            rw (rest_drop, s.scanned, cut)
              (ap
                (λ (o : Outcome (List State)).
                  o >>= λ l. ret (record { states = l; size = m.size }))
                (finish-parts r.xs (r.mid ++ s.ys) s.zs b s.result.at_end (encode start recved)
                    (encode end s.result.pre_color) i s.result.drain_end r.first
                    (omega (arith, r.first, r.next, s.reach, length-append r.mid s.ys))
                  ∙ ap ret regroup));
        valid = record {
          ascending =
              Ascending-append head tail 0 end m.size inside (omega arith)
                (Ascending-weaken head 0 0 (start + 1) end (omega arith) (omega arith)
                  r.head_ascending)
                s.ascending;
          small = small;
        };
        sized = refl;
        painted = λ x h. paint-append recved head tail x ∙ elim (dec_lt x start) [
          | yes low ↦ rw (lt→leb start x low) (
              paint-below (paint recved head x) tail end m.size x s.ascending (omega arith)
              ∙ r.head_old x low)
          | no up ↦ elim (dec_lt x end) [
            | yes within ↦
                rw (le→leb start x (omega arith), lt→ltb x end within)
                  (paint-below (paint recved head x) tail end m.size x s.ascending within
                    ∙ r.head_new x (omega arith))
            | no past ↦
                rw (le→leb start x (omega arith), le→ltb x end (omega arith))
                  (ap (λ c. paint c tail x) (r.head_new x (omega arith))
                    ∙ s.paints x (omega arith) h
                    ∙ r.rest_old x (omega arith) h)
          ]
        ];
      }

-- A state after the start that has not been sent would show.
pub All-Sent :
    (ys : List State) (lo hi end : ℕ) (c : Color)
    → Ascending lo hi ys
    → ((x : ℕ) → lo ≤ x → x < end → paint c ys x ≢ pending)
    → All (Sent end) ys
unfolding Ascending
All-Sent [] lo hi end c a h = tt
All-Sent (s ∷ ys) lo hi end c a h = (
  λ below e. h (offset s) a.0 below (
      paint-at c s ys (offset s) (omega arith)
      ∙ paint-below (color s) ys (offset s + 1) hi (offset s) a.2 (omega arith)
      ∙ e),
  All-Sent ys (offset s + 1) hi end (color s) a.2
      (λ x low below e. h x (omega (arith, a.0)) below (paint-at c s ys x (omega arith) ∙ e)),
)
