-- ===== src/SendBuf/Loss/Around.antt =====
-- What `may_loss` does from its loop on.
use dquic.Base.{
  ℕ, ◌+◌, ◌^◌, ◌≤◌, ◌<◌, ◌≡◌, ◌≢◌, refl, ap, ◌∙◌, sym, arith, Bool, true, false, ◌&&◌, ltb,
  if◌then◌else◌, inl, inr, Bool-cases, List, [], ◌∷◌, ◌++◌, length, All, drop, dec_lt,
  length-append, le→leb, lt→leb, lt→ltb, le→ltb, ne→==, Outcome, ret, ◌>>=◌,
}
use dquic.SendBuf.State.{Color, flighting, recved, lost, eq_color, State, encode, offset, color}
use dquic.SendBuf.Paint.{
  Ascending, paint, paint-append, paint-below, color_at, Ascending-append, eq_color-eq, empty,
}
use dquic.SendBuf.Splice.{append_assoc, one_if, finish-parts, drop-append}
use dquic.SendBuf.Cuts.{Sent}
use dquic.SendBuf.Loss.{loss_scan, loss_from}
use dquic.SendBuf.Valid.{Returns, in_range}
use dquic.SendBuf.Map.{BufMap}
use dquic.SendBuf.Loss.From.{ltb_and}
use dquic.SendBuf.Loss.Tail.{lose, lose-same, lose-lost}
use dquic.SendBuf.Loss.Loop.{Scanned, Scanned-stop, Scanned-at, Scanned-recved, Scanned-below}

module _ (size end : ℕ) (inside : end ≤ size) (small : size < 2 ^ 62) where
  loss_scan-Scanned :
      (rest : List State) (pre : Color) (states ws : List State) (lo d : ℕ)
      → states ≡ ws ++ rest
      → d ≡ length ws
      → length states < 2 ^ 62
      → lose pre ≡ lost
      → lo ≤ end
      → Ascending lo size rest
      → All (Sent end) rest
      → Scanned size end lo d pre states ws rest
  unfolding loss_scan Ascending
  loss_scan-Scanned [] pre states ws lo d e f short l low a sent =
      Scanned-stop size end inside small pre states ws [] lo d
        (ltb end size && eq_color pre flighting)
        (rw (loss_scan, le→leb end size inside, sym e) refl) l low (empty (end + 1) size)
        (ltb_and end size (eq_color pre flighting))
        (λ h within.
          sym (
            lose-same pre
              (sym (ap (λ t. t && eq_color pre flighting) (lt→ltb end size within)) ∙ h))
          ∙ l)
  loss_scan-Scanned (s ∷ rest) pre states ws lo d e f short l low a sent =
      elim (dec_lt (offset s) end) [
        | yes below ↦ elim (Bool-cases (eq_color (color s) recved)) [
          | inl g ↦
              Scanned-recved size end inside small pre s states ws rest lo d e f short l a sent.1
                below (eq_color-eq (color s) recved g)
          | inr ne ↦
              let fresh = sent.0 below in
              let missing : color s ≢ recved =
                λ g. (let k : true ≡ false = sym (ap (λ c. eq_color c recved) g) ∙ ne in cc) in
              Scanned-below size end inside small pre s states ws rest lo d l a below fresh ne (
                loss_scan-Scanned rest (color s) states (ws ++ s ∷ []) (offset s + 1) (d + 1)
                  (e ∙ sym (append_assoc ws (s ∷ []) rest))
                  (omega (arith, f, length-append ws (s ∷ []))) short
                  (lose-lost (color s) fresh missing) (omega arith) a.2 sent.1)
        ]
        | no up ↦ elim (dec_lt end (offset s)) [
          | yes above ↦
              Scanned-stop size end inside small pre states ws (s ∷ rest) lo d
                (eq_color pre flighting)
                (rw
                  (
                    loss_scan,
                    le→ltb (offset s) end (omega arith),
                    ne→== (offset s) end (omega arith),
                    sym e,
                  )
                  refl)
                l low (omega arith, a.1, a.2) (λ _. omega (arith, a.1))
                (λ h _. sym (lose-same pre h) ∙ l)
          | no here ↦
              Scanned-at size end inside small pre s states ws rest lo d e f short l low a
                (omega arith)
        ]
      ]

-- The loop and what follows it, on `xs`, the drained `mid` and `rest`; `old` are the colours before.
pub record Around (m : BufMap) (start end i : ℕ) (b : Bool) (d : ℕ) (pre : Color) (old : ℕ → Color)
    : Type 0 where
  pub xs : List State
  pub mid : List State
  pub rest : List State
  pub whole : m.states ≡ xs ++ (mid ++ rest)
  pub first : i ≡ length xs
  pub next : d ≡ length xs + length mid
  pub is_lost : lose pre ≡ lost
  pub head_ascending : Ascending 0 (start + 1) (xs ++ one_if b (encode start lost))
  pub rest_ascending : Ascending (start + 1) m.size rest
  pub head_old : (x : ℕ) → x < start → paint recved (xs ++ one_if b (encode start lost)) x ≡ old x
  pub head_new : (x : ℕ) → start ≤ x → paint recved (xs ++ one_if b (encode start lost)) x ≡ lost
  pub rest_old : (x : ℕ) → start ≤ x → old x ≡ paint pre rest x
  pub sent : All (Sent end) rest

module _ (m : BufMap) (start end i : ℕ) (b : Bool) (d : ℕ) (pre : Color) (old : ℕ → Color)
    (filled : start < end) (inside : end ≤ m.size) (small : m.size < 2 ^ 62)
    (short : length m.states < 2 ^ 62) where
  pub loss_from-lem :
      Around m start end i b d pre old
      → Returns
          (loss_from m start end i b d pre)
          m.size
          (λ x. if in_range start end x then lose (old x) else old x)
  unfolding loss_from color_at
  loss_from-lem r =
      let after_mid : m.states ≡ r.xs ++ r.mid ++ r.rest =
        r.whole ∙ sym (append_assoc r.xs r.mid r.rest) in
      let s =
        loss_scan-Scanned m.size end inside small r.rest pre m.states (r.xs ++ r.mid) (start + 1) d
          after_mid (omega (arith, r.next, length-append r.xs r.mid)) short r.is_lost (omega arith)
          r.rest_ascending r.sent in
      let tail = one_if s.result.at_end (encode end s.result.pre_color) ++ s.zs in
      let head = r.xs ++ one_if b (encode start lost) in
      let cut : r.xs ++ r.mid ++ (s.ys ++ s.zs) ≡ r.xs ++ (r.mid ++ s.ys ++ s.zs) =
        append_assoc r.xs r.mid (s.ys ++ s.zs)
        ∙ ap (λ l. r.xs ++ l) (sym (append_assoc r.mid s.ys s.zs)) in
      let rest_drop : drop d m.states ≡ r.rest =
        ap (drop d) after_mid
        ∙ drop-append (r.xs ++ r.mid) r.rest d 0
            (omega (arith, r.next, length-append r.xs r.mid)) in
      record {
        after = record { states = head ++ tail; size = m.size };
        returned =
            rw (rest_drop, s.scanned, cut)
              (ap
                (λ (o : Outcome (List State)).
                  o >>= λ l. ret (record { states = l; size = m.size }))
                (finish-parts r.xs (r.mid ++ s.ys) s.zs b s.result.at_end (encode start lost)
                    (encode end s.result.pre_color) i s.result.drain_end r.first
                    (omega (arith, r.first, r.next, s.reach, length-append r.mid s.ys))
                  ∙ ap ret (sym (append_assoc r.xs (one_if b (encode start lost)) tail))));
        valid = record {
          ascending =
              Ascending-append head tail 0 (start + 1) m.size (omega arith) (omega arith)
                r.head_ascending s.ascending;
          small = small;
        };
        sized = refl;
        painted = λ x h. paint-append recved head tail x ∙ elim (dec_lt x start) [
          | yes low ↦ rw (lt→leb start x low) (
              paint-below (paint recved head x) tail (start + 1) m.size x s.ascending (omega arith)
              ∙ r.head_old x low)
          | no up ↦
              rw (le→leb start x (omega arith), r.rest_old x (omega arith))
                (ap (λ c. paint c tail x) (r.head_new x (omega arith)) ∙ s.painted x h)
        ];
      }
