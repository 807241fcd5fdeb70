-- ===== src/SendBuf/Loss/Loop.antt =====
-- What the loop of `may_loss` finds and leaves.
use dquic.Base.{
  ℕ, ◌+◌, ◌^◌, ◌≤◌, ◌<◌, ◌≡◌, ◌≢◌, refl, ap, ◌∙◌, sym, subst, arith, Bool, true, false, ltb,
  if◌then◌else◌, List, [], ◌∷◌, ◌++◌, length, All, dec_lt, length-append, lt→ltb, le→ltb, eq→==,
  ret,
}
use dquic.SendBuf.State.{Color, pending, recved, lost, eq_color, State, encode, offset, color}
use dquic.SendBuf.Paint.{
  Ascending, paint, paint-append, paint-at, paint-below, paint-same, Ascending-weaken,
  Ascending-right, eq_color-ne,
}
use dquic.SendBuf.Splice.{append_assoc, one_if}
use dquic.SendBuf.Cuts.{Sent, paint-restored, Ascending-restored, same_after-lem}
use dquic.SendBuf.Loss.{loss_scan}
use dquic.SendBuf.Ack.{Scan}
use dquic.SendBuf.Loss.From.{may_lost_from-Lost}
use dquic.SendBuf.Loss.Tail.{lose}
use dquic.SendBuf.Loss.Rounds.{Ascending-at}

-- `ys` are drained, and the new states after them are lost up to `end`, as those in `rest` had it.
pub record Scanned (size end lo d : ℕ) (pre : Color) (states ws rest : List State) : Type 0 where
  pub ys : List State
  pub zs : List State
  pub result : Scan
  pub scanned : loss_scan size end states d pre rest ≡ ret (ws ++ (ys ++ zs), result)
  pub reach : result.drain_end ≡ d + length ys
  pub ascending : Ascending lo size (one_if result.at_end (encode end result.pre_color) ++ zs)
  pub painted :
      (x : ℕ)
      → x < size
      → paint lost (one_if result.at_end (encode end result.pre_color) ++ zs) x
        ≡ (if ltb x end then lose (paint pre rest x) else paint pre rest x)

module _ (size end : ℕ) (inside : end ≤ size) (small : size < 2 ^ 62) where
  -- The loop stops before `rest`.
  pub Scanned-stop :
      (pre : Color) (states ws rest : List State) (lo d : ℕ) (b : Bool)
      → loss_scan size end states d pre rest
        ≡ ret (ws ++ rest, record { drain_end = d; at_end = b; pre_color = pre })
      → lose pre ≡ lost
      → lo ≤ end
      → Ascending (end + 1) size rest
      → (b ≡ true → end < size)
      → (b ≡ false → end < size → pre ≡ lost)
      → Scanned size end lo d pre states ws rest
  Scanned-stop pre states ws rest lo d b e l low up h h' =
      let tail = one_if b (encode end pre) ++ rest in
      let tail_up : Ascending end size tail =
        Ascending-restored end (omega arith) b pre rest size h up in
      record {
        ys = [];
        zs = rest;
        result = record { drain_end = d; at_end = b; pre_color = pre };
        scanned = e;
        reach = omega arith;
        ascending = Ascending-weaken tail end lo size size low (omega arith) tail_up;
        painted = λ x g. elim (dec_lt x end) [
          | yes early ↦ rw (lt→ltb x end early) (
              paint-below lost tail end size x tail_up early
              ∙ sym l
              ∙ ap lose (sym (paint-below pre rest (end + 1) size x up (omega arith))))
          | no late ↦ rw (le→ltb x end (omega arith)) (
              paint-restored end (omega arith) b lost pre rest x (λ n. h' n (omega arith))
                (omega arith))
        ];
      }

  -- What is found before the state `s` colours nothing below it.
  paint-step :
      (pre : Color) (s : State) (rest tail : List State) (x lo : ℕ)
      → lose pre ≡ lost
      → offset s < end
      → Ascending lo size (s ∷ rest)
      → Ascending (offset s) size tail
      → (offset s ≤ x
          → paint lost tail x
            ≡ (if ltb x end then lose (paint (color s) rest x) else paint (color s) rest x))
      → paint lost tail x
        ≡ (if ltb x end then lose (paint pre (s ∷ rest) x) else paint pre (s ∷ rest) x)
  paint-step pre s rest tail x lo l below a up h = elim (dec_lt x (offset s)) [
    | yes early ↦ rw (lt→ltb x end (omega arith)) (
        paint-below lost tail (offset s) size x up early
        ∙ sym l
        ∙ ap lose (
            sym (
              paint-below pre (s ∷ rest) (offset s) size x
                (Ascending-at s rest lo size (offset s) refl a) early)))
    | no late ↦ rw (paint-at pre s rest x (omega arith)) (h (omega arith))
  ]

  pub Scanned-at :
      (pre : Color) (s : State) (states ws rest : List State) (lo d : ℕ)
      → states ≡ ws ++ s ∷ rest
      → d ≡ length ws
      → length states < 2 ^ 62
      → lose pre ≡ lost
      → lo ≤ end
      → Ascending lo size (s ∷ rest)
      → offset s ≡ end
      → Scanned size end lo d pre states ws (s ∷ rest)
  unfolding loss_scan
  Scanned-at pre s states ws rest lo d e f short l low a at =
      let r = same_after-lem states ws (s ∷ rest) d lost e f short in
      let up : Ascending end size (s ∷ rest) = Ascending-at s rest lo size end at a in
      let post_up : Ascending end size r.post =
        Ascending-right r.run r.post end size (subst (Ascending end size) r.whole up) in
      record {
        ys = r.run;
        zs = r.post;
        result = record { drain_end = d + length r.run; at_end = false; pre_color = pre };
        scanned =
            rw
              (
                loss_scan,
                le→ltb (offset s) end (omega (arith, at)),
                eq→== (offset s) end at,
                r.found,
              )
              (ap
                (λ l.
                  ret (l, record { drain_end = d + length r.run; at_end = false; pre_color = pre }))
                (e ∙ ap (λ l. ws ++ l) r.whole));
        reach = refl;
        ascending = Ascending-weaken r.post end lo size size low (omega arith) post_up;
        painted = λ x g. elim (dec_lt x end) [
          | yes early ↦ rw (lt→ltb x end early) (
              paint-below lost r.post end size x post_up early
              ∙ sym l
              ∙ ap lose (sym (paint-below pre (s ∷ rest) end size x up early)))
          | no late ↦ rw (le→ltb x end (omega arith)) (
              sym (ap (λ c. paint c r.post x) (paint-same lost r.run x r.alike))
              ∙ sym (paint-append lost r.run r.post x)
              ∙ sym (ap (λ l. paint lost l x) r.whole)
              ∙ paint-at lost s rest x (omega (arith, at))
              ∙ sym (paint-at pre s rest x (omega (arith, at))))
        ];
      }

  pub Scanned-recved :
      (pre : Color) (s : State) (states ws rest : List State) (lo d : ℕ)
      → states ≡ ws ++ s ∷ rest
      → d ≡ length ws
      → length states < 2 ^ 62
      → lose pre ≡ lost
      → Ascending lo size (s ∷ rest)
      → All (Sent end) rest
      → offset s < end
      → color s ≡ recved
      → Scanned size end lo d pre states ws (s ∷ rest)
  unfolding loss_scan Ascending
  Scanned-recved pre s states ws rest lo d e f short l a sent below is_recved =
      let t =
        may_lost_from-Lost size end inside small states (ws ++ s ∷ []) rest (offset s + 1) (d + 1)
          (e ∙ sym (append_assoc ws (s ∷ []) rest)) (omega (arith, f, length-append ws (s ∷ [])))
          short (omega arith) a.2 sent in
      record {
        ys = [];
        zs = s ∷ t.out;
        result = record { drain_end = d; at_end = false; pre_color = pre };
        scanned =
            rw
              (
                loss_scan,
                lt→ltb (offset s) end below,
                is_recved,
                t.returned,
                append_assoc ws (s ∷ []) t.out,
              )
              refl;
        reach = omega arith;
        ascending = (a.0, a.1, t.ascending);
        painted = λ x g.
            paint-step pre s rest (s ∷ t.out) x lo l below a (omega arith, a.1, t.ascending)
              (λ h.
                rw is_recved (
                  paint-at lost s t.out x h ∙ ap (λ c. paint c t.out x) is_recved ∙ t.painted x g));
      }

  pub Scanned-below :
      (pre : Color) (s : State) (states ws rest : List State) (lo d : ℕ)
      → lose pre ≡ lost
      → Ascending lo size (s ∷ rest)
      → offset s < end
      → color s ≢ pending
      → eq_color (color s) recved ≡ false
      → Scanned size end (offset s + 1) (d + 1) (color s) states (ws ++ s ∷ []) rest
      → Scanned size end lo d pre states ws (s ∷ rest)
  unfolding loss_scan Ascending
  Scanned-below pre s states ws rest lo d l a below fresh ne r =
      let tail = one_if r.result.at_end (encode end r.result.pre_color) ++ r.zs in
      record {
        ys = s ∷ r.ys;
        zs = r.zs;
        result = r.result;
        scanned =
            rw
              (
                loss_scan,
                lt→ltb (offset s) end below,
                eq_color-ne (color s) pending fresh,
                ne,
                r.scanned,
                append_assoc ws (s ∷ []) (r.ys ++ r.zs),
              )
              refl;
        reach = omega (arith, r.reach);
        ascending =
            Ascending-weaken tail (offset s + 1) lo size size (omega (arith, a.0)) (omega arith)
              r.ascending;
        painted = λ x g.
            paint-step pre s rest tail x lo l below a
              (Ascending-weaken tail (offset s + 1) (offset s) size size (omega arith) (omega arith)
                r.ascending)
              (λ h. r.painted x g);
      }
