-- ===== src/SendBuf/Ack/Loop.antt =====
-- What the loop of `ack_rcvd` finds.
use dquic.Base.{
  ℕ, ◌+◌, ◌^◌, ◌≤◌, ◌<◌, ◌≡◌, ◌≢◌, refl, ap, ◌∙◌, sym, subst, arith, false, not, List, [], ◌∷◌,
  ◌++◌, length, All, dec_lt, length-append, lt→ltb, le→ltb, le→leb, ne→==, eq→==, ret,
}
use dquic.SendBuf.State.{Color, pending, recved, eq_color, State, encode, offset, color}
use dquic.SendBuf.Map.{BufMap}
use dquic.SendBuf.Paint.{
  Ascending, paint, paint-at, paint-append, paint-same, eq_color-ne, Ascending-right, empty,
}
use dquic.SendBuf.Splice.{append_assoc, one_if}
use dquic.SendBuf.Ack.{ack_scan, Scan}
use dquic.SendBuf.Cuts.{Sent, same_after-lem, paint-restored, Ascending-restored, not-other}

pub record AckScanned (m : BufMap) (end drain_end : ℕ) (pre : Color) (rest : List State)
    : Type 0 where
  pub ys : List State
  pub zs : List State
  pub whole : rest ≡ ys ++ zs
  pub result : Scan
  pub scanned : ack_scan m end drain_end pre rest ≡ ret result
  pub reach : result.drain_end ≡ drain_end + length ys
  pub ascending : Ascending end m.size (one_if result.at_end (encode end result.pre_color) ++ zs)
  pub paints :
      (x : ℕ)
      → end ≤ x
      → x < m.size
      → paint recved (one_if result.at_end (encode end result.pre_color) ++ zs) x ≡ paint pre rest x

-- The state inserted at the end restores the colour `pre` there.
module _ (m : BufMap) (end : ℕ) (inside : end ≤ m.size) (small : m.size < 2 ^ 62) where
  Scanned-end : (pre : Color) (d : ℕ) → AckScanned m end d pre []
  unfolding ack_scan
  Scanned-end pre d = elim (dec_lt end m.size) [
    | yes within ↦ record {
      ys = [];
      zs = [];
      whole = refl;
      result = record { drain_end = d; at_end = not (eq_color pre recved); pre_color = pre };
      scanned = rw (le→leb end m.size inside, lt→ltb end m.size within) refl;
      reach = omega arith;
      ascending =
          Ascending-restored end (omega arith) _ pre [] m.size (λ _. within)
            (empty (end + 1) m.size);
      paints = λ x h _. paint-restored end (omega arith) _ recved pre [] x (not-other pre recved) h;
    }
    | no full ↦ record {
      ys = [];
      zs = [];
      whole = refl;
      result = record { drain_end = d; at_end = false; pre_color = pre };
      scanned = rw (le→leb end m.size inside, le→ltb end m.size (omega arith)) refl;
      reach = omega arith;
      ascending = empty end m.size;
      paints = λ x h h'. absurd (omega arith);
    }
  ]

  Scanned-above :
      (pre : Color) (d lo : ℕ) (s : State) (rest : List State)
      → Ascending lo m.size (s ∷ rest)
      → end < offset s
      → AckScanned m end d pre (s ∷ rest)
  unfolding ack_scan Ascending
  Scanned-above pre d lo s rest a h = record {
    ys = [];
    zs = s ∷ rest;
    whole = refl;
    result = record { drain_end = d; at_end = not (eq_color pre recved); pre_color = pre };
    scanned = rw (le→ltb (offset s) end (omega arith), ne→== (offset s) end (omega arith)) refl;
    reach = omega arith;
    ascending =
        Ascending-restored end (omega arith) _ pre (s ∷ rest) m.size (λ _. omega (arith, a.1))
          (omega arith, a.1, a.2);
    paints = λ x e _.
        paint-restored end (omega arith) _ recved pre (s ∷ rest) x (not-other pre recved) e;
  }

  Scanned-at :
      (pre : Color) (d lo : ℕ) (s : State) (ws rest : List State)
      → Ascending lo m.size (s ∷ rest)
      → m.states ≡ ws ++ s ∷ rest
      → d ≡ length ws
      → length m.states < 2 ^ 62
      → offset s ≡ end
      → AckScanned m end d pre (s ∷ rest)
  unfolding ack_scan Ascending
  Scanned-at pre d lo s ws rest a e f long h =
      let r = same_after-lem m.states ws (s ∷ rest) d recved e f long in
      record {
        ys = r.run;
        zs = r.post;
        whole = r.whole;
        result = record { drain_end = d + length r.run; at_end = false; pre_color = pre };
        scanned =
            rw (le→ltb (offset s) end (omega (arith, h)), eq→== (offset s) end h, r.found) refl;
        reach = refl;
        ascending =
            Ascending-right r.run r.post end m.size
              (subst (Ascending end m.size) r.whole (omega (arith, h), a.1, a.2));
        paints = λ x within _.
            sym (ap (λ c. paint c r.post x) (paint-same recved r.run x r.alike))
            ∙ sym (paint-append recved r.run r.post x)
            ∙ sym (ap (λ l. paint recved l x) r.whole)
            ∙ paint-at recved s rest x (omega (arith, h))
            ∙ sym (paint-at pre s rest x (omega (arith, h)));
      }

  Scanned-below :
      (pre : Color) (d : ℕ) (s : State) (rest : List State)
      → offset s < end
      → color s ≢ pending
      → AckScanned m end (d + 1) (color s) rest
      → AckScanned m end d pre (s ∷ rest)
  unfolding ack_scan
  Scanned-below pre d s rest below sent r = record {
    ys = s ∷ r.ys;
    zs = r.zs;
    whole = ap (◌∷◌ s) r.whole;
    result = r.result;
    scanned = rw (lt→ltb (offset s) end below, eq_color-ne (color s) pending sent, r.scanned) refl;
    reach = omega (arith, r.reach);
    ascending = r.ascending;
    paints = λ x e h. r.paints x e h ∙ sym (paint-at pre s rest x (omega arith));
  }

pub ack_scan-lem :
    (m : BufMap) (end : ℕ) (pre : Color) (d lo : ℕ) (ws rest : List State)
    → end ≤ m.size
    → m.size < 2 ^ 62
    → length m.states < 2 ^ 62
    → m.states ≡ ws ++ rest
    → d ≡ length ws
    → Ascending lo m.size rest
    → All (Sent end) rest
    → AckScanned m end d pre rest
unfolding Ascending
ack_scan-lem m end pre d lo ws [] inside small long e f a sent =
    Scanned-end m end inside small pre d
ack_scan-lem m end pre d lo ws (s ∷ rest) inside small long e f a sent =
    elim (dec_lt (offset s) end) [
      | yes below ↦ Scanned-below m end inside small pre d s rest below (sent.0 below) (
          ack_scan-lem m end (color s) (d + 1) (offset s + 1) (ws ++ s ∷ []) rest inside small long
            (e ∙ sym (append_assoc ws (s ∷ []) rest)) (omega (arith, f, length-append ws (s ∷ [])))
            a.2 sent.1)
      | no up ↦ elim (dec_lt end (offset s)) [
        | yes above ↦ Scanned-above m end inside small pre d lo s rest a above
        | no here ↦ Scanned-at m end inside small pre d lo s ws rest a e f long (omega arith)
      ]
    ]
