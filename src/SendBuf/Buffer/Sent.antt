-- ===== src/SendBuf/Buffer/Sent.antt =====
-- What `on_data_acked`, `may_loss_data` and `multipath_handshake` keep of the content.
use dquic.Base.{
  ℕ, ◌+◌, ◌-◌, ◌≤◌, ◌<◌, ◌≡◌, ◌≢◌, refl, ap, ◌∙◌, sym, arith, if◌then◌else◌, List, drop, dec_lt,
  lt→ltb, le→ltb, ret,
}
use dquic.SendBuf.State.{pending, recved}
use dquic.SendBuf.Map.{BufMap}
use dquic.SendBuf.Paint.{color_at}
use dquic.SendBuf.Valid.{in_range}
use dquic.SendBuf.Growth.{shift-Shifted}
use dquic.SendBuf.Ack.{shift}
use dquic.SendBuf.Ack.Colors.{ack_rcvd-Returns}
use dquic.SendBuf.Loss.{mark_flighting_lost}
use dquic.SendBuf.Loss.Tail.{lose}
use dquic.SendBuf.Loss.Colors.{may_loss-Returns}
use dquic.SendBuf.Loss.Mark.{mark_flighting_lost-IsValid}
use dquic.Base.Nom.{BytesOps}
use dquic.SendBuf.Buffer.{SendBuf, drain_data, on_data_acked, may_loss_data, multipath_handshake}
use dquic.SendBuf.Buffer.Concat.{concat-drain_data, drain_data-Filled, drop-drop}
use dquic.SendBuf.Buffer.Holds.{Holds}
use dquic.SendBuf.Buffer.PickUp.{recolored, keeps}

module _ ⦃ops : BytesOps⦄ where
  -- A range that has been sent is received; the buffer drops the content up to the first byte that
  -- has not been.
  pub record Acks (b : SendBuf) (start end : ℕ) (content : List ℕ) : Type 0 where
    pub after : SendBuf
    pub returned : on_data_acked b start end ≡ ret after
    pub holds : Holds after content
    pub limit : after.max_data ≡ b.max_data
    pub sized : after.state.size ≡ b.state.size
    pub painted :
        (x : ℕ)
        → x < b.state.size
        → color_at after.state x ≡ (if in_range start end x then recved else color_at b.state x)
    pub first : after.offset < b.state.size → color_at after.state after.offset ≢ recved

  module _ (b : SendBuf) (content : List ℕ) (start end : ℕ) (h : Holds b content)
      (filled : start < end) (inside : end ≤ b.state.size)
      (sent : (x : ℕ) → start ≤ x → x < end → color_at b.state x ≢ pending) where
    pub on_data_acked-Acks : Acks b start end content
    unfolding on_data_acked
    on_data_acked-Acks =
        let r = ack_rcvd-Returns b.state start end h.map filled inside sent in
        let s = shift-Shifted r.after r.valid in
        let pos = (shift r.after).1 in
        let kept : (x : ℕ) → x < b.offset → color_at (shift r.after).0 x ≡ recved = λ x g.
          s.same x
          ∙ r.painted x (omega (arith, g, h.within))
          ∙ keeps (in_range start end x) (λ _. recved) (color_at b.state x) (h.gone x g) refl in
        let painted : (x : ℕ)
            → x < b.state.size
            → color_at (shift r.after).0 x
              ≡ (if in_range start end x then recved else color_at b.state x) =
          λ x g. s.same x ∙ r.painted x g in
        elim (dec_lt b.offset pos) [
          | yes more ↦
              let at : b.offset + (pos - b.offset) ≡ pos = omega arith in
              record {
                after = record {
                  offset = pos;
                  chunks = drain_data b.chunks (pos - b.offset);
                  max_data = b.max_data;
                  state = (shift r.after).0;
                };
                returned = rw (on_data_acked, r.returned, lt→ltb b.offset pos more) refl;
                holds = record {
                  map = s.valid;
                  sized = s.sized ∙ r.sized ∙ h.sized;
                  held =
                      concat-drain_data b.chunks (pos - b.offset)
                      ∙ ap (drop (pos - b.offset)) h.held
                      ∙ drop-drop content (pos - b.offset) b.offset
                      ∙ ap (λ (k : ℕ). drop k content) at;
                  within = omega (arith, s.inside, s.sized);
                  gone = λ x g. s.same x ∙ s.received x g;
                  filled = drain_data-Filled b.chunks (pos - b.offset) h.filled;
                  room = h.room;
                  bounded = h.bounded;
                };
                limit = refl;
                sized = s.sized ∙ r.sized;
                painted = painted;
                first = λ g e. s.missing (omega (arith, g, r.sized)) (sym (s.same pos) ∙ e);
              }
          | no less ↦
              let here : b.offset ≡ pos = elim (dec_lt pos b.offset) [
                | yes low ↦ absurd (
                    s.missing (omega (arith, r.sized, low, h.within))
                      (sym (s.same pos) ∙ kept pos low))
                | no high ↦ omega arith
              ] in
              record {
                after = record {
                  offset = b.offset;
                  chunks = b.chunks;
                  max_data = b.max_data;
                  state = (shift r.after).0;
                };
                returned = rw (on_data_acked, r.returned, le→ltb b.offset pos (omega arith)) refl;
                holds = record {
                  map = s.valid;
                  sized = s.sized ∙ r.sized ∙ h.sized;
                  held = h.held;
                  within = omega (arith, s.sized, r.sized, h.within);
                  gone = kept;
                  filled = h.filled;
                  room = h.room;
                  bounded = h.bounded;
                };
                limit = refl;
                sized = s.sized ∙ r.sized;
                painted = painted;
                first = λ g e. s.missing (omega (arith, g, here, r.sized)) (
                    sym (s.same pos) ∙ ap (λ (k : ℕ). color_at (shift r.after).0 k) (sym here) ∙ e);
              }
        ]

    pub may_loss_data-Holds :
        (n : BufMap) × (may_loss_data b start end ≡ ret (record b { state = n }))
        × Holds (record b { state = n }) content
        × ((x : ℕ)
            → x < b.state.size
            → color_at n x
              ≡ (if in_range start end x then lose (color_at b.state x) else color_at b.state x))
    unfolding may_loss_data
    may_loss_data-Holds =
        let r = may_loss-Returns b.state start end h.map filled inside sent in
        (
          r.after,
          rw (may_loss_data, r.returned) refl,
          recolored b content r.after h r.valid r.sized (λ x g.
              r.painted x (omega (arith, g, h.within))
              ∙ keeps (in_range start end x) lose (color_at b.state x) (h.gone x g) refl),
          r.painted,
        )

  pub multipath_handshake-Holds :
      (b : SendBuf) (content : List ℕ)
      → Holds b content
      → Holds (multipath_handshake b) content
        × ((x : ℕ) → color_at (multipath_handshake b).state x ≡ lose (color_at b.state x))
  unfolding multipath_handshake
  multipath_handshake-Holds b content h =
      let (v, e, painted) = mark_flighting_lost-IsValid b.state h.map in
      (
        recolored b content (mark_flighting_lost b.state) h v e
            (λ x g. painted x ∙ ap lose (h.gone x g)),
        painted,
      )
