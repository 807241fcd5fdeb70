-- ===== src/SendBuf/Buffer/Keeps.antt =====
-- Every call on a send buffer returns and keeps the invariant.
use dquic.Base.{
  ℕ, ◌+◌, ◌^◌, ◌≤◌, ◌<◌, ◌≡◌, inl, inr, refl, ap, ◌∙◌, sym, arith, true, if◌then◌else◌, Option,
  some, List, ◌++◌, length, get_elem?, All-get_elem?, lt→ltb, le→leb, ret, length-append, Result,
  err,
}
use dquic.SendBuf.State.{pending, flighting, recved}
use dquic.SendBuf.Paint.{color_at}
use dquic.SendBuf.Valid.{in_range}
use dquic.SendBuf.Loss.Tail.{lose}
use dquic.SendBuf.Pick.{Picked, Availability}
use dquic.Base.Nom.{BytesOps}
use dquic.SendBuf.Buffer.{
  bytes_of, len, Bytes, SendBuf, write, extend, pick_up, on_data_acked, may_loss_data,
  multipath_handshake,
}
use dquic.SendBuf.Buffer.Holds.{write-Holds, extend-Holds}
use dquic.SendBuf.Buffer.PickUp.{pick_up-PicksUp}
use dquic.SendBuf.Buffer.Sent.{on_data_acked-Acks, may_loss_data-Holds}
use dquic.SendBuf.Buffer.Steps.{
  Life, FrameSent, Inv, Grants, frames_of, frames-kept, kept-if, kept-lose,
}

module _ ⦃ops : BytesOps⦄ where
  pub handshake-limit : (b : SendBuf) → ((multipath_handshake b).max_data ≡ b.max_data)
  unfolding multipath_handshake
  handshake-limit b = refl

  module _ (s : Life) (inv : Inv s) where
    pub Inv-wrote :
        (d : Bytes)
        → length s.content + len d < 2 ^ 64
        → (n : SendBuf) × (write s.buffer d ≡ ret n)
          × Inv (record { buffer = n; content = s.content ++ bytes_of d; frames = s.frames })
    Inv-wrote d fits =
        let (n, e, h, limit, painted) = write-Holds s.buffer s.content d inv.holds fits in
        let wide : s.buffer.state.size ≤ n.state.size =
          omega (arith, h.sized, inv.holds.sized, limit, length-append s.content (bytes_of d)) in
        (
          n,
          e,
          record {
            holds = h;
            sent =
                frames-kept s.buffer n s.frames wide
                  (λ x g c. (λ p. c (
                    sym (
                      ap (λ t. if t then color_at s.buffer.state x else pending)
                        (lt→ltb x s.buffer.state.size g))
                    ∙ sym (painted x (omega arith))
                    ∙ p)))
                  inv.sent;
          },
        )

    pub Inv-extended :
        (max_data : ℕ)
        → s.buffer.max_data ≤ max_data
        → max_data < 2 ^ 62
        → (n : SendBuf) × (extend s.buffer max_data ≡ ret n)
          × Inv (record { buffer = n; content = s.content; frames = s.frames })
    Inv-extended max_data up small =
        let (n, e, h, limit, painted) =
          extend-Holds s.buffer s.content max_data inv.holds up small in
        let wide : s.buffer.state.size ≤ n.state.size =
          omega (arith, h.sized, inv.holds.sized, limit) in
        (
          n,
          e,
          record {
            holds = h;
            sent =
                frames-kept s.buffer n s.frames wide
                  (λ x g c. (λ p. c (
                    sym (
                      ap (λ t. if t then color_at s.buffer.state x else pending)
                        (lt→ltb x s.buffer.state.size g))
                    ∙ sym (painted x (omega arith))
                    ∙ p)))
                  inv.sent;
          },
        )

    pub Inv-picked :
        (predicate : ℕ → Option ℕ) (flow : ℕ)
        → Grants predicate
        → (r : SendBuf × Result (Picked × List Bytes) Availability) × (pick_up s.buffer predicate
              flow
            ≡ ret r)
          × Inv (record { buffer = r.0; content = s.content; frames = frames_of r.1 ++ s.frames })
    Inv-picked predicate flow grants =
        elim (pick_up-PicksUp s.buffer s.content predicate flow inv.holds grants) [
          | inl (a, e) ↦ ((s.buffer, err a), e, inv)
          | inr q ↦
              let p = q.sent in
              let n : SendBuf = record {
                offset = s.buffer.offset;
                chunks = s.buffer.chunks;
                max_data = s.buffer.max_data;
                state = p.after;
              } in
              (
                _,
                q.returned,
                record {
                  holds = q.holds;
                  sent = (
                    (
                      p.filled,
                      omega (arith, p.inside, p.sized),
                      λ x g g' e.
                          (let inside : in_range p.start p.end x ≡ true =
                              rw (le→leb p.start x g, lt→ltb x p.end g') refl in
                            let k : flighting ≡ pending =
                              sym (
                                ap (λ t. if t then flighting else color_at s.buffer.state x) inside)
                              ∙ sym (p.painted x (omega (arith, p.inside)))
                              ∙ e in
                            cc),
                    ),
                    frames-kept s.buffer n s.frames (omega (arith, p.sized))
                        (λ x g c e.
                          kept-if (in_range p.start p.end x) flighting (color_at s.buffer.state x)
                            (λ k. cc) c (sym (p.painted x g) ∙ e))
                        inv.sent,
                  );
                },
              )
        ]

    module _ (i start end : ℕ) (frame : get_elem? s.frames i ≡ some (start, end)) where
      its_range : FrameSent s.buffer (start, end)
      its_range = All-get_elem? (FrameSent s.buffer) s.frames i (start, end) inv.sent frame

      pub Inv-acked :
          (n : SendBuf) × (on_data_acked s.buffer start end ≡ ret n)
          × Inv (record { buffer = n; content = s.content; frames = s.frames })
      Inv-acked =
          let r =
            on_data_acked-Acks s.buffer s.content start end inv.holds its_range.0 its_range.1
              its_range.2 in
          (
            r.after,
            r.returned,
            record {
              holds = r.holds;
              sent =
                  frames-kept s.buffer r.after s.frames (omega (arith, r.sized))
                    (λ x g c e.
                      kept-if (in_range start end x) recved (color_at s.buffer.state x) (λ k. cc) c
                        (sym (r.painted x g) ∙ e))
                    inv.sent;
            },
          )

      pub Inv-missed :
          (n : SendBuf) × (may_loss_data s.buffer start end ≡ ret n)
          × Inv (record { buffer = n; content = s.content; frames = s.frames })
      Inv-missed =
          let (n, e, h, painted) =
            may_loss_data-Holds s.buffer s.content start end inv.holds its_range.0 its_range.1
              its_range.2 in
          let m : SendBuf = record {
            offset = s.buffer.offset;
            chunks = s.buffer.chunks;
            max_data = s.buffer.max_data;
            state = n;
          } in
          (
            m,
            e,
            record {
              holds = h;
              sent =
                  frames-kept s.buffer m s.frames (omega (arith, h.sized, inv.holds.sized))
                    (λ x g c k.
                      kept-if (in_range start end x) (lose (color_at s.buffer.state x))
                        (color_at s.buffer.state x) (kept-lose (color_at s.buffer.state x) c) c
                        (sym (painted x g) ∙ k))
                    inv.sent;
            },
          )
