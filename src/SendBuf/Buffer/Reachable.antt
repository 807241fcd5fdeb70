-- ===== src/SendBuf/Buffer/Reachable.antt =====
-- What holds of every send buffer that calls can reach, and that no such call panics.
use dquic.Base.{
  ℕ, ◌+◌, ◌-◌, ◌^◌, ◌<◌, ◌≡◌, ap, ◌∙◌, sym, subst, arith, leb, Option, some, List, [], ◌∷◌, ◌++◌,
  length, drop, get_elem?, le→leb, ret, length-append, length-drop, lt→leb, ◌⊎◌, err,
}
use dquic.SendBuf.Paint.{color_at}
use dquic.SendBuf.Pick.{Availability}
use dquic.Base.Nom.{BytesOps}
use dquic.SendBuf.Buffer.{
  bytes_of, len, Bytes, SendBuf, write, extend, pick_up, on_data_acked, may_loss_data,
  multipath_handshake, is_all_rcvd, no_data,
}
use dquic.SendBuf.Buffer.Concat.{Filled, concat}
use dquic.SendBuf.Buffer.Holds.{with_capacity-Holds}
use dquic.SendBuf.Buffer.PickUp.{PicksUp, pick_up-PicksUp}
use dquic.SendBuf.Buffer.Sent.{multipath_handshake-Holds}
use dquic.SendBuf.Buffer.Steps.{
  Life, Step, wrote, extended, picked, acked, missed, handshake, Reach, created, called, Inv,
  Grants, frames_of, frames-kept, kept-lose, ret-same,
}
use dquic.SendBuf.Buffer.Keeps.{
  handshake-limit, Inv-wrote, Inv-extended, Inv-picked, Inv-acked, Inv-missed,
}

module _ ⦃ops : BytesOps⦄ where
  no_data-leb :
      (chunks : List Bytes) (content : List ℕ) (offset : ℕ)
      → Filled chunks
      → concat chunks ≡ drop offset content
      → no_data chunks ≡ leb (length content) offset
  no_data-leb [] content offset f e =
      let n : 0 ≡ length content - offset = ap length e ∙ length-drop offset content in
      sym (le→leb (length content) offset (omega (arith, n)))
  no_data-leb (d ∷ chunks) content offset f e =
      let n : len d + length (concat chunks) ≡ length content - offset =
        sym (length-append (bytes_of d) (concat chunks))
        ∙ ap length e
        ∙ length-drop offset content in
      sym (lt→leb (length content) offset (omega (arith, n, f.0)))

  pub Step-Inv : (s t : Life) → Step s t → Inv s → Inv t
  Step-Inv s t (wrote d n fits e) inv =
      let (n', e', i) = Inv-wrote s inv d fits in
      subst (λ m. Inv (record { buffer = m; content = s.content ++ bytes_of d; frames = s.frames }))
        (ret-same (write s.buffer d) n' n e' e) i
  Step-Inv s t (extended max_data n up small e) inv =
      let (n', e', i) = Inv-extended s inv max_data up small in
      subst (λ m. Inv (record { buffer = m; content = s.content; frames = s.frames }))
        (ret-same (extend s.buffer max_data) n' n e' e) i
  Step-Inv s t (picked predicate flow r grants e) inv =
      let (r', e', i) = Inv-picked s inv predicate flow grants in
      subst
        (λ q.
          Inv (record { buffer = q.0; content = s.content; frames = frames_of q.1 ++ s.frames }))
        (ret-same (pick_up s.buffer predicate flow) r' r e' e) i
  Step-Inv s t (acked k start end n frame e) inv =
      let (n', e', i) = Inv-acked s inv k start end frame in
      subst (λ m. Inv (record { buffer = m; content = s.content; frames = s.frames }))
        (ret-same (on_data_acked s.buffer start end) n' n e' e) i
  Step-Inv s t (missed k start end n frame e) inv =
      let (n', e', i) = Inv-missed s inv k start end frame in
      subst (λ m. Inv (record { buffer = m; content = s.content; frames = s.frames }))
        (ret-same (may_loss_data s.buffer start end) n' n e' e) i
  Step-Inv s t handshake inv =
      let (h, painted) = multipath_handshake-Holds s.buffer s.content inv.holds in
      record {
        holds = h;
        sent =
            frames-kept s.buffer (multipath_handshake s.buffer) s.frames
              (omega (arith, h.sized, inv.holds.sized, handshake-limit s.buffer))
              (λ x g c e. kept-lose (color_at s.buffer.state x) c (sym (painted x) ∙ e)) inv.sent;
      }

  -- In any life of a buffer that starts with a capacity below 2^62, the map is valid and as large as the
  -- content and the limit allow, the buffer holds the content from its offset on, all below the offset has
  -- been received, and no range that was picked up is pending.
  pub Reach-Inv : (capacity : ℕ) (s : Life) → capacity < 2 ^ 62 → Reach capacity s → Inv s
  Reach-Inv capacity s h created = record { holds = with_capacity-Holds capacity h; sent = tt }
  Reach-Inv capacity s h (called {s = before} r step) =
      Step-Inv before s step (Reach-Inv capacity before h r)

  -- In any life of a buffer that starts with a capacity below 2^62, the acknowledgement and the loss of
  -- any range that was picked up, even repeatedly and in any order, return: neither call panics.
  pub Reach-returns :
      (capacity : ℕ) (s : Life) (i start end : ℕ)
      → capacity < 2 ^ 62
      → Reach capacity s
      → get_elem? s.frames i ≡ some (start, end)
      → ((n : SendBuf) × (on_data_acked s.buffer start end ≡ ret n))
        × ((n : SendBuf) × (may_loss_data s.buffer start end ≡ ret n))
  Reach-returns capacity s i start end h r frame =
      let inv = Reach-Inv capacity s h r in
      let (n, e, _) = Inv-acked s inv i start end frame in
      let (n', e', _) = Inv-missed s inv i start end frame in ((n, e), (n', e'))

  -- In any life of a buffer that starts with a capacity below 2^62, with a predicate that grants at
  -- least one byte and no range beyond the numbers, `pick_up` returns an error and changes nothing, or it
  -- returns a range and the bytes of the written content at that range, with the outcome of `pick`.
  pub Reach-PicksUp :
      (capacity : ℕ) (s : Life) (predicate : ℕ → Option ℕ) (flow : ℕ)
      → capacity < 2 ^ 62
      → Reach capacity s
      → Grants predicate
      → ((a : Availability) × (pick_up s.buffer predicate flow ≡ ret (s.buffer, err a)))
        ⊎ PicksUp s.buffer predicate flow s.content
  Reach-PicksUp capacity s predicate flow h r grants =
      pick_up-PicksUp s.buffer s.content predicate flow (Reach-Inv capacity s h r).holds grants

  -- In any life of a buffer that starts with a capacity below 2^62, `is_all_rcvd` tells whether the
  -- offset, below which all has been received, has reached the end of the written content.
  pub Reach-is_all_rcvd :
      (capacity : ℕ) (s : Life)
      → capacity < 2 ^ 62
      → Reach capacity s
      → is_all_rcvd s.buffer ≡ leb (length s.content) s.buffer.offset
  unfolding is_all_rcvd
  Reach-is_all_rcvd capacity s h r =
      let holds = (Reach-Inv capacity s h r).holds in
      no_data-leb s.buffer.chunks s.content s.buffer.offset holds.filled holds.held
