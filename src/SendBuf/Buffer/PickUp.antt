-- ===== src/SendBuf/Buffer/PickUp.antt =====
-- What `pick_up` keeps of the content, and what it returns.
use dquic.Base.{
  ℕ, ◌+◌, ◌-◌, ◌^◌, ◌≤◌, ◌<◌, max, ◌≡◌, ◌⊎◌, inl, inr, refl, ap, ◌∙◌, sym, arith, Bool, true, false,
  if◌then◌else◌, Option, some, List, take, drop, dec_lt, lt→leb, ret, ok, err,
}
use dquic.SendBuf.State.{Color, pending, recved, eq_color}
use dquic.SendBuf.Map.{BufMap}
use dquic.SendBuf.Paint.{color_at}
use dquic.SendBuf.Valid.{IsValid}
use dquic.SendBuf.Pick.{Availability, pick, poll_ready, wanted}
use dquic.SendBuf.Pick.First.{Sends, nothing, refused, sends, pick-Picks}
use dquic.Base.Nom.{BytesOps}
use dquic.SendBuf.Buffer.{Bytes, SendBuf, pieces, pick_up}
use dquic.SendBuf.Buffer.Concat.{concat, concat-pieces, drop-drop}
use dquic.SendBuf.Buffer.Holds.{Holds}

module _ ⦃ops : BytesOps⦄ where
  -- The map of a buffer may change its colours, but for those below the offset.
  pub recolored :
      (b : SendBuf) (content : List ℕ) (n : BufMap)
      → Holds b content
      → IsValid n
      → n.size ≡ b.state.size
      → ((x : ℕ) → x < b.offset → color_at n x ≡ recved)
      → Holds (record b { state = n }) content
  recolored b content n h v e gone = record {
    map = v;
    sized = e ∙ h.sized;
    held = h.held;
    within = omega (arith, e, h.within);
    gone = gone;
    filled = h.filled;
    room = h.room;
    bounded = h.bounded;
  }

  pub keeps :
      (c : Bool) (f : Color → Color) (d : Color)
      → d ≡ recved
      → f recved ≡ recved
      → (if c then f d else d) ≡ recved
  keeps true f d e g = ap f e ∙ g
  keeps false f d e g = e

  -- The bytes that are picked up are those of the content at their range.
  pub record PicksUp (b : SendBuf) (predicate : ℕ → Option ℕ) (flow : ℕ) (content : List ℕ)
      : Type 0 where
    pub sent : Sends b.state predicate flow (pick b.state predicate flow b.max_data)
    pub parts : List Bytes
    pub returned :
        pick_up b predicate flow
        ≡ ret (
          record b { state = sent.after },
          ok (
            record {
              start = sent.start;
              end = sent.end;
              is_fresh = eq_color (color_at b.state sent.start) pending;
            },
            parts,
          ),
        )
    pub bytes : concat parts ≡ take (sent.end - sent.start) (drop sent.start content)
    pub holds : Holds (record b { state = sent.after }) content

  PicksUp-of :
      (b : SendBuf) (content : List ℕ) (predicate : ℕ → Option ℕ) (flow : ℕ)
      → Holds b content
      → Sends b.state predicate flow (pick b.state predicate flow b.max_data)
      → PicksUp b predicate flow content
  unfolding pick_up wanted
  PicksUp-of b content predicate flow h s =
      let late : b.offset ≤ s.start = elim (dec_lt s.start b.offset) [
        | yes early ↦
            let k : false ≡ true = ap (wanted flow) (sym (h.gone s.start early)) ∙ s.may_go in
            absurd (cc)
        | no late ↦ omega arith
      ] in
      let short : s.end - max s.start b.offset ≡ s.end - s.start = omega (arith, late) in
      let at : b.offset + (s.start - b.offset) ≡ s.start = omega (arith, late) in
      record {
        sent = s;
        parts = pieces b.offset b.chunks s.start s.end;
        returned = rw (pick_up, s.returned) refl;
        bytes =
            concat-pieces b.chunks b.offset s.start s.end (omega (arith, s.filled))
            ∙ ap (λ (k : ℕ). take k (drop (s.start - b.offset) (concat b.chunks))) short
            ∙ ap (λ l. take (s.end - s.start) (drop (s.start - b.offset) l)) h.held
            ∙ ap (take (s.end - s.start)) (drop-drop content (s.start - b.offset) b.offset)
            ∙ ap (λ (k : ℕ). take (s.end - s.start) (drop k content)) at;
        holds = recolored b content s.after h s.valid s.sized (λ x g.
            s.painted x (omega (arith, g, h.within))
            ∙ rw (lt→leb s.start x (omega (arith, g, late))) (h.gone x g));
      }

  -- Nothing is picked and nothing changes, or a part of the content is, and the rest is kept.
  pub pick_up-PicksUp :
      (b : SendBuf) (content : List ℕ) (predicate : ℕ → Option ℕ) (flow : ℕ)
      → Holds b content
      → ((x available : ℕ)
          → predicate x ≡ some available
          → (0 < available) × (x + available < 2 ^ 64))
      → ((a : Availability) × (pick_up b predicate flow ≡ ret (b, err a)))
        ⊎ PicksUp b predicate flow content
  unfolding pick_up
  pick_up-PicksUp b content predicate flow h fits =
      elim (pick-Picks b.state predicate flow b.max_data h.map (omega (arith, h.sized)) fits) [
        | nothing a e f ↦ inl (a, rw (pick_up, e) refl)
        | refused x l w f g e ↦ inl (poll_ready, rw (pick_up, e) refl)
        | sends s ↦ inr (PicksUp-of b content predicate flow h s)
      ]
