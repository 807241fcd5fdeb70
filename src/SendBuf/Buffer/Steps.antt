-- ===== src/SendBuf/Buffer/Steps.antt =====
-- The life of a send buffer: calls in any order, where what is acknowledged or lost was picked up.
use dquic.Base.{
  ℕ, ◌+◌, ◌^◌, ◌≤◌, ◌<◌, ◌≡◌, ◌≢◌, ap, ◌∙◌, sym, arith, Bool, true, false, if◌then◌else◌, Option,
  some, List, [], ◌∷◌, ◌++◌, length, get_elem?, All, Outcome, ret, panic, Result, ok, err,
}
use dquic.SendBuf.State.{Color, pending, flighting, recved, lost}
use dquic.SendBuf.Paint.{color_at}
use dquic.SendBuf.Loss.Tail.{lose}
use dquic.SendBuf.Pick.{Picked, Availability}
use dquic.Base.Nom.{BytesOps}
use dquic.SendBuf.Buffer.{
  bytes_of, len, Bytes, SendBuf, with_capacity, write, extend, pick_up, on_data_acked,
  may_loss_data, multipath_handshake,
}
use dquic.SendBuf.Buffer.Holds.{Holds}

module _ ⦃ops : BytesOps⦄ where
  -- A buffer, all that was written to it, and the ranges that were picked up.
  pub record Life : Type 0 where
    pub buffer : SendBuf
    pub content : List ℕ
    pub frames : List (ℕ × ℕ)

  abbrev pub frames_of : Result (Picked × List Bytes) Availability → List (ℕ × ℕ)
  frames_of (ok p) = (p.0.start, p.0.end) ∷ []
  frames_of (err a) = []

  -- The predicate grants a byte at least, and no range beyond the numbers.
  abbrev pub Grants : (ℕ → Option ℕ) → Type 0
  Grants predicate =
      (x available : ℕ) → predicate x ≡ some available → (0 < available) × (x + available < 2 ^ 64)

  pub data Step (s : Life) : Life → Type 0 where
    wrote :
        (d : Bytes) (n : SendBuf)
        → length s.content + len d < 2 ^ 64
        → write s.buffer d ≡ ret n
        → Step s (record { buffer = n; content = s.content ++ bytes_of d; frames = s.frames })
    extended :
        (max_data : ℕ) (n : SendBuf)
        → s.buffer.max_data ≤ max_data
        → max_data < 2 ^ 62
        → extend s.buffer max_data ≡ ret n
        → Step s (record { buffer = n; content = s.content; frames = s.frames })
    picked :
        (predicate : ℕ → Option ℕ) (flow : ℕ)
        (r : SendBuf × Result (Picked × List Bytes) Availability)
        → Grants predicate
        → pick_up s.buffer predicate flow ≡ ret r
        → Step s (record { buffer = r.0; content = s.content; frames = frames_of r.1 ++ s.frames })
    acked :
        (i start end : ℕ) (n : SendBuf)
        → get_elem? s.frames i ≡ some (start, end)
        → on_data_acked s.buffer start end ≡ ret n
        → Step s (record { buffer = n; content = s.content; frames = s.frames })
    missed :
        (i start end : ℕ) (n : SendBuf)
        → get_elem? s.frames i ≡ some (start, end)
        → may_loss_data s.buffer start end ≡ ret n
        → Step s (record { buffer = n; content = s.content; frames = s.frames })
    handshake :
        Step s
          (record { buffer = multipath_handshake s.buffer; content = s.content; frames = s.frames })

  pub data Reach (capacity : ℕ) : Life → Type 0 where
    created : Reach capacity (record { buffer = with_capacity capacity; content = []; frames = [] })
    called : {s t : Life} → Reach capacity s → Step s t → Reach capacity t

  -- The range has been picked up.
  abbrev pub FrameSent : SendBuf → ℕ × ℕ → Type 0
  FrameSent b f =
      (f.0 < f.1)
      × (f.1 ≤ b.state.size)
      × ((x : ℕ) → f.0 ≤ x → x < f.1 → color_at b.state x ≢ pending)

  pub record Inv (s : Life) : Type 0 where
    pub holds : Holds s.buffer s.content
    pub sent : All (FrameSent s.buffer) s.frames

  pub frames-kept :
      (b n : SendBuf) (frames : List (ℕ × ℕ))
      → b.state.size ≤ n.state.size
      → ((x : ℕ) → x < b.state.size → color_at b.state x ≢ pending → color_at n.state x ≢ pending)
      → All (FrameSent b) frames
      → All (FrameSent n) frames
  frames-kept b n [] h f a = tt
  frames-kept b n (g ∷ frames) h f a = (
    (a.0.0, omega (arith, a.0.1), λ x e e'. f x (omega (arith, a.0.1)) (a.0.2 x e e')),
    frames-kept b n frames h f a.1,
  )

  pub kept-if :
      (c : Bool) (d e : Color) → d ≢ pending → e ≢ pending → (if c then d else e) ≢ pending
  kept-if true d e h h' = h
  kept-if false d e h h' = h'

  pub kept-lose : (c : Color) → c ≢ pending → lose c ≢ pending
  kept-lose pending h = h
  kept-lose flighting h = λ e. cc
  kept-lose recved h = λ e. cc
  kept-lose lost h = λ e. cc

  unret : {A : Type 0} → A → Outcome A → A
  unret d (ret a) = a
  unret d panic = d

  pub ret-same : {A : Type 0} (o : Outcome A) (a b : A) → o ≡ ret a → o ≡ ret b → a ≡ b
  unfolding unret
  ret-same o a b e f = ap (unret a) (sym e ∙ f)
