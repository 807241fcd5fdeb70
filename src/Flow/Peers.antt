-- ===== src/Flow/Peers.antt =====
-- A sending and a receiving controller that are joined by a network.
use dquic.Base.{
  All-append, All-get_elem?, ℕ, suc, ◌+◌, ◌-◌, ◌*◌, ◌/◌, ◌^◌, ◌≤◌, ◌<◌, ◌≡◌, inl, inr, min, refl,
  arith, ap, none, some, List, [], ◌∷◌, ◌++◌, length, get_elem?, All, Option-cases, Outcome, ret,
  ◌>>=◌, Result, ok, err,
}
use dquic.Flow.{
  new_sender, RecvController, new_receiver, on_new_rcvd, Event, send_max_data, FlowControlError,
  wake_all, send_data_blocked,
}
use dquic.Flow.Conserve
use dquic.Flow.Conserve.{
  Senders, Action, take_credit, send, finish, recv_max_data, Conserved, step-Conserved, start, sum,
  granted_by,
}
use dquic.Flow.Window.{Granted, on_new_rcvd_cases}

-- Bytes on their way, and the limits of all MAX_DATA frames sent so far.
pub record Link : Type 0 where
  pub senders : Senders
  pub in_flight : ℕ
  pub receiver : RecvController
  pub frames : List ℕ

-- A frame is delivered by its place in `frames`: late, again, out of order or never.
pub data Move : Type 0 where
  take_one : ℕ → Move
  send_some : ℕ → ℕ → Move
  finish_one : ℕ → Move
  deliver : ℕ → Move
  deliver_frame : ℕ → Move

pub limits_of : List Event → List ℕ
limits_of [] = []
limits_of (send_max_data limit ∷ events) = limit ∷ limits_of events
limits_of (wake_all ∷ events) = limits_of events
limits_of (send_data_blocked limit ∷ events) = limits_of events

abbrev Next : Type 0
Next = Outcome (Result Link FlowControlError)

pub act : Link → Action → Next
act l a = do
  t ← Conserve.step l.senders a
  ret (ok (record l { senders = t; in_flight = l.in_flight + (t.wire - l.senders.wire) }))

pub receive :
    Link
    → ℕ
    → RecvController × Result ℕ FlowControlError × List Event
    → Result Link FlowControlError
unfolding limits_of
receive l amount (r, ok n, events) = ok (record l {
  receiver = r;
  in_flight = l.in_flight - amount;
  frames = l.frames ++ limits_of events;
})
receive l amount (r, err e, events) = err e

pub step : Link → Move → Next
unfolding act receive
step l (take_one quota) = act l (take_credit quota)
step l (send_some i amount) = act l (send i amount)
step l (finish_one i) = act l (finish i)
step l (deliver amount) = do
  r ← on_new_rcvd l.receiver (min amount l.in_flight)
  ret (receive l (min amount l.in_flight) r)
step l (deliver_frame i) = elim (get_elem? l.frames i) [
  | none ↦ ret (ok l)
  | some limit ↦ act l (recv_max_data limit)
]

pub continue : List Move → Result Link FlowControlError → Next
unfolding step
continue [] r = ret r
continue (m ∷ ms) (err e) = ret (err e)
continue (m ∷ ms) (ok l) = do r ← step l m; continue ms r

-- `k` moves are left; each raises the receiver's limit by at most one step.
record Agreed (l : Link) (k : ℕ) : Type 0 where
  conserved : Conserved l.senders
  delivered : l.receiver.rcvd_data + l.in_flight ≡ l.senders.wire
  sender_behind : l.senders.controler.max_data ≤ l.receiver.max_data
  frames_behind : All (λ limit. limit ≤ l.receiver.max_data) l.frames
  room : l.receiver.max_data + k * l.receiver.step < 2 ^ 62

abbrev Keeps : ℕ → Next → Type 0
Keeps k r = (t : Link) × (r ≡ ret (ok t)) × Agreed t k

All-weaken : (m n : ℕ) (xs : List ℕ) → m ≤ n → All (λ x. x ≤ m) xs → All (λ x. x ≤ n) xs
All-weaken m n [] h a = tt
All-weaken m n (x ∷ xs) h a = (omega (arith, a.0), All-weaken m n xs h a.1)

announced-All :
    (r t : RecvController) (amount : ℕ) (events : List Event)
    → Granted r t amount events
    → All (λ limit. limit ≤ t.max_data) (limits_of events)
unfolding limits_of
announced-All r t amount events g = elim g.announced [
  | inl (same, e) ↦ rw e tt
  | inr (more, e) ↦ rw e (omega arith, tt)
]

act-Agreed :
    (l : Link) (a : Action) (k : ℕ)
    → Conserve.IsLegal a
    → granted_by a ≤ l.receiver.max_data
    → Agreed l (suc k)
    → Keeps k (act l a)
unfolding act
act-Agreed l a k legal behind v =
    let (t, e, v', grows, limit) = step-Conserved l.senders a legal v.conserved in
    rw e (
      _,
      refl,
      record {
        conserved = v';
        delivered = omega (arith, grows, v.delivered);
        sender_behind = omega (arith, limit, behind, v.sender_behind);
        frames_behind = v.frames_behind;
        room = omega (arith, v.room);
      },
    )

deliver-Agreed : (l : Link) (amount k : ℕ) → Agreed l (suc k) → Keeps k (step l (deliver amount))
unfolding step
deliver-Agreed l amount k v =
    elim (on_new_rcvd_cases l.receiver (min amount l.in_flight) fits small) [
      | inl (within, (r, events, e, g)) ↦ rw e (_, refl, received r events g)
      | inr (over, e) ↦ absurd (omega (arith, below))
    ]
  where
    below : l.receiver.rcvd_data + l.in_flight ≤ l.receiver.max_data
    below = ground (arith, v)

    unfolded : suc k * l.receiver.step ≡ l.receiver.step + k * l.receiver.step
    unfolded = omega arith

    fits : l.receiver.rcvd_data + min amount l.in_flight < 2 ^ 64
    fits = omega (arith, below, v.room)

    small : l.receiver.max_data + l.receiver.step < 2 ^ 62
    small = omega (arith, v.room, unfolded)

    received :
        (r : RecvController) (events : List Event)
        → Granted l.receiver r (min amount l.in_flight) events
        → Agreed
            (record l {
              receiver = r;
              in_flight = l.in_flight - min amount l.in_flight;
              frames = l.frames ++ limits_of events;
            })
            k
    received r events g =
        let same : k * r.step ≡ k * l.receiver.step = ap (λ x. k * x) g.same_step in
        let grown : l.receiver.max_data ≤ r.max_data = ground (arith, g.announced) in
        record {
          conserved = v.conserved;
          delivered = omega (arith, g.counted, v.delivered);
          sender_behind = omega (arith, grown, v.sender_behind);
          frames_behind =
              All-append (λ limit. limit ≤ r.max_data) l.frames (limits_of events)
                (All-weaken _ _ l.frames grown v.frames_behind)
                (announced-All l.receiver r (min amount l.in_flight) events g);
          room = ground (arith, same, v.room, unfolded, g.announced);
        }

step-Agreed : (l : Link) (m : Move) (k : ℕ) → Agreed l (suc k) → Keeps k (step l m)
unfolding step
step-Agreed l (take_one quota) k v = act-Agreed l (take_credit quota) k tt (omega arith) v
step-Agreed l (send_some i amount) k v = act-Agreed l (send i amount) k tt (omega arith) v
step-Agreed l (finish_one i) k v = act-Agreed l (finish i) k tt (omega arith) v
step-Agreed l (deliver amount) k v = deliver-Agreed l amount k v
step-Agreed l (deliver_frame i) k v = elim (Option-cases (get_elem? l.frames i)) [
  | inl e ↦ rw (step, e) (l, refl, idle)
  | inr (limit, e) ↦
      let behind =
        All-get_elem? (λ x. x ≤ l.receiver.max_data) l.frames i limit v.frames_behind e in
      rw (step, e) (act-Agreed l (recv_max_data limit) k (omega (arith, behind, v.room)) behind v)
]
  where
    idle : Agreed l k
    idle = record {
      conserved = v.conserved;
      delivered = v.delivered;
      sender_behind = v.sender_behind;
      frames_behind = v.frames_behind;
      room = omega (arith, v.room);
    }

continue-Agreed :
    (moves : List Move) (l : Link)
    → Agreed l (length moves)
    → (t : Link) × (continue moves (ok l) ≡ ret (ok t)) × Agreed t 0
unfolding continue
continue-Agreed [] l v = (l, refl, v)
continue-Agreed (m ∷ moves) l v =
    let (t, e, v') = step-Agreed l m (length moves) v in rw e (continue-Agreed moves t v')

-- A connection on which both sides agree on the initial limit.
abbrev pub connected : ℕ → Link
connected initial_max_data = record {
  senders = start initial_max_data;
  in_flight = 0;
  receiver = new_receiver initial_max_data;
  frames = [];
}

-- Both sides start from the same limit, which leaves room below 2^62 for one step per move. Then
-- over any sequence of moves (tasks take, use and drop credit; bytes arrive in portions of any size;
-- MAX_DATA frames arrive late, repeatedly, out of order or never) nothing panics and the receiver
-- never refuses data; at the end every byte sent is counted by the receiver or on its way, and the
-- sender's limit does not exceed the receiver's.
pub continue-connected :
    (initial_max_data : ℕ) (moves : List Move)
    → initial_max_data + length moves * (initial_max_data / 2) < 2 ^ 62
    → (t : Link) × (continue moves (ok (connected initial_max_data)) ≡ ret (ok t))
      × (t.receiver.rcvd_data + t.in_flight ≡ t.senders.wire)
      × (t.senders.wire ≤ t.senders.controler.max_data)
      × (t.senders.controler.max_data ≤ t.receiver.max_data)
unfolding new_receiver
continue-connected initial_max_data moves h =
    let (t, e, v) = continue-Agreed moves (connected initial_max_data) initially in
    (t, e, v.delivered, omega (arith, v.conserved.accounted, v.conserved.within), v.sender_behind)
  where
    initially : Agreed (connected initial_max_data) (length moves)
    initially = unfold new_sender in ground arith
