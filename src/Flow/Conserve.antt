-- ===== src/Flow/Conserve.antt =====
-- Credit is neither lost nor made: what is sent and what is reserved never exceed the limit.
use dquic.Base.{
  ℕ, zero, suc, ◌+◌, ◌-◌, ◌^◌, ◌≤◌, ◌<◌, ◌≡◌, inl, inr, min, max, refl, arith, none, some, List, [],
  ◌∷◌, ◌++◌, get_elem?, set, Outcome, ret, ◌>>=◌, add_u64-ret, sub_u64-ret, All, ltb, if◌then◌else◌,
  Option-cases, Bool-cases, lt→ltb,
}
use dquic.Flow.{
  SendControler, new_sender, increase_limit, credit, post_sent, drop_credit, report_blocked, varint,
  Event, wake_all,
}

-- What the senders hold: the credits in the order they were taken, a dropped one as 0, and how many
-- bytes have gone out.
pub record Senders : Type 0 where
  pub controler : SendControler
  pub credits : List ℕ
  pub wire : ℕ

pub data Action : Type 0 where
  take_credit : ℕ → Action
  send : ℕ → ℕ → Action
  finish : ℕ → Action
  recv_max_data : ℕ → Action

-- A sender that holds credit `i` sends at most what the credit has left.
pub send_within : Senders → ℕ → ℕ → ℕ → Outcome Senders
unfolding post_sent
send_within s i available amount = do
  left ← post_sent available (min available amount)
  ret (record s { credits = set s.credits i left; wire = s.wire + min available amount })

pub release : Senders → ℕ → ℕ → Outcome Senders
release s i available = do
  r ← drop_credit s.controler available
  ret (record s { controler = r.0; credits = set s.credits i 0 })

pub step : Senders → Action → Outcome Senders
unfolding send_within release
step s (take_credit quota) = do
  r ← credit s.controler quota
  ret (record s { controler = r.0; credits = s.credits ++ r.1 ∷ [] })
step s (send i amount) = elim (get_elem? s.credits i) [
  | none ↦ ret s
  | some available ↦ send_within s i available amount
]
step s (finish i) = elim (get_elem? s.credits i) [
  | none ↦ ret s
  | some available ↦ release s i available
]
step s (recv_max_data limit) = ret (record s { controler = (increase_limit s.controler limit).0 })

pub run : Senders → List Action → Outcome Senders
run s [] = ret s
run s (a ∷ more) = do t ← step s a; run t more

abbrev pub sum : List ℕ → ℕ
sum [] = 0
sum (x ∷ xs) = x + sum xs

sum-append : (xs ys : List ℕ) → sum (xs ++ ys) ≡ sum xs + sum ys
sum-append [] ys = omega arith
sum-append (x ∷ xs) ys = omega (arith, sum-append xs ys)

sum-set : (xs : List ℕ) (i v x : ℕ) → get_elem? xs i ≡ some x → sum (set xs i v) + x ≡ sum xs + v
sum-set [] i v x e = ground arith
sum-set (y ∷ xs) zero v x e = ground arith
sum-set (y ∷ xs) (suc i) v x e = omega (arith, sum-set xs i v x e)

pub record Conserved (s : Senders) : Type 0 where
  pub accounted : s.controler.sent_data ≡ s.wire + sum s.credits
  pub within : s.controler.sent_data ≤ s.controler.max_data
  pub encodes : s.controler.max_data < 2 ^ 62

-- The limits that MAX_DATA frames carry are variable-length integers.
abbrev pub IsLegal : Action → Type 0
IsLegal (recv_max_data limit) = limit < 2 ^ 62
IsLegal (take_credit quota) = Unit {0}
IsLegal (send i amount) = Unit {0}
IsLegal (finish i) = Unit {0}

report_blocked-ret :
    (c : SendControler) (left : ℕ)
    → c.max_data < 2 ^ 62
    → (d : SendControler) × (events : List Event) × (report_blocked c left ≡ ret (d, events))
      × (d.sent_data ≡ c.sent_data)
      × (d.max_data ≡ c.max_data)
unfolding report_blocked varint
report_blocked-ret c zero h = elim (Bool-cases c.flow_limited) [
  | inl e ↦ rw e (_, _, refl, refl, refl)
  | inr e ↦ rw (e, lt→ltb c.max_data (2 ^ 62) h) (_, _, refl, refl, refl)
]
report_blocked-ret c (suc left) h = (c, [], ground arith, refl, refl)

credit_lem :
    (c : SendControler) (quota : ℕ)
    → c.sent_data ≤ c.max_data
    → c.max_data < 2 ^ 62
    → (d : SendControler) × (events : List Event) × (credit c quota
        ≡ ret (d, min (c.max_data - c.sent_data) quota, events))
      × (d.sent_data ≡ c.sent_data + min (c.max_data - c.sent_data) quota)
      × (d.max_data ≡ c.max_data)
unfolding credit
credit_lem c quota h m =
    let amount = min (c.max_data - c.sent_data) quota in
    let counted = record c { sent_data = c.sent_data + amount } in
    let (d, events, e, es, em) =
      report_blocked-ret counted (c.max_data - (c.sent_data + amount)) m in
    (
      d,
      events,
      rw
          (
            sub_u64-ret c.max_data c.sent_data h,
            add_u64-ret c.sent_data amount (omega arith),
            sub_u64-ret c.max_data (c.sent_data + amount) (omega arith),
            e,
          )
          refl,
      es,
      em,
    )

drop_credit_lem :
    (c : SendControler) (available : ℕ)
    → available ≤ c.sent_data
    → c.sent_data ≤ c.max_data
    → (d : SendControler) × (events : List Event) × (drop_credit c available ≡ ret (d, events))
      × (d.sent_data + available ≡ c.sent_data)
      × (d.max_data ≡ c.max_data)
unfolding drop_credit
drop_credit_lem c zero h w = (c, [], refl, omega arith, refl)
drop_credit_lem c (suc n) h w = (
  record c { sent_data = c.sent_data - suc n },
  if ltb 0 (c.max_data - (c.sent_data - suc n)) then wake_all ∷ [] else [],
  rw (sub_u64-ret c.sent_data (suc n) h, sub_u64-ret c.max_data (c.sent_data - suc n) (omega arith))
      (ground arith),
  omega arith,
  refl,
)

-- The limit that an action brings.
abbrev pub granted_by : Action → ℕ
granted_by (recv_max_data limit) = limit
granted_by (take_credit quota) = 0
granted_by (send i amount) = 0
granted_by (finish i) = 0

-- A step is taken, and only a MAX_DATA frame raises the limit.
abbrev pub Keeps : Senders → ℕ → Outcome Senders → Type 0
Keeps s limit r =
    (t : Senders) × (r ≡ ret t)
    × Conserved t
    × (s.wire ≤ t.wire)
    × (t.controler.max_data ≤ max s.controler.max_data limit)

send_within-Conserved :
    (s : Senders) (i available amount : ℕ)
    → get_elem? s.credits i ≡ some available
    → Conserved s
    → Keeps s 0 (send_within s i available amount)
unfolding send_within post_sent
send_within-Conserved s i available amount e v =
    rw (sub_u64-ret available (min available amount) (omega arith)) (
      _,
      refl,
      ground (arith, sum-set s.credits i (available - min available amount) available e),
      omega arith,
      omega arith,
    )

release-Conserved :
    (s : Senders) (i available : ℕ)
    → get_elem? s.credits i ≡ some available
    → Conserved s
    → Keeps s 0 (release s i available)
unfolding release
release-Conserved s i available e v =
    let freed = sum-set s.credits i 0 available e in
    let (d, events, e', es, em) =
      drop_credit_lem s.controler available (omega (arith, freed, v.accounted)) v.within in
    rw e' (_, refl, ground (arith, es, em, freed), omega arith, omega (arith, em))

pub step-Conserved :
    (s : Senders) (a : Action) → IsLegal a → Conserved s → Keeps s (granted_by a) (step s a)
unfolding step
step-Conserved s (take_credit quota) h v =
    let (d, events, e, es, em) = credit_lem s.controler quota v.within v.encodes in
    rw e (
      _,
      refl,
      ground (
        arith,
        es,
        em,
        sum-append s.credits (min (s.controler.max_data - s.controler.sent_data) quota ∷ []),
      ),
      omega arith,
      omega (arith, em),
    )
step-Conserved s (send i amount) h v = elim (Option-cases (get_elem? s.credits i)) [
  | inl e ↦ rw (step, e) (s, refl, v, omega arith, omega arith)
  | inr (available, e) ↦ rw (step, e) (send_within-Conserved s i available amount e v)
]
step-Conserved s (finish i) h v = elim (Option-cases (get_elem? s.credits i)) [
  | inl e ↦ rw (step, e) (s, refl, v, omega arith, omega arith)
  | inr (available, e) ↦ rw (step, e) (release-Conserved s i available e v)
]
step-Conserved s (recv_max_data limit) h v =
    unfold increase_limit in (_, refl, ground arith, omega arith, ground arith)

run-Conserved :
    (actions : List Action) (s : Senders)
    → All IsLegal actions
    → Conserved s
    → (t : Senders) × (run s actions ≡ ret t) × Conserved t
unfolding run
run-Conserved [] s h v = (s, refl, v)
run-Conserved (a ∷ actions) s h v =
    let (t, e, v', grows, limit) = step-Conserved s a h.0 v in rw e (run-Conserved actions t h.1 v')

abbrev pub start : ℕ → Senders
start initial_max_data = record { controler = new_sender initial_max_data; credits = []; wire = 0 }

-- From an initial limit below 2^62, any sequence in which tasks take credits, send within them and
-- drop them, in any interleaving, and MAX_DATA frames arrive, runs without a panic. At its end the
-- controller counts exactly the bytes sent and the credit still held, so both together, and the
-- bytes sent alone, stay within the limit in force.
pub run-start-Conserved :
    (initial_max_data : ℕ) (actions : List Action)
    → initial_max_data < 2 ^ 62
    → All IsLegal actions
    → (t : Senders) × (run (start initial_max_data) actions ≡ ret t)
      × (t.controler.sent_data ≡ t.wire + sum t.credits)
      × (t.wire + sum t.credits ≤ t.controler.max_data)
      × (t.wire ≤ t.controler.max_data)
unfolding new_sender
run-start-Conserved initial_max_data actions h legal =
    let (t, e, v) = run-Conserved actions (start initial_max_data) legal (ground arith) in
    (t, e, v.accounted, omega (arith, v.accounted, v.within), omega (arith, v.accounted, v.within))
