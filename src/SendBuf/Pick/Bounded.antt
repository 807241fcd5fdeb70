-- ===== src/SendBuf/Pick/Bounded.antt =====
-- How often `pick` can succeed.
use dquic.Base.{
  ℕ, zero, suc, ◌+◌, ◌^◌, ◌≤◌, ◌<◌, ◌≡◌, ◌≢◌, refl, ap, ◌∙◌, sym, subst, arith, Bool, true, false,
  if◌then◌else◌, Option, none, some, dec_lt, le→leb, lt→ltb, ret, panic, ok, err,
}
use dquic.SendBuf.State.{Color, pending, flighting, recved, lost}
use dquic.SendBuf.Map.{BufMap}
use dquic.SendBuf.Paint.{color_at}
use dquic.SendBuf.Valid.{IsValid, in_range}
use dquic.SendBuf.Pick.{Picked, pick, wanted}
use dquic.SendBuf.Pick.First.{Call, Sends, nothing, refused, sends, pick-Picks}

abbrev pub to_send : Color → ℕ
to_send pending = 1
to_send lost = 1
to_send flighting = 0
to_send recved = 0

-- The number of positions below `n` that are still to be sent, for the first time or again.
unfoldable pub count : (ℕ → Color) → ℕ → ℕ
count f zero = 0
count f (suc n) = to_send (f n) + count f n

-- Picks that succeed, one after the other, each with a predicate and a flow limit of its own.
pub data PickRun (window : ℕ) : BufMap → ℕ → BufMap → Type 0 where
  no_more : {m : BufMap} → PickRun window m 0 m
  one_more :
      {m n l : BufMap} {k : ℕ} (predicate : ℕ → Option ℕ) (flow : ℕ) (p : Picked)
      → ((x available : ℕ)
          → predicate x ≡ some available
          → (0 < available) × (x + available < 2 ^ 64))
      → pick m predicate flow window ≡ ret (n, ok p)
      → PickRun window n k l
      → PickRun window m (suc k) l

count-least :
    (f g : ℕ → Color) (n : ℕ)
    → ((x : ℕ) → x < n → to_send (g x) ≤ to_send (f x))
    → count g n ≤ count f n
unfolding count
count-least f g zero h = omega arith
count-least f g (suc n) h =
    omega (arith, h n (omega arith), count-least f g n (λ x l. h x (omega arith)))

count-less :
    (f g : ℕ → Color) (n x : ℕ)
    → x < n
    → to_send (g x) < to_send (f x)
    → ((y : ℕ) → y < n → to_send (g y) ≤ to_send (f y))
    → count g n < count f n
unfolding count
count-less f g zero x l less h = absurd (omega arith)
count-less f g (suc n) x l less h = elim (dec_lt x n) [
  | yes low ↦
      omega (arith, h n (omega arith), count-less f g n x low less (λ y e. h y (omega arith)))
  | no at ↦
      let here : x ≡ n = omega arith in
      let less_here = subst (λ (k : ℕ). to_send (g k) < to_send (f k)) here less in
      omega (arith, less_here, count-least f g n (λ y e. h y (omega arith)))
]

to_send-wanted : (flow : ℕ) (c : Color) → wanted flow c ≡ true → to_send c ≡ 1
unfolding wanted
to_send-wanted flow pending h = refl
to_send-wanted flow lost h = refl
to_send-wanted flow flighting h = cc
to_send-wanted flow recved h = cc

to_send-if : (b : Bool) (c : Color) → to_send (if b then flighting else c) ≤ to_send c
to_send-if true c = omega arith
to_send-if false c = omega arith

-- A pick that succeeds leaves less to send.
Sends-less :
    (m : BufMap) (predicate : ℕ → Option ℕ) (flow : ℕ) (call : Call)
    → (s : Sends m predicate flow call)
    → count (color_at s.after) m.size < count (color_at m) m.size
Sends-less m predicate flow call s =
    let start_in : s.start < m.size = omega (arith, s.filled, s.inside) in
    let inside : in_range s.start s.end s.start ≡ true =
      rw (le→leb s.start s.start (omega arith), lt→ltb s.start s.end s.filled) refl in
    let now : to_send (color_at s.after s.start) ≡ 0 =
      ap to_send (
        s.painted s.start start_in
        ∙ ap (λ b. if b then flighting else color_at m s.start) inside) in
    count-less (color_at m) (color_at s.after) m.size s.start start_in
      (omega (arith, now, to_send-wanted flow (color_at m s.start) s.may_go))
      (λ y h.
        subst (λ c. to_send c ≤ to_send (color_at m y)) (sym (s.painted y h))
          (to_send-if (in_range s.start s.end y) (color_at m y)))

abbrev succeeded : Call → Bool
succeeded panic = false
succeeded (ret (n, ok p)) = true
succeeded (ret (n, err a)) = false

abbrev left_by : BufMap → Call → BufMap
left_by m panic = m
left_by m (ret (n, r)) = n

-- Of a valid map no larger than the window, a run of picks that succeed leaves the size as it is, and
-- is no longer than the number of positions that it takes off what is to be sent.
pub PickRun-count :
    (window : ℕ) (m l : BufMap) (k : ℕ)
    → IsValid m
    → m.size ≤ window
    → PickRun window m k l
    → (l.size ≡ m.size) × (k + count (color_at l) m.size ≤ count (color_at m) m.size)
PickRun-count window m l k v wide no_more = (refl, omega arith)
PickRun-count window m l k v wide (one_more {n = n} {k = j} predicate flow p grants e run) =
    elim (pick-Picks m predicate flow window v wide grants) [
      | nothing a f g ↦ let c : false ≡ true = sym (ap succeeded f) ∙ ap succeeded e in absurd (cc)
      | refused x h w first g f ↦
          let c : false ≡ true = sym (ap succeeded f) ∙ ap succeeded e in absurd (cc)
      | sends s ↦
          let same : s.after ≡ n = sym (ap (left_by m) s.returned) ∙ ap (left_by m) e in
          let small : n.size ≤ window = omega (arith, ap (λ (b : BufMap). b.size) same, s.sized) in
          let r =
            subst
              (λ b. (l.size ≡ b.size) × (j + count (color_at l) b.size ≤ count (color_at b) b.size))
              (sym same) (PickRun-count window n l j (subst IsValid same s.valid) small run) in
          (
            r.0 ∙ s.sized,
            omega (
              arith,
              Sends-less m predicate flow _ s,
              subst (λ (i : ℕ). j + count (color_at l) i ≤ count (color_at s.after) i) s.sized r.1,
            ),
          )
    ]

-- Of a valid map no larger than the window, and with a predicate that grants at least one byte
-- of each of its positions and no range beyond the numbers, a lost position makes `pick` send, whatever the flow limit
-- is, from that position or from one before it.
pub pick-lost :
    (m : BufMap) (predicate : ℕ → Option ℕ) (flow window x : ℕ)
    → IsValid m
    → m.size ≤ window
    → ((y available : ℕ)
        → predicate y ≡ some available
        → (0 < available) × (y + available < 2 ^ 64))
    → ((y : ℕ) → y < m.size → predicate y ≢ none)
    → x < m.size
    → color_at m x ≡ lost
    → (s : Sends m predicate flow (pick m predicate flow window)) × (s.start ≤ x)
unfolding wanted
pick-lost m predicate flow window x v wide grants all inside h =
    let w : wanted flow (color_at m x) ≡ true = ap (wanted flow) h in
    elim (pick-Picks m predicate flow window v wide grants) [
      | nothing a f g ↦ let c : false ≡ true = sym (g x inside) ∙ w in absurd (cc)
      | refused y l w' first g f ↦ absurd (all y l g)
      | sends s ↦ (
        s,
        elim (dec_lt x s.start) [
          | yes early ↦ let c : false ≡ true = sym (s.first x early) ∙ w in absurd (cc)
          | no late ↦ omega arith
        ],
      )
    ]
