-- ===== src/SendBuf/Pick/First.antt =====
-- `pick` takes from the first position that may be sent.
use dquic.Base.{
  ℕ, zero, suc, ◌+◌, ◌^◌, ◌≤◌, ◌<◌, min, ◌≡◌, refl, ap, ◌∙◌, sym, arith, true, false, if◌then◌else◌,
  Option, none, some, inl, inr, Option-cases, ◌∷◌, length, get_elem?, Outcome, ret,
  get_elem?-append_right, ok, err, Result,
}
use dquic.SendBuf.State.{Color, pending, flighting, lost, recved, offset, color, eq_color}
use dquic.SendBuf.Map.{BufMap}
use dquic.SendBuf.Paint.{paint-below, color_at}
use dquic.SendBuf.Valid.{IsValid, in_range}
use dquic.SendBuf.Pick.{Picked, Availability, poll_ready, pick, pick_chosen, choose, wanted}
use dquic.SendBuf.Pick.Choice.{choose-Choice, no_state, first_state}
use dquic.SendBuf.Pick.Range.{old-late, old-early, start_in, after_s}
use dquic.SendBuf.Pick.Take.{take_range-Taken}

abbrev pub Call : Type 0
Call = Outcome (BufMap × Result Picked Availability)

-- From the first wanted position on, within the limits, a range of one colour is put in flight.
pub record Sends (m : BufMap) (predicate : ℕ → Option ℕ) (flow : ℕ) (call : Call) : Type 0 where
  pub start : ℕ
  pub end : ℕ
  pub available : ℕ
  pub after : BufMap
  pub returned :
      call
      ≡ ret (
        after,
        ok (record { start = start; end = end; is_fresh = eq_color (color_at m start) pending }),
      )
  pub filled : start < end
  pub inside : end ≤ m.size
  pub granted : predicate start ≡ some available
  pub allowed : end ≤ start + available
  pub credited : color_at m start ≡ pending → end ≤ start + flow
  pub may_go : wanted flow (color_at m start) ≡ true
  pub first : (x : ℕ) → x < start → wanted flow (color_at m x) ≡ false
  pub uniform : (x : ℕ) → start ≤ x → x < end → color_at m x ≡ color_at m start
  pub valid : IsValid after
  pub sized : after.size ≡ m.size
  pub painted :
      (x : ℕ)
      → x < m.size
      → color_at after x ≡ (if in_range start end x then flighting else color_at m x)

pub data Picks (m : BufMap) (predicate : ℕ → Option ℕ) (flow : ℕ) (call : Call) : Type 0 where
  -- Nothing may be sent, and nothing changes.
  nothing :
      (a : Availability)
      → call ≡ ret (m, err a)
      → ((x : ℕ) → x < m.size → wanted flow (color_at m x) ≡ false)
      → Picks m predicate flow call
  -- The first position that may be sent is refused by the predicate, and nothing changes.
  refused :
      (start : ℕ)
      → start < m.size
      → wanted flow (color_at m start) ≡ true
      → ((x : ℕ) → x < start → wanted flow (color_at m x) ≡ false)
      → predicate start ≡ none
      → call ≡ ret (m, err poll_ready)
      → Picks m predicate flow call
  sends : Sends m predicate flow call → Picks m predicate flow call

allowance-positive :
    (flow available : ℕ) (c : Color)
    → 0 < available
    → wanted flow c ≡ true
    → 0 < (if eq_color c lost then available else min available flow)
unfolding wanted
allowance-positive zero available pending h w = cc
allowance-positive (suc flow) available pending h w = omega arith
allowance-positive flow available flighting h w = cc
allowance-positive flow available recved h w = cc
allowance-positive flow available lost h w = h

allowance-bounds :
    (flow available : ℕ) (c : Color)
    → ((if eq_color c lost then available else min available flow) ≤ available)
      × (c ≡ pending → (if eq_color c lost then available else min available flow) ≤ flow)
allowance-bounds flow available pending = (omega arith, λ _. omega arith)
allowance-bounds flow available flighting = (omega arith, λ _. omega arith)
allowance-bounds flow available recved = (omega arith, λ _. omega arith)
allowance-bounds flow available lost = (omega arith, λ e. cc)

-- Of a valid map no larger than the window, and with a predicate that grants at least one byte and
-- no range beyond the numbers, `pick` returns one of three things. Nothing may be sent, and nothing
-- changes; or the predicate refuses the first position that may be sent, and nothing changes; or a range
-- of one colour from that first position on, within the size, the grant and, for what is pending, the
-- flow limit, is in flight from then on, is returned with whether it was pending, and no other
-- colour changes. Lost and, with a flow limit, pending positions may be sent.
pub pick-Picks :
    (m : BufMap) (predicate : ℕ → Option ℕ) (flow window : ℕ)
    → IsValid m
    → m.size ≤ window
    → ((x available : ℕ)
        → predicate x ≡ some available
        → (0 < available) × (x + available < 2 ^ 64))
    → Picks m predicate flow (pick m predicate flow window)
unfolding pick pick_chosen wanted color_at
pick-Picks m predicate flow window v wide fits =
    elim (choose-Choice flow window 0 0 m.size m.states v.ascending wide) [
      | no_state a e f ↦ nothing a (rw (pick, e) refl) (λ x h. f recved x refl)
      | first_state a xs s ys e' whole f w ↦
          let none_before : 0 + length xs ≡ length xs = omega arith in
          let e : choose flow window 0 m.states ≡ (a, some (length xs)) =
            e' ∙ ap (λ (k : ℕ). (a, some k)) none_before in
          let here : get_elem? m.states (length xs) ≡ some s =
            ap (λ l. get_elem? l (length xs)) whole
            ∙ get_elem?-append_right xs (s ∷ ys) (length xs) 0 (omega arith) in
          let in_map = start_in m v xs s ys whole in
          let at : color_at m (offset s) ≡ color s =
            old-late m v xs s ys whole (offset s) (omega arith)
            ∙ paint-below (color s) ys (offset s + 1) m.size (offset s) (after_s m v xs s ys whole)
                (omega arith) in
          let may_go : wanted flow (color_at m (offset s)) ≡ true = ap (wanted flow) at ∙ w in
          let first : (x : ℕ) → x < offset s → wanted flow (color_at m x) ≡ false =
            λ x h. ap (wanted flow) (old-early m v xs s ys whole x h) ∙ f recved x refl in
          elim (Option-cases (predicate (offset s))) [
            | inl none_ ↦
                refused (offset s) in_map may_go first none_
                  (rw (pick, e, pick_chosen, here, none_) refl)
            | inr (available, g) ↦
                let allowance = if eq_color (color s) lost then available else min available flow in
                let (more, room) = fits (offset s) available g in
                let (low, credit) = allowance-bounds flow available (color s) in
                let t =
                  take_range-Taken m v xs s ys whole window allowance wide
                    (allowance-positive flow available (color s) more w) (omega arith) in
                sends (record {
                  start = offset s;
                  end = t.end;
                  available = available;
                  after = t.after;
                  returned = rw (pick, e, pick_chosen, here, g, at) t.returned;
                  filled = t.filled;
                  inside = t.inside;
                  granted = g;
                  allowed = omega (arith, t.allowed);
                  credited = λ p. omega (arith, t.allowed, credit (sym at ∙ p));
                  may_go = may_go;
                  first = first;
                  uniform = λ x h h'. t.uniform x h h' ∙ sym at;
                  valid = t.valid;
                  sized = t.sized;
                  painted = t.painted;
                })
          ]
    ]
