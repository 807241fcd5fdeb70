-- ===== src/SendBuf/Loss.antt =====
-- qrecovery/src/send/sndbuf.rs: `BufMap::may_loss`, `may_lost_from` and `mark_flighting_lost`.
pub mod Tail
pub mod Rounds
pub mod Marks
pub mod Mark
pub mod From
pub mod Loop
pub mod Around
pub mod Cases
pub mod Hit
pub mod Colors
use dquic.Base.{
  ℕ, zero, suc, ◌+◌, Bool, true, false, not, ◌&&◌, ltb, leb, ◌==◌, if◌then◌else◌, List, [], ◌∷◌,
  map, get_elem?, set, drop, Outcome, ret, ◌>>=◌, ◌>>◌, assert, expect,
}
use dquic.SendBuf.State.{
  Color, pending, flighting, recved, lost, eq_color, State, encode, offset, color, set_color,
}
use dquic.SendBuf.Map.{
  BufMap, wrapping_pred, wrapping_suc, same_before, same_after, search, at_index, before_index,
  finish,
}
use dquic.SendBuf.Ack.{Scan}

-- The end of `may_lost_from`: a state at `end` if `at_end`, after the first of the lost ones.
unfoldable pub close : List State → ℕ → ℕ → Bool → State → Outcome (List State)
unfolding finish
close states idx_start idx at_end last = finish states (idx_start + 1) idx false last at_end last

-- `may_lost_from`, from a round of its loop on; the last list are the states from `idx` on.
unfoldable pub lost_loop : ℕ → ℕ → List State → ℕ → ℕ → Color → List State → Outcome (List State)
unfolding close same_after
lost_loop size end states idx_start idx pre_color [] = do
  assert (leb end size)
  close states idx_start idx (ltb end size && eq_color pre_color flighting) (encode end pre_color)
lost_loop size end states idx_start idx pre_color (s ∷ rest) =
    let after_recved = lost_loop size end states (idx + 1) (idx + 1) recved rest in
    let marked = set states idx (set_color s lost) in
    let next = lost_loop size end marked idx_start (idx + 1) (color s) rest in
    if ltb (offset s) end
    then (assert (not (eq_color (color s) pending))
        >> (if eq_color (color s) recved
            then (after_recved >>= λ states'. close states' idx_start idx false (encode end recved))
            else next))
    else if offset s == end
    then close states idx_start (wrapping_suc (same_after states (wrapping_pred idx) lost)) false
        (encode end pre_color)
    else close states idx_start idx (eq_color pre_color flighting) (encode end pre_color)

unfoldable pub may_lost_from : ℕ → List State → ℕ → ℕ → Outcome (List State)
unfolding lost_loop
may_lost_from size states idx_start end =
    lost_loop size end states idx_start idx_start recved (drop idx_start states)

-- The loop of `may_loss`, with the states that it leaves; the last list are those from `drain_end` on.
unfoldable pub loss_scan : ℕ → ℕ → List State → ℕ → Color → List State → Outcome (List State × Scan)
unfolding may_lost_from same_after
loss_scan size end states drain_end pre_color [] = do
  assert (leb end size)
  ret (
    states,
    record {
      drain_end = drain_end;
      at_end = ltb end size && eq_color pre_color flighting;
      pre_color = pre_color;
    },
  )
loss_scan size end states drain_end pre_color (s ∷ rest) =
    let next = loss_scan size end states (drain_end + 1) (color s) rest in
    if ltb (offset s) end
    then (assert (not (eq_color (color s) pending))
        >> (if eq_color (color s) recved
            then (may_lost_from size states (drain_end + 1) end >>= λ states'.
                ret (
                  states',
                  record { drain_end = drain_end; at_end = false; pre_color = pre_color },
                ))
            else next))
    else if offset s == end
    then ret (
      states,
      record {
        drain_end = wrapping_suc (same_after states (wrapping_pred drain_end) lost);
        at_end = false;
        pre_color = pre_color;
      },
    )
    else ret (
      states,
      record {
        drain_end = drain_end;
        at_end = eq_color pre_color flighting;
        pre_color = pre_color;
      },
    )

-- From the loop on.
unfoldable pub loss_from : BufMap → ℕ → ℕ → ℕ → Bool → ℕ → Color → Outcome BufMap
unfolding loss_scan finish
loss_from m start end drain_start at_start drain_end pre_color = do
  r ← loss_scan m.size end m.states drain_end pre_color (drop drain_end m.states)
  states ←
      finish r.0 drain_start r.1.drain_end at_start (encode start lost) r.1.at_end
        (encode end r.1.pre_color)
  ret (record m { states = states })

unfoldable pub lost_after : BufMap → ℕ → ℕ → Outcome BufMap
unfolding may_lost_from
lost_after m idx_start end = do
  states ← may_lost_from m.size m.states idx_start end
  ret (record m { states = states })

unfoldable pub may_loss : BufMap → ℕ → ℕ → Outcome BufMap
unfolding loss_from lost_after search same_before
may_loss m start end = elim (search m.states start) [
  | at_index idx ↦ do
    s ← expect (get_elem? m.states idx)
    assert (not (eq_color (color s) pending))
    let states = set m.states idx (set_color s lost)
    (if eq_color (color s) recved
        then lost_after m (idx + 1) end
        else if eq_color (color s) flighting
        then loss_from (record m { states = states }) start end (same_before states idx lost + 1)
            false (idx + 1) (color s)
        else loss_from m start end (idx + 1) false (idx + 1) (color s))
  | before_index zero ↦ lost_after m zero end
  | before_index (suc i) ↦ do
    s ← expect (get_elem? m.states i)
    assert (not (eq_color (color s) pending))
    (if eq_color (color s) recved
        then lost_after m (suc i) end
        else loss_from m start end (suc i) (eq_color (color s) flighting) (suc i) (color s))
]

unfoldable pub mark_state : State → State
mark_state s = if eq_color (color s) flighting then set_color s lost else s

unfoldable pub mark_flighting_lost : BufMap → BufMap
unfolding mark_state
mark_flighting_lost m = record m { states = map mark_state m.states }
