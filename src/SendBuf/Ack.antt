-- ===== src/SendBuf/Ack.antt =====
-- qrecovery/src/send/sndbuf.rs: `BufMap::ack_rcvd` and `BufMap::shift`.
pub mod Loop
pub mod Around
pub mod Colors
use dquic.Base.{
  ℕ, zero, suc, ◌+◌, ◌-◌, ◌%◌, ◌^◌, Bool, true, false, not, ◌&&◌, ltb, leb, ◌==◌, if◌then◌else◌,
  List, [], ◌∷◌, get_elem?, set, drop, Outcome, ret, ◌>>=◌, ◌>>◌, assert, expect,
}
use dquic.SendBuf.State.{Color, pending, recved, eq_color, State, encode, offset, color, set_color}
use dquic.SendBuf.Map.{
  BufMap, wrapping_pred, wrapping_suc, same_before, same_after, search, at_index, before_index,
  finish,
}

-- What a loop leaves: `drain_end`, `need_insert_at_end` and `pre_color`.
pub record Scan : Type 0 where
  pub drain_end : ℕ
  pub at_end : Bool
  pub pre_color : Color

-- The loop; the last list are the states from `drain_end` on.
unfoldable pub ack_scan : BufMap → ℕ → ℕ → Color → List State → Outcome Scan
unfolding same_after
ack_scan m end drain_end pre_color [] = do
  assert (leb end m.size)
  ret (record {
    drain_end = drain_end;
    at_end = ltb end m.size && not (eq_color pre_color recved);
    pre_color = pre_color;
  })
ack_scan m end drain_end pre_color (s ∷ rest) =
    let next = ack_scan m end (drain_end + 1) (color s) rest in
    if ltb (offset s) end
    then (assert (not (eq_color (color s) pending)) >> next)
    else if offset s == end
    then ret (record {
      drain_end = wrapping_suc (same_after m.states (wrapping_pred drain_end) recved);
      at_end = false;
      pre_color = pre_color;
    })
    else ret (record {
      drain_end = drain_end;
      at_end = not (eq_color pre_color recved);
      pre_color = pre_color;
    })

-- From the loop on.
unfoldable pub ack_from : BufMap → ℕ → ℕ → ℕ → Bool → ℕ → Color → Outcome BufMap
unfolding ack_scan finish
ack_from m start end drain_start at_start drain_end pre_color = do
  r ← ack_scan m end drain_end pre_color (drop drain_end m.states)
  states ←
      finish m.states drain_start r.drain_end at_start (encode start recved) r.at_end
        (encode end r.pre_color)
  ret (record m { states = states })

unfoldable pub ack_rcvd : BufMap → ℕ → ℕ → Outcome BufMap
unfolding ack_from search same_before
ack_rcvd m start end = elim (search m.states start) [
  | at_index idx ↦ do
    s ← expect (get_elem? m.states idx)
    assert (not (eq_color (color s) pending))
    let states = set m.states idx (set_color s recved)
    ack_from (record m { states = states }) start end (same_before states idx recved + 1) false
        (idx + 1) (color s)
  | before_index zero ↦ ack_from m start end 0 false 0 recved
  | before_index (suc i) ↦ do
    s ← expect (get_elem? m.states i)
    assert (not (eq_color (color s) pending))
    ack_from m start end (suc i) (not (eq_color (color s) recved)) (suc i) (color s)
]

-- The states that `shift` leaves; it returns the offset of the first, or the size.
unfoldable pub pop_recved : List State → List State
pop_recved [] = []
pop_recved (s ∷ rest) =
    let later = pop_recved rest in if eq_color (color s) recved then later else s ∷ rest

abbrev pub first_offset : List State → ℕ → ℕ
first_offset [] size = size
first_offset (s ∷ rest) size = offset s

unfoldable pub shift : BufMap → BufMap × ℕ
unfolding pop_recved
shift m = (record m { states = pop_recved m.states }, first_offset (pop_recved m.states) m.size)
