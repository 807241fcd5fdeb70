-- ===== src/SendBuf/Pick.antt =====
-- qrecovery/src/send/sndbuf.rs: `BufMap::pick`.
pub mod Choice
pub mod Cut
pub mod Range
pub mod Take
pub mod First
pub mod Bounded
use dquic.Base.{
  ℕ, zero, suc, ◌+◌, min, Bool, true, false, not, ltb, leb, ◌==◌, if◌then◌else◌, Option, none, some,
  List, [], ◌∷◌, get_elem?, set, Outcome, ret, ◌>>=◌, expect, add_u64, Result, ok, err,
}
use dquic.SendBuf.State.{
  Color, pending, flighting, lost, recved, eq_color, State, encode, offset, color, set_color,
}
use dquic.SendBuf.Map.{BufMap, same_before, merge_after, drain, insert_state, write_state}

-- `Poll<()>`, which tells whether sending may go on once a limit is raised.
pub data Availability : Type 0 where
  poll_pending poll_ready : Availability

abbrev pub Chosen : Type 0
Chosen = Availability × Option ℕ

-- What the closure of `find` decides on a state before the window's end.
unfoldable pub wanted : ℕ → Color → Bool
wanted flow_limit pending = not (flow_limit == 0)
wanted flow_limit lost = true
wanted flow_limit flighting = false
wanted flow_limit recved = false

abbrev pub blocks : Color → Availability → Availability
blocks pending later = poll_ready
blocks flighting later = later
blocks recved later = later
blocks lost later = later

-- `find` on the states from `index` on, and the availability that it leaves.
unfoldable pub choose : ℕ → ℕ → ℕ → List State → Chosen
unfolding wanted
choose flow_limit window index [] = (poll_pending, none)
choose flow_limit window index (s ∷ rest) =
    let later = choose flow_limit window (index + 1) rest in
    if leb window (offset s)
    then (poll_ready, later.1)
    else if wanted flow_limit (color s)
    then (poll_pending, some index)
    else (blocks (color s) later.0, later.1)

pub record Picked : Type 0 where
  pub start : ℕ
  pub end : ℕ
  pub is_fresh : Bool

abbrev pub next_offset : Option State → ℕ → ℕ
next_offset none size = size
next_offset (some s) size = offset s

-- The state at `index` is cut at `end`: the new state takes the place of a merged one, if there is one.
unfoldable pub cut_state : List State → ℕ → ℕ → ℕ → Color → Outcome (List State)
unfolding write_state insert_state
cut_state states i index end c =
    if ltb i index
    then write_state states (i + 1) (encode end c)
    else insert_state states (i + 1) (encode end c)

-- The states merged into the one at `i`.
unfoldable pub drain_merged : List State → ℕ → ℕ → Outcome (List State)
unfolding drain
drain_merged states i index = if ltb i index then drain states (i + 1) (index + 1) else ret states

-- The two branches on the range's length.
unfoldable pub split_state : List State → ℕ → ℕ → ℕ → Color → Outcome (List State)
unfolding cut_state drain_merged
split_state states i index end c = do
  cut ← cut_state states i index end c
  drain_merged cut (i + 1) index

unfoldable pub join_state : List State → ℕ → ℕ → Outcome (List State)
unfolding merge_after drain_merged
join_state states i index = do
  merged ← merge_after states index flighting
  drain_merged merged i index

unfoldable pub take_range :
    BufMap → ℕ → ℕ → State → ℕ → Outcome (BufMap × Result Picked Availability)
take_range m window index s allowance = do
  let states = set m.states index (set_color s flighting)
  let end = min (next_offset (get_elem? states (index + 1)) m.size) window
  let i = same_before states index flighting
  let is_fresh = eq_color (color s) pending
  limit ← add_u64 (offset s) allowance
  (if ltb limit end
      then (do
        kept ← split_state states i index limit (color s)
        ret (
          record m { states = kept },
          ok (record { start = offset s; end = limit; is_fresh = is_fresh }),
        ))
      else (do
        kept ← join_state states i index
        ret (
          record m { states = kept },
          ok (record { start = offset s; end = end; is_fresh = is_fresh }),
        )))

-- After `find`: the predicate may refuse the state, and flow control does not limit what was lost.
unfoldable pub pick_chosen :
    BufMap → (ℕ → Option ℕ) → ℕ → ℕ → Chosen → Outcome (BufMap × Result Picked Availability)
unfolding take_range
pick_chosen m predicate flow_limit window (availability, none) = ret (m, err availability)
pick_chosen m predicate flow_limit window (availability, some index) = do
  s ← expect (get_elem? m.states index)
  (elim (predicate (offset s)) [
    | none ↦ ret (m, err poll_ready)
    | some available ↦
        take_range m window index s
          (if eq_color (color s) lost then available else min available flow_limit)
  ])

unfoldable pub pick :
    BufMap → (ℕ → Option ℕ) → ℕ → ℕ → Outcome (BufMap × Result Picked Availability)
unfolding choose pick_chosen
pick m predicate flow_limit window =
    pick_chosen m predicate flow_limit window (choose flow_limit window 0 m.states)
