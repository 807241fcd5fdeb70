-- ===== src/SendBuf/Map.antt =====
-- qrecovery/src/send/sndbuf.rs: `BufMap`, the states in order of their offsets and the size, and the
-- operations that read it. A state's colour reaches up to the next state's offset.
use dquic.Base.{
  ℕ, zero, suc, ◌+◌, ◌-◌, ◌%◌, ◌^◌, Bool, true, false, ◌&&◌, ltb, leb, if◌then◌else◌, Option, none,
  some, List, [], ◌∷◌, ◌++◌, length, get_elem?, set, take, drop, Outcome, ret, panic, ◌>>=◌, ◌>>◌,
  assert,
}
use dquic.SendBuf.State.{Color, pending, eq_color, State, encode, offset, color}

pub record BufMap : Type 0 where
  pub states : List State
  pub size : ℕ

unfoldable pub empty_map : BufMap
empty_map = record { states = []; size = 0 }

-- `VecDeque::back`.
abbrev pub back : List State → Option State
back [] = none
back (s ∷ []) = some s
back (s ∷ s' ∷ rest) = back (s' ∷ rest)

abbrev pub is_pending : Option State → Bool
is_pending none = false
is_pending (some s) = eq_color (color s) pending

unfoldable pub extend_to : BufMap → ℕ → Outcome BufMap
extend_to m pos = do
  assert (ltb pos (2 ^ 62))
  assert (leb m.size pos)
  ret (
      if ltb m.size pos
      then record {
        states =
            if is_pending (back m.states) then m.states else m.states ++ encode m.size pending ∷ [];
        size = pos;
      }
      else m)

unfoldable pub sent : BufMap → ℕ
sent m = elim (back m.states) [
  | none ↦ m.size
  | some s ↦ if eq_color (color s) pending then offset s else m.size
]

-- Whether the state at an index is there and has the colour.
abbrev pub has_color : Option State → Color → Bool
has_color none c = false
has_color (some s) c = eq_color (color s) c

-- The index before 0 wraps around to `usize::MAX`, where no deque has an element.
unfoldable pub same_before : List State → ℕ → Color → ℕ
same_before states zero c = zero
same_before states (suc i) c =
    let earlier = same_before states i c in
    if has_color (get_elem? states i) c then earlier else suc i

-- `overflowing_sub(1).0` and `overflowing_add(1).0`.
abbrev pub wrapping_pred : ℕ → ℕ
wrapping_pred n = (n + (2 ^ 64 - 1)) % 2 ^ 64

abbrev pub wrapping_suc : ℕ → ℕ
wrapping_suc n = (n + 1) % 2 ^ 64

-- `next` are the states from the next index on, which may be 0 after `usize::MAX`.
unfoldable pub walk : List State → ℕ → Color → ℕ
walk [] index c = index
walk (s ∷ next) index c =
    let later = walk next ((index + 1) % 2 ^ 64) c in if eq_color (color s) c then later else index

unfoldable pub same_after : List State → ℕ → Color → ℕ
unfolding walk
same_after states index c = walk (drop ((index + 1) % 2 ^ 64) states) index c

-- `VecDeque::drain(start..end)` for what stays, and `VecDeque::insert`.
unfoldable pub drain : List State → ℕ → ℕ → Outcome (List State)
drain states start end =
    if leb start end && leb end (length states)
    then ret (take start states ++ drop end states)
    else panic

unfoldable pub insert_state : List State → ℕ → State → Outcome (List State)
insert_state states index s =
    if leb index (length states) then ret (take index states ++ s ∷ drop index states) else panic

-- An assignment through `get_mut(index).unwrap()`.
unfoldable pub write_state : List State → ℕ → State → Outcome (List State)
write_state states index s = if ltb index (length states) then ret (set states index s) else panic

unfoldable pub merge_after : List State → ℕ → Color → Outcome (List State)
unfolding same_after drain
merge_after states index c =
    if ltb index (same_after states index c)
    then drain states (index + 1) (same_after states index c + 1)
    else ret states

-- `binary_search_by` with the offsets: where the offset is, or where it would be inserted.
pub data Found : Type 0 where
  at_index : ℕ → Found
  before_index : ℕ → Found

abbrev pub shifted : Found → Found
shifted (at_index i) = at_index (suc i)
shifted (before_index i) = before_index (suc i)

-- The documented result on a deque whose offsets increase, where it is unique.
unfoldable pub search : List State → ℕ → Found
search [] target = before_index 0
search (s ∷ rest) target =
    let later = search rest target in
    if ltb (offset s) target
    then shifted later
    else if ltb target (offset s)
    then before_index 0
    else at_index 0

-- The end of `ack_rcvd` and of `may_loss`: a state that takes the place of the first drained one, or
-- is inserted where none is left, and the rest of the drained ones.
unfoldable pub place : List State → ℕ → ℕ → State → Outcome (List State)
unfolding write_state insert_state
place states drain_start drain_end s =
    if ltb drain_start drain_end
    then write_state states drain_start s
    else insert_state states drain_start s

unfoldable pub place_if : Bool → List State → ℕ → ℕ → State → Outcome (List State × ℕ)
unfolding place
place_if false states drain_start drain_end s = ret (states, drain_start)
place_if true states drain_start drain_end s = do
  states' ← place states drain_start drain_end s
  ret (states', drain_start + 1)

unfoldable pub drain_rest : List State → ℕ → ℕ → Outcome (List State)
unfolding drain
drain_rest states drain_start drain_end =
    if ltb drain_start drain_end then drain states drain_start drain_end else ret states

unfoldable pub finish : List State → ℕ → ℕ → Bool → State → Bool → State → Outcome (List State)
unfolding place_if drain_rest
finish states drain_start drain_end at_start first at_end last = do
  r ← place_if at_start states drain_start drain_end first
  r' ← place_if at_end r.0 r.1 drain_end last
  drain_rest r'.0 r'.1 drain_end
