-- ===== src/SendBuf/Runs.antt =====
-- A send buffer at concrete values.
use dquic.Base.{
  List, take, drop, ◌-◌, ℕ, ◌+◌, ◌*◌, ◌^◌, ◌≤◌, ◌<◌, ◌≡◌, ◌≢◌, ◌⊎◌, refl, arith, true, false, ltb,
  leb, if◌then◌else◌, some, none, [], ◌∷◌, ret, add_u64, ok, err, Option,
}
use dquic.Base.Nom.{BytesOps}
use dquic.SendBuf.State.{
  Color, pending, flighting, recved, lost, prefix, encode, offset, of_tag, color, set_color,
}
use dquic.SendBuf.Map.{
  BufMap, empty_map, extend_to, search, same_before, walk, same_after, drain, insert_state,
  write_state, merge_after, place, place_if, drain_rest, finish,
}
use dquic.SendBuf.Paint.{Ascending, paint, color_at}
use dquic.SendBuf.Valid.{IsValid, Returns, in_range}
use dquic.SendBuf.Ack.{ack_scan, ack_from, ack_rcvd, shift, pop_recved}
use dquic.SendBuf.Ack.Colors.{ack_rcvd-Returns}
use dquic.SendBuf.Loss.{close, lost_loop, may_lost_from, loss_scan, loss_from, may_loss}
use dquic.SendBuf.Loss.Tail.{lose}
use dquic.SendBuf.Loss.Colors.{may_loss-Returns}
use dquic.SendBuf.Pick.{
  Availability, wanted, choose, pick_chosen, take_range, split_state, join_state, cut_state,
  drain_merged, pick,
}
use dquic.SendBuf.Pick.First.{Picks, Sends, pick-Picks}
use dquic.SendBuf.Pick.Bounded.{count, no_more, one_more, PickRun-count, pick-lost}
use dquic.SendBuf.Buffer.{
  SendBuf, with_capacity, written, write, pieces, pick_up, drain_data, on_data_acked, may_loss_data,
  is_all_rcvd,
}
use dquic.SendBuf.Buffer.PickUp.{PicksUp}
use dquic.SendBuf.Buffer.Steps.{Life, Reach, Inv, created, called, wrote, picked}
use dquic.SendBuf.Buffer.Reachable.{Reach-Inv, Reach-returns, Reach-PicksUp, Reach-is_all_rcvd}

abbrev of : Color → ℕ → ℕ
of pending pos = pos
of flighting pos = 2 ^ 62 + pos
of lost pos = 2 * 2 ^ 62 + pos
of recved pos = 3 * 2 ^ 62 + pos

-- In flight up to 10, received up to 20, in flight up to 30, lost up to 40, and then pending.
abbrev mixed : BufMap
mixed = record {
  states = of flighting 0 ∷ of recved 10 ∷ of flighting 20 ∷ of lost 30 ∷ of pending 40 ∷ [];
  size = 50;
}

mixed-IsValid : IsValid mixed
unfolding Ascending offset
mixed-IsValid = record {
  ascending = (
    omega arith,
    omega arith,
    (
      omega arith,
      omega arith,
      (omega arith, omega arith, (omega arith, omega arith, (omega arith, omega arith, tt))),
    ),
  );
  small = omega arith;
}

-- The loss of 5 to 25 goes around what has been received.
mixed-may_loss :
    may_loss mixed 5 25
    ≡ ret (record {
      states =
          of flighting 0
          ∷ of lost 5
          ∷ of recved 10
          ∷ of lost 20
          ∷ of flighting 25
          ∷ of lost 30
          ∷ of pending 40
          ∷ [];
      size = 50;
    })
unfolding may_loss search color of_tag offset loss_from loss_scan may_lost_from lost_loop close
    finish place_if place drain_rest drain insert_state write_state encode prefix set_color
    same_before same_after walk
mixed-may_loss = refl

mixed-ack_rcvd :
    ack_rcvd mixed 5 25
    ≡ ret (record {
      states = of flighting 0 ∷ of recved 5 ∷ of flighting 25 ∷ of lost 30 ∷ of pending 40 ∷ [];
      size = 50;
    })
unfolding ack_rcvd search color of_tag offset ack_from ack_scan finish place_if place drain_rest
    drain insert_state write_state encode prefix set_color same_before same_after walk
mixed-ack_rcvd = refl

mixed-sent : (x : ℕ) → 5 ≤ x → x < 25 → color_at mixed x ≢ pending
unfolding color_at paint color of_tag offset
mixed-sent x h h' = λ e. ground arith

ack_rcvd-Returns_example :
    Returns (ack_rcvd mixed 5 25) 50 (λ x. if in_range 5 25 x then recved else color_at mixed x)
ack_rcvd-Returns_example =
    ack_rcvd-Returns mixed 5 25 mixed-IsValid (omega arith) (omega arith) mixed-sent

may_loss-Returns_example :
    Returns
      (may_loss mixed 5 25)
      50
      (λ x. if in_range 5 25 x then lose (color_at mixed x) else color_at mixed x)
may_loss-Returns_example =
    may_loss-Returns mixed 5 25 mixed-IsValid (omega arith) (omega arith) mixed-sent

abbrev three : ℕ → Option ℕ
three x = if ltb x 1000 then some 3 else none

three-grants :
    (x available : ℕ) → three x ≡ some available → (0 < available) × (x + available < 2 ^ 64)
three-grants x available e = ground arith

-- What was lost goes first, and what is left of it stays lost.
mixed-pick :
    pick mixed three 10 100
    ≡ ret (
      record {
        states = of flighting 0 ∷ of recved 10 ∷ of flighting 20 ∷ of lost 33 ∷ of pending 40 ∷ [];
        size = 50;
      },
      ok (record { start = 30; end = 33; is_fresh = false }),
    )
unfolding pick choose wanted pick_chosen take_range split_state join_state cut_state drain_merged
    merge_after color of_tag offset drain insert_state write_state encode prefix set_color
    same_before same_after walk add_u64
mixed-pick = refl

pick-Picks_example : Picks mixed three 10 (pick mixed three 10 100)
pick-Picks_example = pick-Picks mixed three 10 100 mixed-IsValid (omega arith) three-grants

-- `Bytes` as lists.
instance abbrev byte_list : BytesOps
byte_list = record {
  Bytes = List ℕ;
  contents = λ d. d;
  slice = λ d start end. take (end - start) (drop start d);
  contents-slice = λ d start end h h'. refl;
}

-- Five bytes are written and three are picked up.
abbrev buffer0 : SendBuf
buffer0 = record {
  offset = 0;
  chunks = (10 ∷ 11 ∷ 12 ∷ 13 ∷ 14 ∷ []) ∷ [];
  max_data = 100;
  state = record { states = of pending 0 ∷ []; size = 5 };
}

abbrev buffer1 : SendBuf
buffer1 = record {
  offset = 0;
  chunks = (10 ∷ 11 ∷ 12 ∷ 13 ∷ 14 ∷ []) ∷ [];
  max_data = 100;
  state = record { states = of flighting 0 ∷ of pending 3 ∷ []; size = 5 };
}

abbrev life : Life
life = record { buffer = buffer1; content = 10 ∷ 11 ∷ 12 ∷ 13 ∷ 14 ∷ []; frames = (0, 3) ∷ [] }

life-write : write (with_capacity 100) (10 ∷ 11 ∷ 12 ∷ 13 ∷ 14 ∷ []) ≡ ret buffer0
unfolding with_capacity empty_map write written add_u64 extend_to encode prefix
life-write = refl

life-pick_up :
    pick_up buffer0 three 10
    ≡ ret (buffer1, ok (record { start = 0; end = 3; is_fresh = true }, (10 ∷ 11 ∷ 12 ∷ []) ∷ []))
unfolding pick_up pieces pick choose wanted pick_chosen take_range split_state join_state cut_state
    drain_merged merge_after color of_tag offset drain insert_state write_state encode prefix
    set_color same_before same_after walk add_u64
life-pick_up = refl

life-on_data_acked :
    on_data_acked buffer1 0 3
    ≡ ret (record {
      offset = 3;
      chunks = (13 ∷ 14 ∷ []) ∷ [];
      max_data = 100;
      state = record { states = of pending 3 ∷ []; size = 5 };
    })
unfolding on_data_acked drain_data shift pop_recved ack_rcvd search color of_tag offset ack_from
    ack_scan finish place_if place drain_rest drain insert_state write_state encode prefix set_color
    same_before same_after walk
life-on_data_acked = refl

life-Reach : Reach 100 life
unfolding with_capacity
life-Reach =
    called (called created (wrote (10 ∷ 11 ∷ 12 ∷ 13 ∷ 14 ∷ []) buffer0 (omega arith) life-write))
      (picked three 10 _ three-grants life-pick_up)

Reach-returns_example :
    ((n : SendBuf) × (on_data_acked buffer1 0 3 ≡ ret n))
    × ((n : SendBuf) × (may_loss_data buffer1 0 3 ≡ ret n))
Reach-returns_example = Reach-returns 100 life 0 0 3 (omega arith) life-Reach refl

Reach-PicksUp_example :
    ((a : Availability) × (pick_up buffer1 three 10 ≡ ret (buffer1, err a)))
    ⊎ PicksUp buffer1 three 10 (10 ∷ 11 ∷ 12 ∷ 13 ∷ 14 ∷ [])
Reach-PicksUp_example = Reach-PicksUp 100 life three 10 (omega arith) life-Reach three-grants

Reach-is_all_rcvd_example : is_all_rcvd buffer1 ≡ leb 5 0
Reach-is_all_rcvd_example = Reach-is_all_rcvd 100 life (omega arith) life-Reach

Reach-Inv_example : Inv life
Reach-Inv_example = Reach-Inv 100 life (omega arith) life-Reach

buffer0-IsValid : IsValid buffer0.state
unfolding Ascending offset
buffer0-IsValid = record { ascending = (omega arith, omega arith, tt); small = omega arith }

-- One pick from a map with five pending positions leaves two of them.
PickRun-count_example :
    (buffer1.state.size ≡ 5)
    × (1 + count (color_at buffer1.state) 5 ≤ count (color_at buffer0.state) 5)
unfolding pick choose wanted pick_chosen take_range split_state join_state cut_state drain_merged
    merge_after color of_tag offset drain insert_state write_state encode prefix set_color
    same_before same_after walk add_u64
PickRun-count_example =
    PickRun-count 100 buffer0.state buffer1.state 1 buffer0-IsValid (omega arith)
      (one_more three 10 (record { start = 0; end = 3; is_fresh = true }) three-grants refl no_more)

-- The positions from 30 on are lost; even without a flow limit left they go.
pick-lost_example : (s : Sends mixed three 0 (pick mixed three 0 100)) × (s.start ≤ 35)
unfolding color_at paint color of_tag offset
pick-lost_example =
    pick-lost mixed three 0 100 35 mixed-IsValid (omega arith) three-grants (λ y h e. ground arith)
      (omega arith) refl
