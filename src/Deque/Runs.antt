-- ===== src/Deque/Runs.antt =====
-- The queue at concrete values.
use dquic.Base.{
  add_u64, ℕ, ◌+◌, ◌≤◌, ◌<◌, ◌≡◌, ◌⊎◌, refl, arith, true, false, min, max, ◌==◌, if◌then◌else◌,
  some, List, [], ◌∷◌, length, take, ret, panic, ok, err,
}
use dquic.Deque.{IndexDeque, exceed_limit, too_small, push_back, insert, resize, advance, drain_to}
use dquic.Deque.Lookup.{lookup, end_of}
use dquic.Deque.Growth.{push_back_cases}
use dquic.Deque.Insert.{placed, insert-placed}
use dquic.Deque.Resize.{cut, resize_cases}
use dquic.Deque.Shrink.{TakenApart, advance_cases, drain_to_cases}

-- Three elements under the numbers 5, 6 and 7.
abbrev queue : IndexDeque ℕ
queue = record { deque = 50 ∷ 60 ∷ 70 ∷ []; offset = 5 }

push_back_cases_example :
    ((end_of queue ≤ 19)
      × ((push_back 19 queue 80).1 ≡ ok (end_of queue))
      × ((push_back 19 queue 80).0.offset ≡ queue.offset)
      × (lookup (push_back 19 queue 80).0 8
          ≡ (if 8 == end_of queue then some 80 else lookup queue 8)))
    ⊎ ((19 < end_of queue) × ((n : ℕ) × (push_back 19 queue 80 ≡ (queue, err (exceed_limit n 19)))))
push_back_cases_example = push_back_cases 19 queue 80 8 (omega arith)

insert-placed_example :
    ((10 ≤ 19)
      × (queue.offset ≤ 10)
      × ((insert 19 0 queue 10 100).1 ≡ ok (lookup queue 10))
      × (lookup (insert 19 0 queue 10 100).0 9 ≡ placed (lookup queue) (end_of queue) 0 10 100 9))
    ⊎ ((19 < 10) × (insert 19 0 queue 10 100 ≡ (queue, err (exceed_limit 10 19))))
    ⊎ ((10 ≤ 19)
        × (10 < queue.offset)
        × (insert 19 0 queue 10 100 ≡ (queue, err (too_small 10 queue.offset))))
insert-placed_example = insert-placed 19 0 queue 10 100 9

resize_cases_example :
    ((queue.offset ≤ 6)
      × (6 ≤ 19)
      × ((resize 19 queue 6 1).1 ≡ ok tt)
      × ((resize 19 queue 6 1).0.offset ≡ queue.offset)
      × (end_of (resize 19 queue 6 1).0 ≡ 6)
      × (lookup (resize 19 queue 6 1).0 6 ≡ cut (lookup queue) (end_of queue) 6 1 6))
    ⊎ ((6 < queue.offset) × (resize 19 queue 6 1 ≡ (queue, err (too_small 6 queue.offset))))
    ⊎ ((queue.offset ≤ 6) × (19 < 6) × (resize 19 queue 6 1 ≡ (queue, err (exceed_limit 6 19))))
resize_cases_example = resize_cases 19 queue 6 1 6

-- The unit test of the source, without the assertion, on this queue.
drain_beyond_end_clamps :
    drain_to false queue 30 ≡ ret (record { deque = []; offset = 8 }, 50 ∷ 60 ∷ 70 ∷ [])
unfolding drain_to add_u64
drain_beyond_end_clamps = refl

drain_to_cases_example :
    ((true ≡ true) × ((7 < queue.offset) ⊎ (end_of queue < 7)) × (drain_to true queue 7 ≡ panic))
    ⊎ (((true ≡ false) ⊎ ((queue.offset ≤ 7) × (7 ≤ end_of queue)))
        × ((t : IndexDeque ℕ) × (taken : List ℕ) × (drain_to true queue 7 ≡ ret (t, taken))
            × TakenApart queue t taken (min (max 7 queue.offset) (end_of queue)) 6))
drain_to_cases_example = drain_to_cases true queue 7 6 (omega arith)

advance_cases_example :
    ((2 ≤ length queue.deque)
      × ((t : IndexDeque ℕ) × (advance queue 2 ≡ ret t)
          × TakenApart queue t (take 2 queue.deque) (queue.offset + 2) 7))
    ⊎ ((length queue.deque < 2) × (advance queue 2 ≡ panic))
advance_cases_example = advance_cases queue 2 7 (omega arith)
