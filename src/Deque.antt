-- ===== src/Deque.antt =====
-- qbase/src/util/index_deque.rs: a queue indexed by the number under which an element was enqueued.
-- `LIMIT` is a parameter; the capacity of the underlying `VecDeque` is no part of the state.
pub mod Lookup
pub mod Growth
pub mod Insert
pub mod Resize
pub mod Shrink
mod Runs
use dquic.Base.{
  ℕ, zero, suc, ◌+◌, ◌-◌, ◌%◌, ◌^◌, min, max, Bool, true, false, not, ◌&&◌, ◌||◌, ltb, leb, ◌==◌,
  if◌then◌else◌, Option, none, some, List, [], ◌∷◌, ◌++◌, length, get_elem?, set, take, drop,
  replicate, Outcome, ret, panic, ◌>>=◌, ◌>>◌, assert, expect, add_u64, sub_u64, Result, ok, err,
}

pub data IndexError : Type 0 where
  exceed_limit : ℕ → ℕ → IndexError
  too_small : ℕ → ℕ → IndexError

-- `VecDeque::resize` and `VecDeque::drain(..n)`, which panics beyond the end.
unfoldable pub resize_deque {ℓ} : {A : Type ℓ} → List A → ℕ → A → List A
resize_deque xs n v = take n xs ++ replicate (n - length xs) v

unfoldable pub drain_front {ℓ} : {A : Type ℓ} → List A → ℕ → Outcome (List A × List A)
drain_front xs n = if leb n (length xs) then ret (take n xs, drop n xs) else panic

pub record IndexDeque {ℓ} (A : Type ℓ) : Type ℓ where
  pub deque : List A
  pub offset : ℕ

module _ {ℓ} {A : Type ℓ} where
  unfoldable pub with_capacity : ℕ → IndexDeque A
  with_capacity capacity = record { deque = []; offset = 0 }

  unfoldable pub is_empty : IndexDeque A → Bool
  is_empty q = length q.deque == 0

  unfoldable pub largest : IndexDeque A → Outcome ℕ
  largest q = add_u64 q.offset (length q.deque)

  unfoldable pub contain : IndexDeque A → ℕ → Outcome Bool
  unfolding largest
  contain q idx = if leb q.offset idx then (largest q >>= λ end. ret (ltb idx end)) else ret false

  -- `Index::index`.
  unfoldable pub index : IndexDeque A → ℕ → Outcome A
  index q idx = do pos ← sub_u64 idx q.offset; expect (get_elem? q.deque pos)

  unfoldable pub get : IndexDeque A → ℕ → Outcome (Option A)
  unfolding contain index
  get q idx = do
    inside ← contain q idx
    if inside then (index q idx >>= λ v. ret (some v)) else ret none

  unfoldable pub pop_front : IndexDeque A → Outcome (IndexDeque A × Option (ℕ × A))
  pop_front q = elim q.deque [
    | [] ↦ ret (q, none)
    | v ∷ rest ↦ add_u64 q.offset 1 >>= λ next.
        ret (record { deque = rest; offset = next }, some (q.offset, v))
  ]

  unfoldable pub advance : IndexDeque A → ℕ → Outcome (IndexDeque A)
  unfolding drain_front
  advance q n = do
    offset ← add_u64 q.offset n
    r ← drain_front q.deque n
    ret (record { deque = r.1; offset = offset })

  -- `asserts` tells whether `debug_assert!` is compiled in: it is in the debug profile, save in the
  -- unit tests of the crate.
  unfoldable pub drain_to : Bool → IndexDeque A → ℕ → Outcome (IndexDeque A × List A)
  unfolding largest drain_front
  drain_to asserts q end = do
    end_of ← largest q
    assert (not asserts || (leb q.offset end && leb end end_of))
    let offset = min (max end q.offset) end_of
    r ← drain_front q.deque (offset - q.offset)
    ret (record { deque = r.1; offset = offset }, r.0)

  unfoldable pub reset_offset : IndexDeque A → ℕ → IndexDeque A
  reset_offset q new_offset = record q { offset = new_offset }

  unfoldable pub extend : IndexDeque A → List A → IndexDeque A
  extend q items = record q { deque = q.deque ++ items }

  -- `insert` at or after the end, and within the queue.
  unfoldable pub insert_beyond : A → IndexDeque A → ℕ → A → IndexDeque A
  unfolding resize_deque
  insert_beyond default q pos value = record q {
    deque =
        (if ltb (length q.deque) pos then resize_deque q.deque pos default else q.deque)
        ++ value ∷ [];
  }

  unfoldable pub insert_at : A → IndexDeque A → ℕ → A → IndexDeque A × Result (Option A) IndexError
  unfolding insert_beyond
  insert_at default q pos value =
      if ltb pos (length q.deque)
      then (record q { deque = set q.deque pos value }, ok (get_elem? q.deque pos))
      else (insert_beyond default q pos value, ok none)

module _ {ℓ} {A : Type ℓ} where
  unfoldable pub len : IndexDeque A → ℕ
  len q = length q.deque

  -- `get_mut`, and a write of `v` through the reference that it returns.
  unfoldable pub write_at : IndexDeque A → ℕ → A → Outcome (IndexDeque A)
  unfolding contain
  write_at q idx v = do
    inside ← contain q idx
    ret (if inside then record q { deque = set q.deque (idx - q.offset) v } else q)

  unfoldable pub front : IndexDeque A → Option (ℕ × A)
  front q = elim q.deque [ [] ↦ none | v ∷ rest ↦ some (q.offset, v) ]

  unfoldable pub back : IndexDeque A → Outcome (Option (ℕ × A))
  unfolding largest
  back q = elim (get_elem? q.deque (length q.deque - 1)) [
    | none ↦ ret none
    | some v ↦ largest q >>= λ end. (sub_u64 end 1 >>= λ idx. ret (some (idx, v)))
  ]

  unfoldable pub enumerate_from : ℕ → ℕ → List A → Outcome (List (ℕ × A))
  enumerate_from offset idx [] = ret []
  enumerate_from offset idx (item ∷ rest) = do
    number ← add_u64 offset idx
    more ← enumerate_from offset (idx + 1) rest
    ret ((number, item) ∷ more)

  -- All pairs that the iterator yields.
  unfoldable pub enumerate : IndexDeque A → Outcome (List (ℕ × A))
  unfolding enumerate_from
  enumerate q = enumerate_from q.offset 0 q.deque

module _ {ℓ} {A : Type ℓ} (limit : ℕ) where
  -- The sum wraps around; the second conjunct of `next_idx` tells whether it did.
  unfoldable pub push_back : IndexDeque A → A → IndexDeque A × Result ℕ IndexError
  push_back q value =
      if leb (2 ^ 64) (q.offset + length q.deque)
        || ltb limit ((q.offset + length q.deque) % 2 ^ 64)
      then (q, err (exceed_limit ((q.offset + length q.deque) % 2 ^ 64) limit))
      else (
        record q { deque = q.deque ++ value ∷ [] },
        ok (length (q.deque ++ value ∷ []) - 1 + q.offset),
      )

  unfoldable pub insert : A → IndexDeque A → ℕ → A → IndexDeque A × Result (Option A) IndexError
  unfolding insert_at
  insert default q idx value =
      if ltb limit idx
      then (q, err (exceed_limit idx limit))
      else if ltb idx q.offset
      then (q, err (too_small idx q.offset))
      else insert_at default q (idx - q.offset) value

  unfoldable pub resize : IndexDeque A → ℕ → A → IndexDeque A × Result (Unit {0}) IndexError
  unfolding resize_deque
  resize q new_end value =
      if ltb new_end q.offset
      then (q, err (too_small new_end q.offset))
      else if ltb limit new_end
      then (q, err (exceed_limit new_end limit))
      else (record q { deque = resize_deque q.deque (new_end - q.offset) value }, ok tt)
