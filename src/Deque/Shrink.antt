-- ===== src/Deque/Shrink.antt =====
-- What dequeueing does to the partial function.
use dquic.Base.{
  ℕ, ◌+◌, ◌-◌, ◌^◌, min, max, ◌≤◌, ◌<◌, ◌≡◌, ◌⊎◌, inl, inr, refl, ap, ◌∙◌, arith, ltb,
  if◌then◌else◌, none, some, List, [], ◌∷◌, length, get_elem?, take, drop, get_elem?-none,
  get_elem?-drop, get_elem?-take, length-take, length-drop, dec_le, dec_lt, le→leb, lt→leb, lt→ltb,
  Bool, true, false, not, ◌&&◌, ◌||◌, leb, le→ltb, ret, panic, add_u64-ret,
}
use dquic.Deque.{IndexDeque, pop_front, advance, drain_to}
use dquic.Deque.Lookup.{lookup, end_of, lookup_at}

module _ {ℓ} {A : Type ℓ} where
  lookup-drop :
      (q : IndexDeque A) (n m j : ℕ)
      → q.offset + n ≡ m
      → lookup (record { deque = drop n q.deque; offset = m }) j
        ≡ (if ltb j m then none else lookup q j)
  lookup-drop q n m j e = elim (dec_lt j m) [
    | yes low ↦ rw (lt→ltb j m low, lt→leb m j low) refl
    | no up ↦
        rw
          (le→ltb j m (omega arith), le→leb m j (omega arith), le→leb q.offset j (omega (arith, e)))
          (get_elem?-drop n (j - m) q.deque ∙ ap (get_elem? q.deque) (place (omega arith)))
  ]
    where
      place : m ≤ j → n + (j - m) ≡ j - q.offset
      place h = omega (arith, e)

  lookup-take :
      (q : IndexDeque A) (n j : ℕ)
      → lookup (record { deque = take n q.deque; offset = q.offset }) j
        ≡ (if ltb j (q.offset + n) then lookup q j else none)
  lookup-take q n j = elim (dec_lt j q.offset) [
    | yes low ↦ rw (lt→leb q.offset j low, lt→ltb j (q.offset + n) (omega arith)) refl
    | no up ↦ rw (le→leb q.offset j (omega arith)) (elim (dec_lt j (q.offset + n)) [
      | yes within ↦
          rw (lt→ltb j (q.offset + n) within)
            (get_elem?-take n (j - q.offset) q.deque (omega arith))
      | no beyond ↦
          rw (le→ltb j (q.offset + n) (omega arith))
            (get_elem?-none (take n q.deque) (j - q.offset) (omega (arith, length-take n q.deque)))
    ])
  ]

  -- The queue `q` is taken apart at the number `m`.
  pub record TakenApart (q t : IndexDeque A) (taken : List A) (m j : ℕ) : Type ℓ where
    pub new_offset : t.offset ≡ m
    pub same_end : end_of t ≡ end_of q
    pub kept : lookup t j ≡ (if ltb j m then none else lookup q j)
    pub removed :
        lookup (record { deque = taken; offset = q.offset }) j
        ≡ (if ltb j m then lookup q j else none)

  apart :
      (q : IndexDeque A) (n m j : ℕ)
      → n ≤ length q.deque
      → q.offset + n ≡ m
      → TakenApart q (record { deque = drop n q.deque; offset = m }) (take n q.deque) m j
  apart q n m j h e = record {
    new_offset = refl;
    same_end = omega (arith, e, length-drop n q.deque);
    kept = lookup-drop q n m j e;
    removed = lookup-take q n j ∙ ap (λ x. if ltb j x then lookup q j else none) e;
  }

  -- What `drain_to` does once no assertion has failed.
  drain_to-clamped :
      (asserts : Bool) (q : IndexDeque A) (end j : ℕ)
      → end_of q < 2 ^ 64
      → (not asserts || (leb q.offset end && leb end (end_of q))) ≡ true
      → (t : IndexDeque A) × (taken : List A) × (drain_to asserts q end ≡ ret (t, taken))
        × TakenApart q t taken (min (max end q.offset) (end_of q)) j
  unfolding drain_to
  drain_to-clamped asserts q end j h e =
      let at = min (max end q.offset) (end_of q) in
      let low : q.offset ≤ at = omega arith in
      let high : at - q.offset ≤ length q.deque = omega arith in
      (
        record { deque = drop (at - q.offset) q.deque; offset = at },
        take (at - q.offset) q.deque,
        rw
            (
              drain_to,
              add_u64-ret q.offset (length q.deque) h,
              e,
              le→leb (at - q.offset) (length q.deque) high,
            )
            refl,
        apart q (at - q.offset) at j high (omega (arith, low)),
      )

  -- While the numbers fit a u64: where assertions are compiled in, `drain_to` panics exactly for a
  -- number that is not from the offset up to the end. Otherwise it takes the queue apart at the
  -- number, clamped to the offset and the end: the elements before it are returned under their
  -- numbers, the others keep theirs.
  pub drain_to_cases :
      (asserts : Bool) (q : IndexDeque A) (end j : ℕ)
      → end_of q < 2 ^ 64
      → ((asserts ≡ true)
          × ((end < q.offset) ⊎ (end_of q < end))
          × (drain_to asserts q end ≡ panic))
        ⊎ (((asserts ≡ false) ⊎ ((q.offset ≤ end) × (end ≤ end_of q)))
            × ((t : IndexDeque A) × (taken : List A) × (drain_to asserts q end ≡ ret (t, taken))
                × TakenApart q t taken (min (max end q.offset) (end_of q)) j))
  unfolding drain_to
  drain_to_cases false q end j h = inr (inl refl, drain_to-clamped false q end j h refl)
  drain_to_cases true q end j h = elim (dec_lt end q.offset) [
    | yes low ↦ inl (
      refl,
      inl low,
      rw (drain_to, add_u64-ret q.offset (length q.deque) h, lt→leb q.offset end low) refl,
    )
    | no up ↦ elim (dec_lt (end_of q) end) [
      | yes over ↦ inl (
        refl,
        inr over,
        rw
            (
              drain_to,
              add_u64-ret q.offset (length q.deque) h,
              le→leb q.offset end (omega arith),
              lt→leb end (end_of q) over,
            )
            refl,
      )
      | no within ↦ inr (
        inr (omega arith, omega arith),
        drain_to-clamped true q end j h
            (rw (le→leb q.offset end (omega arith), le→leb end (end_of q) (omega arith)) refl),
      )
    ]
  ]

  -- While the numbers fit a u64, `advance` by at most the length takes the queue apart as many
  -- elements after the offset; by more it panics.
  pub advance_cases :
      (q : IndexDeque A) (n j : ℕ)
      → q.offset + n < 2 ^ 64
      → ((n ≤ length q.deque)
          × ((t : IndexDeque A) × (advance q n ≡ ret t)
              × TakenApart q t (take n q.deque) (q.offset + n) j))
        ⊎ ((length q.deque < n) × (advance q n ≡ panic))
  unfolding advance
  advance_cases q n j h = rw (add_u64-ret q.offset n h) (elim (dec_le n (length q.deque)) [
    | yes within ↦
        rw (le→leb n (length q.deque) within) (inl (within, (_, refl, apart q n _ j within refl)))
    | no over ↦ inr (omega arith, rw (lt→leb n (length q.deque) (omega arith)) refl)
  ])

  pub record Popped (q t : IndexDeque A) (v : A) (j : ℕ) : Type ℓ where
    pub first : lookup q q.offset ≡ some v
    pub rest : TakenApart q t (v ∷ []) (q.offset + 1) j

  -- `pop_front` returns nothing exactly on an empty queue. On another one whose numbers fit a u64 it
  -- takes the queue apart after the offset and returns the first element with the offset.
  pop_front_cases :
      (q : IndexDeque A) (j : ℕ)
      → end_of q < 2 ^ 64
      → ((end_of q ≡ q.offset) × (pop_front q ≡ ret (q, none)))
        ⊎ ((t : IndexDeque A) × (v : A) × (pop_front q ≡ ret (t, some (q.offset, v)))
            × Popped q t v j)
  unfolding pop_front
  pop_front_cases q j h = popped q.deque q.offset j h
    where
      popped :
          (xs : List A) (offset j : ℕ)
          → offset + length xs < 2 ^ 64
          → let q : IndexDeque A = record { deque = xs; offset = offset } in
            ((end_of q ≡ offset) × (pop_front q ≡ ret (q, none)))
            ⊎ ((t : IndexDeque A) × (v : A) × (pop_front q ≡ ret (t, some (offset, v)))
                × Popped q t v j)
      popped [] offset j h = inl (omega arith, refl)
      popped (v ∷ rest) offset j h =
          let q : IndexDeque A = record { deque = v ∷ rest; offset = offset } in
          inr (
            record { deque = rest; offset = offset + 1 },
            v,
            rw (add_u64-ret offset 1 (omega arith)) refl,
            record {
              first = lookup_at q offset 0 (omega arith);
              rest = apart q 1 (offset + 1) j (omega arith) refl;
            },
          )
