-- ===== src/Deque/Insert.antt =====
-- What `insert` does to the partial function.
use dquic.Base.{
  ℕ, ◌+◌, ◌-◌, ◌≤◌, ◌<◌, ◌≡◌, ◌⊎◌, inl, inr, refl, sym, ap, ◌∙◌, arith, leb, ltb, ◌==◌, ◌&&◌,
  if◌then◌else◌, Option, some, List, length, get_elem?, set, get_elem?-none, get_elem?-set_same,
  get_elem?-set_other, dec_lt, ℕ_discrete, le→leb, lt→leb, lt→ltb, le→ltb, ne→==, ok, err,
}
use dquic.Deque.{
  IndexDeque, exceed_limit, too_small, insert, insert_at, insert_beyond, resize_deque,
}
use dquic.Deque.Growth.{length-resize_deque, get_elem?-resize_deque, lookup-append}
use dquic.Deque.Lookup.{lookup, end_of, lookup_at, lookup_after}

module _ {ℓ} {A : Type ℓ} where
  -- A function with one place changed, and with a default from `end` up to that place.
  abbrev pub placed : (ℕ → Option A) → ℕ → A → ℕ → A → ℕ → Option A
  placed f end default idx v j =
      if j == idx then some v else if leb end j && ltb j idx then some default else f j

  -- `insert` within the queue.
  insert-within :
      (default : A) (q : IndexDeque A) (pos : ℕ) (v : A) (j : ℕ)
      → pos < length q.deque
      → ((insert_at default q pos v).1 ≡ ok (lookup q (q.offset + pos)))
        × (lookup (insert_at default q pos v).0 j
            ≡ placed (lookup q) (end_of q) default (q.offset + pos) v j)
  unfolding insert_at
  insert-within default q pos v j h =
      rw (lt→ltb pos (length q.deque) h)
        (ap ok (sym (lookup_at q (q.offset + pos) pos refl)), within j)
    where
      within :
          (j : ℕ)
          → lookup (record q { deque = set q.deque pos v }) j
            ≡ placed (lookup q) (end_of q) default (q.offset + pos) v j
      within j = elim (ℕ_discrete j (q.offset + pos)) [
        | yes e ↦ ground (arith, get_elem?-set_same q.deque pos v h)
        | no ne ↦ elim (dec_lt j q.offset) [
          | yes low ↦ ground arith
          | no up ↦
              ground
                (arith, get_elem?-set_other q.deque pos (j - q.offset) v (λ e. ne (omega arith)))
        ]
      ]

  -- What `insert` appends to: the queue filled up to the place.
  abbrev filled : A → List A → ℕ → List A
  filled default xs pos = if ltb (length xs) pos then resize_deque xs pos default else xs

  length-filled :
      (default : A) (xs : List A) (pos : ℕ) → length xs ≤ pos → length (filled default xs pos) ≡ pos
  length-filled default xs pos h = elim (dec_lt (length xs) pos) [
    | yes more ↦ rw (lt→ltb (length xs) pos more) (length-resize_deque xs pos default)
    | no same ↦ rw (le→ltb (length xs) pos (omega arith)) (omega arith)
  ]

  get_elem?-filled :
      (default : A) (xs : List A) (pos i : ℕ)
      → length xs ≤ pos
      → get_elem? (filled default xs pos) i
        ≡ (if leb (length xs) i && ltb i pos then some default else get_elem? xs i)
  get_elem?-filled default xs pos i h = elim (dec_lt i pos) [
    | yes low ↦ elim (get_elem?-resize_deque xs pos i default low) [
      | inl (old, e) ↦ ground (arith, e)
      | inr (new, e) ↦ ground (arith, e)
    ]
    | no high ↦ ground (
      arith,
      get_elem?-none (filled default xs pos) i (omega (arith, length-filled default xs pos h)),
      get_elem?-none xs i (omega arith),
    )
  ]

  -- `insert` at the end or after it.
  insert-beyond :
      (default : A) (q : IndexDeque A) (pos : ℕ) (v : A) (j : ℕ)
      → length q.deque ≤ pos
      → ((insert_at default q pos v).1 ≡ ok (lookup q (q.offset + pos)))
        × (lookup (insert_at default q pos v).0 j
            ≡ placed (lookup q) (end_of q) default (q.offset + pos) v j)
  unfolding insert_at insert_beyond
  insert-beyond default q pos v j h = rw (le→ltb pos (length q.deque) h) (
    ap ok (sym (lookup_after q (q.offset + pos) (omega arith))),
    lookup-append (filled default q.deque pos) q.offset v j ∙ beyond,
  )
    where
      same_gap :
          q.offset ≤ j
          → (leb (end_of q) j && ltb j (q.offset + pos))
            ≡ (leb (length q.deque) (j - q.offset) && ltb (j - q.offset) pos)
      same_gap up = ground arith

      beyond :
          (if j == q.offset + length (filled default q.deque pos)
            then some v
            else lookup (record { deque = filled default q.deque pos; offset = q.offset }) j)
          ≡ placed (lookup q) (end_of q) default (q.offset + pos) v j
      beyond = rw (length-filled default q.deque pos h) (elim (dec_lt j q.offset) [
        | yes low ↦
            rw
              (
                ne→== j (q.offset + pos) (λ e. absurd (omega (arith, e))),
                lt→leb q.offset j low,
                lt→leb (end_of q) j (omega arith),
              )
              refl
        | no up ↦
            rw
              (
                le→leb q.offset j (omega arith),
                get_elem?-filled default q.deque pos (j - q.offset) h,
                same_gap (omega arith),
              )
              refl
      ])

  -- A number from the offset up to the limit: `insert` returns the element that was at it, keeps the
  -- offset, and as a partial function the queue has the value there, the default at the numbers
  -- skipped after the old end, and is otherwise unchanged. Any other number is refused with its kind of
  -- error, and nothing changes.
  pub insert-placed :
      (limit : ℕ) (default : A) (q : IndexDeque A) (idx : ℕ) (v : A) (j : ℕ)
      → ((idx ≤ limit)
          × (q.offset ≤ idx)
          × ((insert limit default q idx v).1 ≡ ok (lookup q idx))
          × (lookup (insert limit default q idx v).0 j
              ≡ placed (lookup q) (end_of q) default idx v j))
        ⊎ ((limit < idx) × (insert limit default q idx v ≡ (q, err (exceed_limit idx limit))))
        ⊎ ((idx ≤ limit)
            × (idx < q.offset)
            × (insert limit default q idx v ≡ (q, err (too_small idx q.offset))))
  unfolding insert
  insert-placed limit default q idx v j = elim (dec_lt limit idx) [
    | yes over ↦ inr (inl (over, rw (lt→ltb limit idx over) refl))
    | no within ↦ elim (dec_lt idx q.offset) [
      | yes low ↦ inr (
          inr (omega arith, low, rw (le→ltb limit idx (omega arith), lt→ltb idx q.offset low) refl))
      | no up ↦
          rw (le→ltb limit idx (omega arith), le→ltb idx q.offset (omega arith))
            (let r = inserted (dec_lt (idx - q.offset) (length q.deque)) in
              let e = place (omega arith) in
              inl (omega arith, omega arith, rw e at r.0, rw e at r.1))
    ]
  ]
    where
      place : q.offset ≤ idx → q.offset + (idx - q.offset) ≡ idx
      place h = omega arith

      inserted :
          Dec (idx - q.offset < length q.deque)
          → ((insert_at default q (idx - q.offset) v).1
              ≡ ok (lookup q (q.offset + (idx - q.offset))))
            × (lookup (insert_at default q (idx - q.offset) v).0 j
                ≡ placed (lookup q) (end_of q) default (q.offset + (idx - q.offset)) v j)
      inserted (yes h) = insert-within default q (idx - q.offset) v j h
      inserted (no h) = insert-beyond default q (idx - q.offset) v j (omega arith)
