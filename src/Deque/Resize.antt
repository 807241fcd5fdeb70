-- ===== src/Deque/Resize.antt =====
-- What `resize` does to the partial function.
use dquic.Base.{
  ℕ, ◌-◌, ◌≤◌, ◌<◌, ◌≡◌, ◌⊎◌, inl, inr, refl, arith, leb, if◌then◌else◌, Option, none, some,
  get_elem?-none, dec_lt, le→leb, lt→leb, lt→ltb, le→ltb, ok, err,
}
use dquic.Deque.{IndexDeque, exceed_limit, too_small, resize, resize_deque}
use dquic.Deque.Growth.{length-resize_deque, get_elem?-resize_deque}
use dquic.Deque.Lookup.{lookup, end_of}

module _ {ℓ} {A : Type ℓ} where
  -- A function cut at `new_end`, or extended up to it.
  abbrev pub cut : (ℕ → Option A) → ℕ → ℕ → A → ℕ → Option A
  cut f end new_end v j = if leb new_end j then none else if leb end j then some v else f j

  -- For a new end from the offset up to the limit, `resize` keeps the offset and cuts the queue there,
  -- or extends it with the value up to there; any other end is refused with its kind of error, and nothing changes.
  pub resize_cases :
      (limit : ℕ) (q : IndexDeque A) (new_end : ℕ) (v : A) (j : ℕ)
      → ((q.offset ≤ new_end)
          × (new_end ≤ limit)
          × ((resize limit q new_end v).1 ≡ ok tt)
          × ((resize limit q new_end v).0.offset ≡ q.offset)
          × (end_of (resize limit q new_end v).0 ≡ new_end)
          × (lookup (resize limit q new_end v).0 j ≡ cut (lookup q) (end_of q) new_end v j))
        ⊎ ((new_end < q.offset)
            × (resize limit q new_end v ≡ (q, err (too_small new_end q.offset))))
        ⊎ ((q.offset ≤ new_end)
            × (limit < new_end)
            × (resize limit q new_end v ≡ (q, err (exceed_limit new_end limit))))
  unfolding resize
  resize_cases limit q new_end v j = elim (dec_lt new_end q.offset) [
    | yes low ↦ inr (inl (low, rw (lt→ltb new_end q.offset low) refl))
    | no up ↦ elim (dec_lt limit new_end) [
      | yes over ↦ inr (
          inr (
            omega arith,
            over,
            rw (le→ltb new_end q.offset (omega arith), lt→ltb limit new_end over) refl,
          ))
      | no within ↦
          rw (le→ltb new_end q.offset (omega arith), le→ltb limit new_end (omega arith))
            (inl (
              omega arith,
              omega arith,
              refl,
              refl,
              omega (arith, length-resize_deque q.deque (new_end - q.offset) v),
              resized (omega arith),
            ))
    ]
  ]
    where
      resized :
          q.offset ≤ new_end
          → lookup
              (record { deque = resize_deque q.deque (new_end - q.offset) v; offset = q.offset })
              j
            ≡ cut (lookup q) (end_of q) new_end v j
      resized h = elim (dec_lt j q.offset) [
        | yes low ↦
            rw
              (
                lt→leb q.offset j low,
                lt→leb new_end j (omega arith),
                lt→leb (end_of q) j (omega arith),
              )
              refl
        | no up ↦ elim (dec_lt j new_end) [
          | yes within ↦
              elim (get_elem?-resize_deque q.deque (new_end - q.offset) (j - q.offset) v
                (omega arith)) [
                  | inl (old, e) ↦
                      rw
                        (
                          le→leb q.offset j (omega arith),
                          lt→leb new_end j within,
                          lt→leb (end_of q) j (omega arith),
                          e,
                        )
                        refl
                  | inr (new, e) ↦
                      rw
                        (
                          le→leb q.offset j (omega arith),
                          lt→leb new_end j within,
                          le→leb (end_of q) j (omega arith),
                          e,
                        )
                        refl
                ]
          | no beyond ↦
              rw
                (
                  le→leb q.offset j (omega arith),
                  le→leb new_end j (omega arith),
                  get_elem?-none (resize_deque q.deque (new_end - q.offset) v) (j - q.offset)
                      (omega (arith, length-resize_deque q.deque (new_end - q.offset) v)),
                )
                refl
        ]
      ]
