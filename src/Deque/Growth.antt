-- ===== src/Deque/Growth.antt =====
-- What enqueueing does to the partial function, with the lemmas on growing queues.
use dquic.Base.{
  ℕ, ◌+◌, ◌-◌, ◌%◌, ◌^◌, ◌≤◌, ◌<◌, ◌≡◌, ◌⊎◌, inl, inr, refl, ap, ◌∙◌, arith, true, false, leb, ltb,
  ◌==◌, ◌||◌, if◌then◌else◌, some, List, [], ◌∷◌, ◌++◌, length, get_elem?, take, replicate,
  get_elem?-none, get_elem?-append_left, get_elem?-append_right, get_elem?-replicate,
  get_elem?-take, length-append, length-take, length-replicate, dec_le, dec_lt, ℕ_discrete, ok, err,
}
use dquic.Deque.{IndexDeque, exceed_limit, push_back, resize_deque}
use dquic.Deque.Lookup.{lookup, end_of, lookup_before}

module _ {ℓ} {A : Type ℓ} where
  pub length-resize_deque : (xs : List A) (n : ℕ) (v : A) → length (resize_deque xs n v) ≡ n
  unfolding resize_deque
  length-resize_deque xs n v =
      length-append (take n xs) (replicate (n - length xs) v)
      ∙ omega (arith, length-take n xs, length-replicate (n - length xs) v)

  pub get_elem?-resize_deque :
      (xs : List A) (n i : ℕ) (v : A)
      → i < n
      → ((i < length xs) × (get_elem? (resize_deque xs n v) i ≡ get_elem? xs i))
        ⊎ ((length xs ≤ i) × (get_elem? (resize_deque xs n v) i ≡ some v))
  unfolding resize_deque
  get_elem?-resize_deque xs n i v h = elim (dec_lt i (length xs)) [
    | yes old ↦ inl (
      old,
      get_elem?-append_left (take n xs) (replicate (n - length xs) v) i
            (omega (arith, length-take n xs))
          ∙ get_elem?-take n i xs h,
    )
    | no new ↦ inr (
      omega arith,
      get_elem?-append_right (take n xs) (replicate (n - length xs) v) i (i - length xs)
            (omega (arith, length-take n xs))
          ∙ get_elem?-replicate (n - length xs) (i - length xs) v (omega arith),
    )
  ]

  -- Appending to the underlying queue places an element at the end.
  pub lookup-append :
      (xs : List A) (offset : ℕ) (v : A) (j : ℕ)
      → lookup (record { deque = xs ++ v ∷ []; offset = offset }) j ≡ (
          if j == offset + length xs
          then some v
          else lookup (record { deque = xs; offset = offset }) j)
  lookup-append xs offset v j = elim (dec_lt j offset) [
    | yes low ↦
        ground (arith, lookup_before (record { deque = xs ++ v ∷ []; offset = offset }) j low)
    | no up ↦ elim (dec_lt (j - offset) (length xs)) [
      | yes old ↦ ground (arith, get_elem?-append_left xs (v ∷ []) (j - offset) old)
      | no new ↦ elim (ℕ_discrete (j - offset) (length xs)) [
        | yes same ↦ ground (arith, get_elem?-append_right xs (v ∷ []) (j - offset) 0 (omega arith))
        | no other ↦ ground (
          arith,
          get_elem?-none (xs ++ v ∷ []) (j - offset) (omega (arith, length-append xs (v ∷ []))),
          get_elem?-none xs (j - offset) (omega arith),
        )
      ]
    ]
  ]

  -- Where the next number is within the limit, `push_back` returns it, keeps the offset, and changes
  -- the queue as a partial function at that number only; otherwise it reports that the limit is
  -- exceeded and changes nothing.
  pub push_back_cases :
      (limit : ℕ) (q : IndexDeque A) (v : A) (j : ℕ)
      → limit < 2 ^ 64
      → ((end_of q ≤ limit)
          × ((push_back limit q v).1 ≡ ok (end_of q))
          × ((push_back limit q v).0.offset ≡ q.offset)
          × (lookup (push_back limit q v).0 j ≡ (if j == end_of q then some v else lookup q j)))
        ⊎ ((limit < end_of q) × ((n : ℕ) × (push_back limit q v ≡ (q, err (exceed_limit n limit)))))
  unfolding push_back
  push_back_cases limit q v j h = elim (dec_le (end_of q) limit) [
    | yes fits ↦ rw (tests fits) (
        inl (
          fits,
          ap ok (omega (arith, length-append q.deque (v ∷ []))),
          refl,
          lookup-append q.deque q.offset v j,
        ))
    | no over ↦ inr (omega arith, (end_of q % 2 ^ 64, rw (wrapped (omega arith)) refl))
  ]
    where
      tests : end_of q ≤ limit → (leb (2 ^ 64) (end_of q) || ltb limit (end_of q % 2 ^ 64)) ≡ false
      tests fits = ground arith

      wrapped : limit < end_of q → (leb (2 ^ 64) (end_of q) || ltb limit (end_of q % 2 ^ 64)) ≡ true
      wrapped over = ground arith
