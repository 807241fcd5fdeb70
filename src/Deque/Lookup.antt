-- ===== src/Deque/Lookup.antt =====
-- The queue as a partial function from enqueue numbers to elements.
use dquic.Base.{
  ℕ, ◌+◌, ◌-◌, ◌^◌, ◌≤◌, ◌<◌, ◌≡◌, ◌⊎◌, inl, inr, refl, ap, ◌∙◌, arith, leb, if◌then◌else◌, Option,
  none, some, length, get_elem?, get_elem?-some, get_elem?-none, ret, add_u64-ret, sub_u64-ret,
  dec_lt, le→leb, lt→leb, lt→ltb, le→ltb,
}
use dquic.Deque.{IndexDeque, get}

module _ {ℓ} {A : Type ℓ} where
  abbrev pub lookup : IndexDeque A → ℕ → Option A
  lookup q i = if leb q.offset i then get_elem? q.deque (i - q.offset) else none

  -- One past the last enqueue number.
  abbrev pub end_of : IndexDeque A → ℕ
  end_of q = q.offset + length q.deque

  pub lookup_at : (q : IndexDeque A) (i k : ℕ) → q.offset + k ≡ i → lookup q i ≡ get_elem? q.deque k
  lookup_at q i k e =
      rw (le→leb q.offset i (omega (arith, e))) (ap (get_elem? q.deque) (omega (arith, e)))

  pub lookup_before : (q : IndexDeque A) (i : ℕ) → i < q.offset → lookup q i ≡ none
  lookup_before q i h = rw (lt→leb q.offset i h) refl

  pub lookup_after : (q : IndexDeque A) (i : ℕ) → end_of q ≤ i → lookup q i ≡ none
  lookup_after q i h =
      lookup_at q i (i - q.offset) (omega arith)
      ∙ get_elem?-none q.deque (i - q.offset) (omega arith)

  -- While the numbers fit a u64, `get` never panics: it finds an element exactly for the numbers from
  -- the offset to the end, and it is the one at that place of the underlying queue.
  get-lookup :
      (q : IndexDeque A) (i : ℕ)
      → end_of q < 2 ^ 64
      → (get q i ≡ ret (lookup q i))
        × (((q.offset ≤ i) × (i < end_of q) × ((v : A) × (lookup q i ≡ some v)))
            ⊎ ((lookup q i ≡ none) × ((i < q.offset) ⊎ (end_of q ≤ i))))
  unfolding get
  get-lookup q i h = elim (dec_lt i q.offset) [
    | yes low ↦ (rw (lt→leb q.offset i low) refl, inr (lookup_before q i low, inl low))
    | no not_low ↦ elim (dec_lt i (end_of q)) [
      | yes inside ↦
          let (v, e) = get_elem?-some q.deque (i - q.offset) (omega arith) in
          (
            rw
                (
                  le→leb q.offset i (omega arith),
                  add_u64-ret q.offset (length q.deque) h,
                  lt→ltb i (end_of q) inside,
                  sub_u64-ret i q.offset (omega arith),
                  e,
                )
                refl,
            inl (omega arith, inside, (v, lookup_at q i (i - q.offset) (omega arith) ∙ e)),
          )
      | no beyond ↦ (
        rw
            (
              le→leb q.offset i (omega arith),
              add_u64-ret q.offset (length q.deque) h,
              le→ltb i (end_of q) (omega arith),
              get_elem?-none q.deque (i - q.offset) (omega arith),
            )
            refl,
        inr (lookup_after q i (omega arith), inr (omega arith)),
      )
    ]
  ]
