-- ===== src/SendBuf/Buffer/Concat.antt =====
-- The chunks of the buffer as one sequence of bytes.
use dquic.Base.{
  ℕ, zero, suc, ◌+◌, ◌-◌, ◌≤◌, ◌<◌, min, max, ◌≡◌, refl, ap, ◌∙◌, sym, arith, List, [], ◌∷◌, ◌++◌,
  length, take, drop, All, dec_lt, dec_le, length-append, length-drop, lt→ltb, le→ltb, le→leb,
  lt→leb,
}
use dquic.Base.Nom.{BytesOps}
use dquic.SendBuf.Buffer.{Bytes, bytes_of, len, total, drain_data, pieces, piece, slice}

module _ {ℓ} {A : Type ℓ} where
  pub drop-within : (xs ys : List A) (n : ℕ) → n ≤ length xs → drop n (xs ++ ys) ≡ drop n xs ++ ys
  drop-within xs ys zero h = refl
  drop-within [] ys (suc n) h = absurd (omega arith)
  drop-within (x ∷ xs) ys (suc n) h = drop-within xs ys n (omega arith)

  pub drop-past :
      (xs ys : List A) (n : ℕ) → length xs ≤ n → drop n (xs ++ ys) ≡ drop (n - length xs) ys
  drop-past [] ys n h = ap (λ (k : ℕ). drop k ys) (omega arith)
  drop-past (x ∷ xs) ys zero h = absurd (omega arith)
  drop-past (x ∷ xs) ys (suc n) h =
      drop-past xs ys n (omega arith) ∙ ap (λ (k : ℕ). drop k ys) (omega arith)

  pub drop-nothing : (xs : List A) (n : ℕ) → length xs ≤ n → drop n xs ≡ []
  drop-nothing [] zero h = refl
  drop-nothing [] (suc n) h = refl
  drop-nothing (x ∷ xs) zero h = absurd (omega arith)
  drop-nothing (x ∷ xs) (suc n) h = drop-nothing xs n (omega arith)

  pub drop-drop : (xs : List A) (n k : ℕ) → drop n (drop k xs) ≡ drop (k + n) xs
  drop-drop xs n zero = ap (λ (i : ℕ). drop i xs) (omega arith)
  drop-drop [] n (suc k) =
      drop-nothing [] n (omega arith) ∙ sym (drop-nothing [] (suc k + n) (omega arith))
  drop-drop (x ∷ xs) n (suc k) = drop-drop xs n k ∙ drop-suc (k + n) (suc k + n) (omega arith)
    where
      drop-suc : (i j : ℕ) → j ≡ suc i → drop i xs ≡ drop j (x ∷ xs)
      drop-suc i j e = rw e refl

  take-whole : (xs : List A) (n : ℕ) → length xs ≤ n → take n xs ≡ xs
  take-whole [] zero h = refl
  take-whole [] (suc n) h = refl
  take-whole (x ∷ xs) zero h = absurd (omega arith)
  take-whole (x ∷ xs) (suc n) h = ap (◌∷◌ x) (take-whole xs n (omega arith))

  take-both : (xs ys : List A) (n : ℕ) → take n (xs ++ ys) ≡ take n xs ++ take (n - length xs) ys
  take-both [] ys n =
      let e : n ≡ n - 0 = omega arith in
      ap (λ (k : ℕ). take k ys) e
      ∙ ap (λ l. l ++ take (n - 0) ys) (sym (take-whole [] n (omega arith)))
  take-both (x ∷ xs) ys zero =
      let e : 0 ≡ 0 - suc (length xs) = omega arith in ap (λ (k : ℕ). take k ys) e
  take-both (x ∷ xs) ys (suc n) = ap (◌∷◌ x) (
      take-both xs ys n
      ∙ (let e : n - length xs ≡ suc n - suc (length xs) = omega arith in
          ap (λ (k : ℕ). take n xs ++ take k ys) e))

  take-least :
      (xs : List A) (n k : ℕ) → min n (length xs) ≡ min k (length xs) → take n xs ≡ take k xs
  take-least [] zero zero h = refl
  take-least [] zero (suc k) h = refl
  take-least [] (suc n) zero h = refl
  take-least [] (suc n) (suc k) h = refl
  take-least (x ∷ xs) zero zero h = refl
  take-least (x ∷ xs) zero (suc k) h = absurd (omega (arith, h))
  take-least (x ∷ xs) (suc n) zero h = absurd (omega (arith, h))
  take-least (x ∷ xs) (suc n) (suc k) h = ap (◌∷◌ x) (take-least xs n k (omega (arith, h)))

module _ ⦃ops : BytesOps⦄ where
  -- The bytes of all chunks.
  abbrev pub concat : List Bytes → List ℕ
  concat [] = []
  concat (d ∷ chunks) = bytes_of d ++ concat chunks

  bytes_of-slice :
      (d : Bytes) (start end : ℕ)
      → start ≤ end
      → end ≤ len d
      → bytes_of (slice d start end) ≡ take (end - start) (drop start (bytes_of d))
  bytes_of-slice d start end h h' = ops.contents-slice d start end h h'

  bytes_of-drained :
      (d : Bytes) (n : ℕ) → n ≤ len d → bytes_of (slice d n (len d)) ≡ drop n (bytes_of d)
  bytes_of-drained d n h =
      bytes_of-slice d n (len d) h (omega arith)
      ∙ take-whole (drop n (bytes_of d)) (len d - n) (omega (arith, length-drop n (bytes_of d)))

  pub length-concat : (chunks : List Bytes) → length (concat chunks) ≡ total chunks
  length-concat [] = refl
  length-concat (d ∷ chunks) =
      omega (arith, length-append (bytes_of d) (concat chunks), length-concat chunks)

  pub concat-drain_data :
      (chunks : List Bytes) (n : ℕ) → concat (drain_data chunks n) ≡ drop n (concat chunks)
  unfolding drain_data
  concat-drain_data [] zero = refl
  concat-drain_data [] (suc n) = refl
  concat-drain_data (d ∷ chunks) zero = refl
  concat-drain_data (d ∷ chunks) (suc n) = elim (dec_le (len d) (suc n)) [
    | yes all ↦
        rw (lt→ltb 0 (suc n) (omega arith), le→leb (len d) (suc n) all)
          (concat-drain_data chunks (suc n - len d)
            ∙ sym (drop-past (bytes_of d) (concat chunks) (suc n) all))
    | no part ↦
        rw (lt→ltb 0 (suc n) (omega arith), lt→leb (len d) (suc n) (omega arith))
          (ap (λ l. l ++ concat chunks) (bytes_of-drained d (suc n) (omega arith))
            ∙ sym (drop-within (bytes_of d) (concat chunks) (suc n) (omega arith)))
  ]

  -- No chunk is empty.
  abbrev pub Filled : List Bytes → Type 0
  Filled = All (λ d. 0 < len d)

  pub drain_data-Filled :
      (chunks : List Bytes) (n : ℕ) → Filled chunks → Filled (drain_data chunks n)
  unfolding drain_data
  drain_data-Filled [] n h = tt
  drain_data-Filled (d ∷ chunks) zero h = h
  drain_data-Filled (d ∷ chunks) (suc n) h = elim (dec_le (len d) (suc n)) [
    | yes all ↦
        rw (lt→ltb 0 (suc n) (omega arith), le→leb (len d) (suc n) all)
          (drain_data-Filled chunks (suc n - len d) h.1)
    | no part ↦
        rw (lt→ltb 0 (suc n) (omega arith), lt→leb (len d) (suc n) (omega arith))
          (
            omega (
              arith,
              length-drop (suc n) (bytes_of d),
              ap length (bytes_of-drained d (suc n) (omega arith)),
            ),
            h.1,
          )
  ]

  same_part :
      (n n' k k' : ℕ) (xs : List ℕ) → n ≡ n' → k ≡ k' → take n (drop k xs) ≡ take n' (drop k' xs)
  same_part n n' k k' xs e f =
      ap (λ (i : ℕ). take i (drop k xs)) e ∙ ap (λ (i : ℕ). take n' (drop i xs)) f

  -- A piece is all that the range takes of the part.
  piece-take :
      (d : Bytes) (from start end : ℕ)
      → start < from + len d
      → from < end
      → start ≤ end
      → bytes_of (piece d from (from + len d) start end)
        ≡ take (end - max start from) (drop (start - from) (bytes_of d))
  piece-take d from start end h h' h'' = elim (dec_le start from) [
    | no cut ↦ rw (lt→leb start from (omega arith)) sliced
    | yes early ↦ elim (dec_le (from + len d) end) [
      | no cut ↦ rw (le→leb start from early, lt→leb (from + len d) end (omega arith)) sliced
      | yes whole ↦
          let none_ : start - from ≡ 0 = omega arith in
          rw (le→leb start from early, le→leb (from + len d) end whole, none_)
            (sym (take-whole (bytes_of d) (end - max start from) (omega arith)))
    ]
  ]
    where
      sliced :
          bytes_of (slice d (start - from) (min end (from + len d) - from))
          ≡ take (end - max start from) (drop (start - from) (bytes_of d))
      sliced =
          bytes_of-slice d (start - from) (min end (from + len d) - from) (omega arith)
            (omega arith)
          ∙ take-least (drop (start - from) (bytes_of d))
              (min end (from + len d) - from - (start - from)) (end - max start from)
              (omega (arith, length-drop (start - from) (bytes_of d)))

  -- The pieces of a range are the bytes of the range.
  pub concat-pieces :
      (chunks : List Bytes) (from start end : ℕ)
      → start ≤ end
      → concat (pieces from chunks start end)
        ≡ take (end - max start from) (drop (start - from) (concat chunks))
  unfolding pieces
  concat-pieces [] from start end le = sym (
      ap (take (end - max start from)) (drop-nothing [] (start - from) (omega arith))
      ∙ take-whole [] (end - max start from) (omega arith))
  concat-pieces (d ∷ chunks) from start end le =
      let to = from + len d in
      let later = concat-pieces chunks to start end le in
      elim (dec_lt start to) [
        | no past ↦
            rw (pieces, le→ltb start to (omega arith))
              (later
                ∙ same_part (end - max start to) (end - max start from) (start - to)
                    (start - from - len d) (concat chunks) (omega arith) (omega arith)
                ∙ ap (take (end - max start from))
                    (sym (drop-past (bytes_of d) (concat chunks) (start - from) (omega arith))))
        | yes reached ↦ elim (dec_lt from end) [
          | no over ↦
              let none_ : end - max start from ≡ 0 = omega arith in
              let none_' : end - max start to ≡ 0 = omega arith in
              rw (pieces, lt→ltb start to reached, le→ltb from end (omega arith), none_)
                (later ∙ ap (λ (k : ℕ). take k (drop (start - to) (concat chunks))) none_')
          | yes inside ↦
              rw (pieces, lt→ltb start to reached, lt→ltb from end inside)
                (ap (λ l. l ++ concat (pieces to chunks start end))
                    (piece-take d from start end reached inside le)
                  ∙ ap (λ l. take (end - max start from) (drop (start - from) (bytes_of d)) ++ l)
                      (later
                        ∙ same_part (end - max start to)
                            (end - max start from - length (drop (start - from) (bytes_of d)))
                            (start - to) 0 (concat chunks)
                            (omega (arith, length-drop (start - from) (bytes_of d))) (omega arith))
                  ∙ sym (
                      take-both (drop (start - from) (bytes_of d)) (concat chunks)
                        (end - max start from))
                  ∙ ap (take (end - max start from))
                      (sym (drop-within (bytes_of d) (concat chunks) (start - from) (omega arith))))
        ]
      ]
