-- ===== src/SendBuf/Buffer/Holds.antt =====
-- What the buffer holds of the content written to it, and how `write` and `extend` keep that.
use dquic.Base.{
  dec_lt, le→ltb, ℕ, ◌+◌, ◌^◌, ◌≤◌, ◌<◌, min, ◌≡◌, refl, ap, ◌∙◌, sym, subst, arith, ltb,
  if◌then◌else◌, List, [], ◌∷◌, ◌++◌, length, drop, All-append, length-append, length-drop, lt→ltb,
  le→leb, ret, add_u64-ret,
}
use dquic.SendBuf.State.{pending, recved}
use dquic.SendBuf.Map.{empty_map}
use dquic.SendBuf.Paint.{color_at, Ascending}
use dquic.SendBuf.Splice.{append_nil, append_assoc}
use dquic.SendBuf.Valid.{IsValid}
use dquic.SendBuf.Growth.{extend_to-Returns}
use dquic.Base.Nom.{BytesOps}
use dquic.SendBuf.Buffer.{
  bytes_of, len, Bytes, SendBuf, total, written, write, extend, with_capacity,
}
use dquic.SendBuf.Buffer.Concat.{concat, Filled, length-concat, drop-within}

module _ ⦃ops : BytesOps⦄ where
  -- The buffer holds the content from its offset on, and what lies below has been received.
  pub record Holds (b : SendBuf) (content : List ℕ) : Type 0 where
    pub map : IsValid b.state
    pub sized : b.state.size ≡ min (length content) b.max_data
    pub held : concat b.chunks ≡ drop b.offset content
    pub within : b.offset ≤ b.state.size
    pub gone : (x : ℕ) → x < b.offset → color_at b.state x ≡ recved
    pub filled : Filled b.chunks
    pub room : b.max_data < 2 ^ 62
    pub bounded : length content < 2 ^ 64

  pub with_capacity-Holds : (capacity : ℕ) → capacity < 2 ^ 62 → Holds (with_capacity capacity) []
  unfolding with_capacity empty_map Ascending
  with_capacity-Holds capacity h = record {
    map = record { ascending = tt; small = omega arith };
    sized = omega arith;
    held = refl;
    within = omega arith;
    gone = λ x g. absurd (omega arith);
    filled = tt;
    room = h;
    bounded = omega arith;
  }

  -- What has been written is the length of the content.
  pub written-Holds :
      (b : SendBuf) (content : List ℕ) → Holds b content → written b ≡ ret (length content)
  unfolding written
  written-Holds b content h =
      let measured : b.offset + total b.chunks ≡ length content = omega (
        arith,
        length-concat b.chunks,
        ap length h.held,
        length-drop b.offset content,
        h.within,
        h.sized,
      ) in
      add_u64-ret b.offset (total b.chunks) (omega (arith, measured, h.bounded)) ∙ ap ret measured

  concat-append :
      (chunks : List Bytes) (d : Bytes) → concat (chunks ++ d ∷ []) ≡ concat chunks ++ bytes_of d
  concat-append [] d = append_nil (bytes_of d)
  concat-append (c ∷ chunks) d =
      ap (λ l. bytes_of c ++ l) (concat-append chunks d)
      ∙ sym (append_assoc (bytes_of c) (concat chunks) (bytes_of d))

  Holds-written :
      (b : SendBuf) (content : List ℕ) (d : Bytes)
      → Holds b content
      → length content + len d < 2 ^ 64
      → 0 < len d
      → (n : SendBuf) × (write b d ≡ ret n)
        × Holds n (content ++ bytes_of d)
        × (n.max_data ≡ b.max_data)
        × ((x : ℕ)
            → x < n.state.size
            → color_at n.state x ≡ (if ltb x b.state.size then color_at b.state x else pending))
  unfolding write
  Holds-written b content d h fits some_ =
      let long = length-append content (bytes_of d) in
      let r =
        extend_to-Returns b.state (min (length content + len d) b.max_data) h.map
          (omega (arith, h.sized)) (omega (arith, h.room)) in
      (
        record {
          offset = b.offset;
          chunks = b.chunks ++ d ∷ [];
          max_data = b.max_data;
          state = r.after;
        },
        rw
            (
              write,
              lt→ltb 0 (len d) some_,
              written-Holds b content h,
              add_u64-ret (length content) (len d) fits,
              r.returned,
            )
            refl,
        record {
          map = r.valid;
          sized = r.sized ∙ omega (arith, long);
          held =
              concat-append b.chunks d
              ∙ ap (λ l. l ++ bytes_of d) h.held
              ∙ sym (drop-within content (bytes_of d) b.offset (omega (arith, h.within, h.sized)));
          within = omega (arith, r.sized, h.within, h.sized);
          gone = λ x g.
              r.painted x (omega (arith, h.within, h.sized))
              ∙ rw (lt→ltb x b.state.size (omega (arith, h.within))) (h.gone x g);
          filled = All-append _ b.chunks (d ∷ []) h.filled (some_, tt);
          room = h.room;
          bounded = omega (arith, long);
        },
        refl,
        λ x g. r.painted x (omega (arith, r.sized)),
      )

  -- Data that is written follows the content; the map grows up to the limit, with what is pending.
  pub write-Holds :
      (b : SendBuf) (content : List ℕ) (d : Bytes)
      → Holds b content
      → length content + len d < 2 ^ 64
      → (n : SendBuf) × (write b d ≡ ret n)
        × Holds n (content ++ bytes_of d)
        × (n.max_data ≡ b.max_data)
        × ((x : ℕ)
            → x < n.state.size
            → color_at n.state x ≡ (if ltb x b.state.size then color_at b.state x else pending))
  unfolding write
  write-Holds b content d h fits = elim (dec_lt 0 (len d)) [
    | yes some_ ↦ Holds-written b content d h fits some_
    | no none_ ↦ (
      b,
      rw (write, le→ltb 0 (len d) (omega arith)) refl,
      subst (Holds b) (sym (append_empty content (bytes_of d) (omega arith))) h,
      refl,
      λ x g. rw (lt→ltb x b.state.size g) refl,
    )
  ]
    where
      append_empty : (xs ys : List ℕ) → length ys ≤ 0 → xs ++ ys ≡ xs
      append_empty xs [] e = append_nil xs
      append_empty xs (y ∷ ys) e = absurd (omega arith)

  -- A higher limit lets the map grow to what has been written.
  pub extend-Holds :
      (b : SendBuf) (content : List ℕ) (max_data : ℕ)
      → Holds b content
      → b.max_data ≤ max_data
      → max_data < 2 ^ 62
      → (n : SendBuf) × (extend b max_data ≡ ret n)
        × Holds n content
        × (n.max_data ≡ max_data)
        × ((x : ℕ)
            → x < n.state.size
            → color_at n.state x ≡ (if ltb x b.state.size then color_at b.state x else pending))
  unfolding extend
  extend-Holds b content max_data h up small =
      let r =
        extend_to-Returns b.state (min (length content) max_data) h.map (omega (arith, h.sized))
          (omega arith) in
      (
        record { offset = b.offset; chunks = b.chunks; max_data = max_data; state = r.after },
        rw (extend, le→leb b.max_data max_data up, written-Holds b content h, r.returned) refl,
        record {
          map = r.valid;
          sized = r.sized;
          held = h.held;
          within = omega (arith, r.sized, h.within, h.sized);
          gone = λ x g.
              r.painted x (omega (arith, h.within, h.sized))
              ∙ rw (lt→ltb x b.state.size (omega (arith, h.within))) (h.gone x g);
          filled = h.filled;
          room = small;
          bounded = h.bounded;
        },
        refl,
        λ x g. r.painted x (omega (arith, r.sized)),
      )
