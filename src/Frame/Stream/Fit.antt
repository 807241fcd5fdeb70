-- ===== src/Frame/Stream/Fit.antt =====
-- A frame that is no longer than estimated fits, and fills the packet or leaves room for another.
use dquic.Base.{
  ℕ, ◌+◌, ◌-◌, ◌^◌, ◌≤◌, ◌<◌, ◌≡◌, ◌⊎◌, inl, inr, refl, arith, not, ◌==◌, if◌then◌else◌, none, some,
  Bool-cases, Outcome, ret, le→leb, lt→leb, lt→ltb, le→ltb, dec_le, dec_lt, add_u64-ret,
}
use dquic.Varint.{varint_max}
use dquic.Varint.Codec.{nbytes, shortest, encoding_size-shortest}
use dquic.Frame.Kind.{Len, explicit, omit, fin_no}
use dquic.Frame.Stream.{
  StreamFrame, EncodingStrategy, stream_frame_max_encoding_size, new, header_size, offset_size,
  length_size, set_len_bit, strategy_for, is_omit, encoding_strategy, estimate_max_capacity,
}

abbrev pub size_of : ℕ → ℕ
size_of x = nbytes (shortest x)

abbrev pub offset_bytes : ℕ → ℕ
offset_bytes offset = if not (offset == 0) then size_of offset else 0

offset_size-ret : (offset : ℕ) → offset < 2 ^ 62 → offset_size offset ≡ ret (offset_bytes offset)
unfolding offset_size
offset_size-ret offset h = elim (Bool-cases (offset == 0)) [
  | inl e ↦ rw (offset_size, e) refl
  | inr e ↦ rw (offset_size, e) (encoding_size-shortest offset h)
]

-- The strategy is carried out within the capacity: the padding, the header with the length or
-- without, and the data fill it exactly, or they leave room for any other STREAM frame header.
pub record Fits (f : StreamFrame) (capacity : ℕ) (s : EncodingStrategy) : Type 0 where
  pub header : ℕ
  pub measured : header_size (set_len_bit f s.carried) ≡ ret header
  pub filled :
      (s.pre_padding + header + f.length ≡ capacity)
      ⊎ ((s.carried ≡ explicit)
          × (s.pre_padding + header + f.length + stream_frame_max_encoding_size ≤ capacity))

abbrev plain : ℕ → ℕ → ℕ → StreamFrame
plain id offset length = record {
  id = id;
  offset = offset;
  length = length;
  len_bit = omit;
  fin_bit = fin_no;
}

size_of-le : (x : ℕ) → size_of x ≤ 8
size_of-le x = ground arith

offset_bytes-le : (x : ℕ) → offset_bytes x ≤ 8
offset_bytes-le x = elim (Bool-cases (x == 0)) [
  | inl e ↦ rw e (omega arith)
  | inr e ↦ rw e (size_of-le x)
]

header_size-plain :
    (id offset length : ℕ) (carried : Len)
    → id < 2 ^ 62
    → offset < 2 ^ 62
    → length < 2 ^ 62
    → header_size (set_len_bit (plain id offset length) carried)
      ≡ ret (
          1
          + size_of id
          + offset_bytes offset
          + (elim carried [ explicit ↦ size_of length | omit ↦ 0 ]))
unfolding header_size length_size set_len_bit
header_size-plain id offset length explicit hi ho hl =
    rw (encoding_size-shortest id hi, offset_size-ret offset ho, encoding_size-shortest length hl)
      refl
header_size-plain id offset length omit hi ho hl =
    rw (encoding_size-shortest id hi, offset_size-ret offset ho) refl

strategy-Fits :
    (capacity id offset length : ℕ)
    → id < 2 ^ 62
    → offset < 2 ^ 62
    → length < 2 ^ 62
    → 1 + size_of id + offset_bytes offset + length ≤ capacity
    → (s : EncodingStrategy) × (encoding_strategy (plain id offset length) capacity ≡ ret s)
      × Fits (plain id offset length) capacity s
unfolding encoding_strategy is_omit header_size length_size strategy_for
strategy-Fits capacity id offset length hi ho hl fits =
    let h = 1 + size_of id + offset_bytes offset + 0 in
    (
      strategy_for (capacity - (h + length)) (size_of length),
      rw
          (
            encoding_size-shortest id hi,
            offset_size-ret offset ho,
            add_u64-ret h length (omega (arith, size_of-le id, offset_bytes-le offset)),
            le→leb (h + length) capacity (omega arith),
            encoding_size-shortest length hl,
          )
          refl,
      chosen (dec_le (size_of length) (capacity - (h + length))),
    )
  where
    header : ℕ
    header = 1 + size_of id + offset_bytes offset

    chosen :
        Dec (size_of length ≤ capacity - (header + 0 + length))
        → Fits
            (plain id offset length)
            capacity
            (strategy_for (capacity - (header + 0 + length)) (size_of length))
    chosen (no small) =
        rw (lt→leb (size_of length) (capacity - (header + 0 + length)) (omega arith)) (record {
          header = header + 0;
          measured = header_size-plain id offset length omit hi ho hl;
          filled = inl (omega (arith, fits));
        })
    chosen (yes large) =
        rw (le→leb (size_of length) (capacity - (header + 0 + length)) large)
          (elim (dec_lt (capacity - (header + 0 + length) - size_of length)
            stream_frame_max_encoding_size) [
              | yes tight ↦
                  rw
                    (lt→ltb (capacity - (header + 0 + length) - size_of length)
                      stream_frame_max_encoding_size tight)
                    (record {
                      header = header + size_of length;
                      measured = header_size-plain id offset length explicit hi ho hl;
                      filled = inl (omega (arith, fits, large));
                    })
              | no loose ↦
                  rw
                    (le→ltb (capacity - (header + 0 + length) - size_of length)
                      stream_frame_max_encoding_size (omega arith))
                    (record {
                      header = header + size_of length;
                      measured = header_size-plain id offset length explicit hi ho hl;
                      filled = inr (refl, omega (arith, fits, large, loose));
                    })
            ])

-- For an identifier and an offset below 2^62, `estimate_max_capacity` returns none exactly when the
-- capacity has no byte to spare for data beside the header without a length. Otherwise, for a frame at
-- that offset with at most as many bytes as it returns, and with fewer than 2^62, `encoding_strategy`
-- returns a strategy that fits the capacity.
pub encoding_strategy-Fits :
    (capacity id offset length : ℕ)
    → id < 2 ^ 62
    → offset < 2 ^ 62
    → length < 2 ^ 62
    → ((estimate_max_capacity capacity id offset ≡ ret none)
        × (capacity ≤ 1 + size_of id + offset_bytes offset))
      ⊎ ((most : ℕ) × (estimate_max_capacity capacity id offset ≡ ret (some most))
          × ((most < length)
              ⊎ ((f : StreamFrame) × (s : EncodingStrategy) × (new id offset length ≡ ret f)
                  × (encoding_strategy f capacity ≡ ret s)
                  × Fits f capacity s)))
unfolding estimate_max_capacity new
encoding_strategy-Fits capacity id offset length hi ho hl =
    rw
      (
        le→leb offset varint_max (omega arith),
        encoding_size-shortest id hi,
        offset_size-ret offset ho,
      )
      (elim (dec_le capacity (1 + size_of id + offset_bytes offset)) [
        | yes none_left ↦
            rw (le→leb capacity (1 + size_of id + offset_bytes offset) none_left)
              (inl (refl, none_left))
        | no some_left ↦ rw (lt→leb capacity (1 + size_of id + offset_bytes offset) (omega arith)) (
            inr (
              capacity - (1 + size_of id + offset_bytes offset),
              refl,
              fitted (omega arith)
                  (dec_lt (capacity - (1 + size_of id + offset_bytes offset)) length),
            ))
      ])
  where
    fitted :
        1 + size_of id + offset_bytes offset < capacity
        → Dec (capacity - (1 + size_of id + offset_bytes offset) < length)
        → (capacity - (1 + size_of id + offset_bytes offset) < length)
          ⊎ ((f : StreamFrame) × (s : EncodingStrategy) × (Path
                (Outcome StreamFrame)
                (ret (plain id offset length))
                (ret f))
              × (encoding_strategy f capacity ≡ ret s)
              × Fits f capacity s)
    fitted room (yes long) = inl long
    fitted room (no short) =
        let (s, e, fits) = strategy-Fits capacity id offset length hi ho hl (omega arith) in
        inr (plain id offset length, s, refl, e, fits)
