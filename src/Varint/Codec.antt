-- ===== src/Varint/Codec.antt =====
-- What `put_varint` and `encode_varint` write, and that `be_varint` reads it back.
use dquic.Base.{
  ℕ, ◌+◌, ◌-◌, ◌*◌, ◌/◌, ◌%◌, ◌^◌, ◌≤◌, ◌<◌, ◌≡◌, ◌∙◌, ap, refl, arith, List, [], ◌∷◌, ◌++◌, ret,
  panic, length, ltb, if◌then◌else◌, ◌⊎◌, inl, inr, dec_lt, sym,
}
use dquic.Base.Bits.{bit_or_shifted}
use dquic.Base.Nom.{BufMut, BitTake, parsed, be_bytes1, be_bytes2, be_bytes4, be_bytes8, be_value}
use dquic.Varint.{
  EncodeBytes, one, two, four, eight, encoding_size, put_varint, encode_varint, be_varint,
  take_prefixed, take_value,
}

-- The length, the largest value's bound and the bytes of each encoding.
abbrev pub nbytes : EncodeBytes → ℕ
nbytes one = 1
nbytes two = 2
nbytes four = 4
nbytes eight = 8

abbrev pub limit : EncodeBytes → ℕ
limit one = 2 ^ 6
limit two = 2 ^ 14
limit four = 2 ^ 30
limit eight = 2 ^ 62

abbrev pub encoded : EncodeBytes → ℕ → List ℕ
encoded one x = be_bytes1 x
encoded two x = be_bytes2 (2 ^ 14 + x)
encoded four x = be_bytes4 (2 * 2 ^ 30 + x)
encoded eight x = be_bytes8 (3 * 2 ^ 62 + x)

module _ (t : BitTake) where
  pub be_varint_tagged :
      (prefix b : ℕ) (tail rest : List ℕ)
      → b < 256
      → b / 64 ≡ prefix
      → 8 * 2 ^ prefix - 2 + 2 ≡ 8 * length (b ∷ tail)
      → be_varint t (b ∷ tail ++ rest)
        ≡ ret (parsed rest (be_value 0 (b ∷ tail) % 2 ^ (8 * 2 ^ prefix - 2)))
  unfolding be_varint take_prefixed take_value
  be_varint_tagged prefix b tail rest hb e len =
      rw
        (
          t.take_bits_two b (tail ++ rest) hb,
          e,
          t.take_bits_enough (8 * 2 ^ prefix - 2) 2 (b ∷ tail) rest (omega arith) len,
        )
        refl

  be_varint-encoded :
      (k : EncodeBytes) (x : ℕ) (rest : List ℕ)
      → x < limit k
      → be_varint t (encoded k x ++ rest) ≡ ret (parsed rest x)
  be_varint-encoded one x rest h =
      be_varint_tagged 0 (x % 256) [] rest (omega arith) (omega arith) refl ∙ ground arith
  be_varint-encoded two x rest h =
      let y = 2 ^ 14 + x in
      be_varint_tagged 1 (y / 256 % 256) (be_bytes1 y) rest (omega arith) (omega arith) refl
      ∙ ap (λ (v : ℕ). ret (parsed rest v)) (omega arith)
  be_varint-encoded four x rest h =
      let y = 2 * 2 ^ 30 + x in
      be_varint_tagged 2 (y / 2 ^ 24 % 256) (y / 2 ^ 16 % 256 ∷ be_bytes2 y) rest (omega arith)
        (omega arith) refl
      ∙ ap (λ (v : ℕ). ret (parsed rest v)) (omega arith)
  be_varint-encoded eight x rest h =
      let y = 3 * 2 ^ 62 + x in
      be_varint_tagged 3 (y / 2 ^ 56 % 256)
        (y / 2 ^ 48 % 256 ∷ y / 2 ^ 40 % 256 ∷ y / 2 ^ 32 % 256 ∷ be_bytes4 y) rest (omega arith)
        (omega arith) refl
      ∙ ap (λ (v : ℕ). ret (parsed rest v)) (omega arith)

module _ (m : BufMut) where
  contents-encode_varint :
      (k : EncodeBytes) (b : m.Buf) (x : ℕ)
      → x < limit k
      → (b' : m.Buf) × (encode_varint m b x k ≡ ret b')
        × (m.contents b' ≡ m.contents b ++ encoded k x)
  unfolding encode_varint
  contents-encode_varint one b x h = (
    m.put_u8 b (x % 2 ^ 8),
    ground arith,
    m.contents-put_u8 b (x % 2 ^ 8) ∙ ap (λ (bs : List ℕ). m.contents b ++ bs) (ground arith),
  )
  contents-encode_varint two b x h = (
    m.put_u16 b (2 ^ 14 + x),
    ground (arith, bit_or_shifted 14 1 (x % 2 ^ 16)),
    m.contents-put_u16 b _,
  )
  contents-encode_varint four b x h = (
    m.put_u32 b (2 * 2 ^ 30 + x),
    ground (arith, bit_or_shifted 30 2 (x % 2 ^ 32)),
    m.contents-put_u32 b _,
  )
  contents-encode_varint eight b x h =
      (m.put_u64 b (3 * 2 ^ 62 + x), ground (arith, bit_or_shifted 62 3 x), m.contents-put_u64 b _)

-- The shortest encoding.
abbrev pub shortest : ℕ → EncodeBytes
shortest x =
    if ltb x (2 ^ 6)
    then one
    else if ltb x (2 ^ 14)
    then two
    else if ltb x (2 ^ 30)
    then four
    else eight

pub encoding_size-shortest : (x : ℕ) → x < 2 ^ 62 → encoding_size x ≡ ret (nbytes (shortest x))
unfolding encoding_size
encoding_size-shortest x h = ground arith

limit-shortest : (x : ℕ) → x < 2 ^ 62 → x < limit (shortest x)
limit-shortest x h = ground arith

put_varint-shortest :
    (m : BufMut) (b : m.Buf) (x : ℕ) → put_varint m b x ≡ encode_varint m b x (shortest x)
unfolding put_varint encode_varint
put_varint-shortest m b x = ground arith

length-encoded : (k : EncodeBytes) (x : ℕ) → length (encoded k x) ≡ nbytes k
length-encoded one x = refl
length-encoded two x = refl
length-encoded four x = refl
length-encoded eight x = refl

-- For each of the four lengths: a value that fits is written as that many bytes, which `be_varint`
-- reads back, followed by anything, up to what follows; one that does not fit makes `encode_varint`
-- panic.
pub encode_varint_lem :
    (m : BufMut) (t : BitTake) (b : m.Buf) (x : ℕ) (k : EncodeBytes) (rest : List ℕ)
    → ((x < limit k)
        × ((b' : m.Buf) × (out : List ℕ) × (encode_varint m b x k ≡ ret b')
            × (m.contents b' ≡ m.contents b ++ out)
            × (length out ≡ nbytes k)
            × (be_varint t (out ++ rest) ≡ ret (parsed rest x))))
      ⊎ ((limit k ≤ x) × (encode_varint m b x k ≡ panic))
encode_varint_lem m t b x k rest = elim (dec_lt x (limit k)) [
  | yes h ↦
      let (b', writes, bytes) = contents-encode_varint m k b x h in
      inl (h, (b', encoded k x, writes, bytes, length-encoded k x, be_varint-encoded t k x rest h))
  | no h ↦ inr (omega arith, too_large k (omega arith))
]
  where
    too_large : (k : EncodeBytes) → limit k ≤ x → encode_varint m b x k ≡ panic
    too_large one g = unfold encode_varint in ground arith
    too_large two g = unfold encode_varint in ground arith
    too_large four g = unfold encode_varint in ground arith
    too_large eight g = unfold encode_varint in ground arith

-- Every value below 2^62 is written by `put_varint` in the number of bytes that `encoding_size`
-- announces, no encoding that fits the value is shorter, and `be_varint` reads the bytes back,
-- followed by anything, up to what follows.
pub be_varint-put_varint :
    (m : BufMut) (t : BitTake) (b : m.Buf) (x : ℕ) (rest : List ℕ)
    → x < 2 ^ 62
    → (b' : m.Buf) × (out : List ℕ) × (put_varint m b x ≡ ret b')
      × (m.contents b' ≡ m.contents b ++ out)
      × (encoding_size x ≡ ret (length out))
      × ((k : EncodeBytes) → x < limit k → length out ≤ nbytes k)
      × (be_varint t (out ++ rest) ≡ ret (parsed rest x))
be_varint-put_varint m t b x rest h =
    let k = shortest x in
    let fits = limit-shortest x h in
    let (b', writes, bytes) = contents-encode_varint m k b x fits in
    (
      b',
      encoded k x,
      put_varint-shortest m b x ∙ writes,
      bytes,
      encoding_size-shortest x h ∙ ap ret (sym (length-encoded k x)),
      λ j g. rw (length-encoded k x) (shortest-le j g),
      be_varint-encoded t k x rest fits,
    )
  where
    shortest-le : (j : EncodeBytes) → x < limit j → nbytes (shortest x) ≤ nbytes j
    shortest-le one g = ground arith
    shortest-le two g = ground arith
    shortest-le four g = ground arith
    shortest-le eight g = ground arith
