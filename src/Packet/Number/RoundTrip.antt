-- ===== src/Packet/Number/RoundTrip.antt =====
-- A packet number written by `put_packet_number` and read back by `take_pn_len` and `decode`.
use mathlib.Core.List.{append_assoc}
use dquic.Base.{
  ℕ, ◌+◌, ◌-◌, ◌*◌, ◌/◌, ◌%◌, ◌^◌, ◌≤◌, ◌<◌, ◌≡◌, ◌⊎◌, inl, inr, ap, ◌∙◌, arith, List, ◌∷◌, ◌++◌,
  ret, panic, dec_lt, ltb, max, if◌then◌else◌,
}
use dquic.Base.Nom.{BufMut, BeUint, parsed, be_bytes1, be_bytes2, be_bytes4}
use dquic.Packet.Number.{
  PacketNumber, u8, u16, u24, u32, encode, decode, size, truncated, nbits, put_packet_number,
  take_pn_len,
}
use dquic.Packet.Number.Window.{decode-Decodes, Decodes-unique}

-- The bytes that are written, and the number that is read from them: a `U24` holds a u32, of which
-- three bytes are sent.
abbrev pub wire_bytes : PacketNumber → List ℕ
wire_bytes (u8 x) = be_bytes1 x
wire_bytes (u16 x) = be_bytes2 x
wire_bytes (u24 x) = x / 2 ^ 16 % 256 ∷ be_bytes2 x
wire_bytes (u32 x) = be_bytes4 x

abbrev pub received : PacketNumber → PacketNumber
received (u8 x) = u8 (x % 2 ^ 8)
received (u16 x) = u16 (x % 2 ^ 16)
received (u24 x) = u24 (x % 2 ^ 24)
received (u32 x) = u32 (x % 2 ^ 32)

module _ (m : BufMut) (n : BeUint) where
  contents-put_packet_number :
      (b : m.Buf) (p : PacketNumber)
      → m.contents (put_packet_number m b p) ≡ m.contents b ++ wire_bytes p
  unfolding put_packet_number
  contents-put_packet_number b (u8 x) = m.contents-put_u8 b x
  contents-put_packet_number b (u16 x) = m.contents-put_u16 b x
  contents-put_packet_number b (u24 x) =
      let high = x / 2 ^ 16 % 2 ^ 8 in
      rw (m.contents-put_u16 (m.put_u8 b high) (x % 2 ^ 16), m.contents-put_u8 b high)
        (append_assoc (m.contents b) (be_bytes1 high) (be_bytes2 (x % 2 ^ 16))
          ∙ ap (λ (bs : List ℕ). m.contents b ++ bs) (ground arith))
  contents-put_packet_number b (u32 x) = m.contents-put_u32 b x

  take_pn_len-wire_bytes :
      (p : PacketNumber) (rest : List ℕ)
      → take_pn_len n (size p) (wire_bytes p ++ rest) ≡ ret (parsed rest (received p))
  unfolding take_pn_len size
  take_pn_len-wire_bytes (u8 x) rest = rw (n.be_uint-append (wire_bytes (u8 x)) rest) (ground arith)
  take_pn_len-wire_bytes (u16 x) rest =
      rw (n.be_uint-append (wire_bytes (u16 x)) rest) (ground arith)
  take_pn_len-wire_bytes (u24 x) rest =
      rw (n.be_uint-append (wire_bytes (u24 x)) rest) (ground arith)
  take_pn_len-wire_bytes (u32 x) rest =
      rw (n.be_uint-append (wire_bytes (u32 x)) rest) (ground arith)

-- What `encode` chose: at least 16 bits, and a window of more than twice the numbers in flight.
abbrev pub Encodes : ℕ → ℕ → PacketNumber → Type 0
Encodes pn largest_acked p =
    (truncated (received p) ≡ pn % 2 ^ nbits p)
    × ((pn - largest_acked) * 2 < 2 ^ nbits p)
    × (16 ≤ nbits p)
    × (nbits (received p) ≡ nbits p)
    × (truncated (received p) < 2 ^ nbits p)

abbrev fitted : ℕ → ℕ → PacketNumber
fitted pn largest_acked =
    let range = max ((pn - largest_acked) * 2) (2 ^ 16 - 1) in
    if ltb range (2 ^ 16)
    then u16 (pn % 2 ^ 16)
    else if ltb range (2 ^ 24)
    then u24 (pn % 2 ^ 32)
    else u32 (pn % 2 ^ 32)

encode-fitted :
    (pn largest_acked : ℕ)
    → largest_acked ≤ pn
    → pn - largest_acked < 2 ^ 31
    → encode pn largest_acked ≡ ret (fitted pn largest_acked)
unfolding encode
encode-fitted pn largest_acked h k = ground arith

fitted-Encodes :
    (pn largest_acked : ℕ)
    → pn - largest_acked < 2 ^ 31
    → Encodes pn largest_acked (fitted pn largest_acked)
unfolding truncated nbits
fitted-Encodes pn largest_acked k = ground arith

encode-panic :
    (pn largest_acked : ℕ)
    → ((pn < largest_acked) ⊎ (2 ^ 31 ≤ pn - largest_acked))
    → encode pn largest_acked ≡ panic
unfolding encode
encode-panic pn largest_acked (inl h) = ground arith
encode-panic pn largest_acked (inr h) = ground arith

-- The encoding keeps the low bits of `pn` that it sends, its window is more than twice as wide as
-- `pn` is above `largest_acked`, and with one byte less it would have fewer than 16 bits or not be.
pub record Fits (pn largest_acked : ℕ) (p : PacketNumber) : Type 0 where
  pub same_bits : truncated p % 2 ^ nbits p ≡ pn % 2 ^ nbits p
  pub same_size : 8 * size p ≡ nbits p
  pub wide : (pn - largest_acked) * 2 < 2 ^ nbits p
  pub shortest : (nbits p ≡ 16) ⊎ (2 ^ (nbits p - 8) ≤ (pn - largest_acked) * 2)

fitted-Fits :
    (pn largest_acked : ℕ)
    → pn - largest_acked < 2 ^ 31
    → Fits pn largest_acked (fitted pn largest_acked)
unfolding truncated nbits size
fitted-Fits pn largest_acked k = record {
  same_bits = ground arith;
  same_size = ground arith;
  wide = ground arith;
  shortest = ground arith;
}

-- Where the packet number is not below the largest acknowledged one and less than 2^31 above it,
-- `encode` returns the low bits of the packet number in the fewest bytes, at least two, for which
-- the window is more than twice as wide as the packet number is above the largest acknowledged one.
-- Everywhere else it panics.
pub encode_cases :
    (pn largest_acked : ℕ)
    → ((largest_acked ≤ pn)
        × (pn - largest_acked < 2 ^ 31)
        × ((p : PacketNumber) × (encode pn largest_acked ≡ ret p) × Fits pn largest_acked p))
      ⊎ (((pn < largest_acked) ⊎ (2 ^ 31 ≤ pn - largest_acked)) × (encode pn largest_acked ≡ panic))
encode_cases pn largest_acked = elim (dec_lt pn largest_acked) [
  | yes below ↦ inr (inl below, encode-panic pn largest_acked (inl below))
  | no up ↦ elim (dec_lt (pn - largest_acked) (2 ^ 31)) [
    | yes near ↦ inl (
      omega arith,
      near,
      (
        fitted pn largest_acked,
        encode-fitted pn largest_acked (omega arith) near,
        fitted-Fits pn largest_acked near,
      ),
    )
    | no far ↦ inr (inr (omega arith), encode-panic pn largest_acked (inr (omega arith)))
  ]
]

in_window :
    (p : PacketNumber) {pn largest_acked expected : ℕ}
    → Encodes pn largest_acked p
    → largest_acked ≤ pn
    → largest_acked < expected
    → expected < pn + 2 ^ 15
    → (pn % 2 ^ nbits (received p) ≡ truncated (received p))
      × (expected < pn + 2 ^ nbits (received p) / 2)
      × (pn ≤ expected + 2 ^ nbits (received p) / 2)
unfolding truncated nbits
in_window (u8 x) f h acked near = absurd (omega arith)
in_window (u16 x) f h acked near = omega arith
in_window (u24 x) f h acked near = omega arith
in_window (u32 x) f h acked near = omega arith

decode-received :
    (p : PacketNumber) {pn largest_acked expected : ℕ}
    → Encodes pn largest_acked p
    → largest_acked ≤ pn
    → pn < 2 ^ 62
    → largest_acked < expected
    → expected < pn + 2 ^ 15
    → decode (received p) expected ≡ ret pn
decode-received p {pn} {largest_acked} {expected} f h small acked near =
    let (number, returns, d) = decode-Decodes (received p) expected (rw (f.3) f.4) (omega arith) in
    let w = in_window p f h acked near in
    returns ∙ ap ret (Decodes-unique (received p) expected number pn d w.0 w.1 w.2)

-- A packet number below 2^62 comes through: where the largest acknowledged number is below the
-- expected one, less than 2^31 below the packet number, and the packet is overtaken by fewer than
-- 2^15 others, `encode` returns a number whose bytes, followed by anything, `take_pn_len` reads back
-- up to what follows, and `decode` makes the packet number of what was read.
pub decode-encode :
    (m : BufMut) (n : BeUint) (pn largest_acked expected : ℕ) (b : m.Buf) (rest : List ℕ)
    → largest_acked ≤ pn
    → pn - largest_acked < 2 ^ 31
    → pn < 2 ^ 62
    → largest_acked < expected
    → expected < pn + 2 ^ 15
    → (p : PacketNumber) × (q : PacketNumber) × (out : List ℕ) × (encode pn largest_acked ≡ ret p)
      × (m.contents (put_packet_number m b p) ≡ m.contents b ++ out)
      × (take_pn_len n (size p) (out ++ rest) ≡ ret (parsed rest q))
      × (decode q expected ≡ ret pn)
decode-encode m n pn largest_acked expected b rest h k small acked near =
    let p = fitted pn largest_acked in
    (
      p,
      received p,
      wire_bytes p,
      encode-fitted pn largest_acked h k,
      contents-put_packet_number m n b p,
      take_pn_len-wire_bytes m n p rest,
      decode-received p (fitted-Encodes pn largest_acked k) h small acked near,
    )
