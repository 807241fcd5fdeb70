-- ===== src/Base/Nom.antt =====
-- What the codecs use of the crates `bytes` and `nom`. Neither stands in the repository, so a codec
-- takes them as parameters, with the documented behaviour that it relies on as laws.
use dquic.Base.Lists.{length, take, drop}
use Prim.Native.Nat.{ℕ, ◌+◌, ◌*◌, ◌/◌, ◌%◌, ◌^◌, ◌-◌, ◌≤◌, ◌<◌}
use mathlib.Core.Path.{◌≡◌}
use mathlib.Core.List.{List, [], ◌∷◌, ◌++◌}

-- The number that a sequence of bytes denotes, most significant byte first.
abbrev pub be_value : ℕ → List ℕ → ℕ
be_value acc [] = acc
be_value acc (b ∷ bs) = be_value (acc * 256 + b) bs

-- The `n` low bytes of a number, most significant first.
abbrev pub be_bytes1 : ℕ → List ℕ
be_bytes1 x = x % 256 ∷ []

abbrev pub be_bytes2 : ℕ → List ℕ
be_bytes2 x = x / 256 % 256 ∷ be_bytes1 x

abbrev pub be_bytes4 : ℕ → List ℕ
be_bytes4 x = x / 2 ^ 24 % 256 ∷ x / 2 ^ 16 % 256 ∷ be_bytes2 x

abbrev pub be_bytes8 : ℕ → List ℕ
be_bytes8 x =
    x / 2 ^ 56 % 256 ∷ x / 2 ^ 48 % 256 ∷ x / 2 ^ 40 % 256 ∷ x / 2 ^ 32 % 256 ∷ be_bytes4 x

-- `bytes::BufMut` on a buffer with room left: each call appends an integer, big-endian.
pub record BufMut : Type 1 where
  pub Buf : Type 0
  pub contents : Buf → List ℕ
  pub put_u8 : Buf → ℕ → Buf
  pub put_u16 : Buf → ℕ → Buf
  pub put_u32 : Buf → ℕ → Buf
  pub put_u64 : Buf → ℕ → Buf
  pub contents-put_u8 : (b : Buf) (x : ℕ) → contents (put_u8 b x) ≡ contents b ++ be_bytes1 x
  pub contents-put_u16 : (b : Buf) (x : ℕ) → contents (put_u16 b x) ≡ contents b ++ be_bytes2 x
  pub contents-put_u32 : (b : Buf) (x : ℕ) → contents (put_u32 b x) ≡ contents b ++ be_bytes4 x
  pub contents-put_u64 : (b : Buf) (x : ℕ) → contents (put_u64 b x) ≡ contents b ++ be_bytes8 x

-- `bytes::Bytes`: an immutable sequence of bytes, of which `slice` gives a part.
pub record BytesOps : Type 1 where
  pub Bytes : Type 0
  pub contents : Bytes → List ℕ
  pub slice : Bytes → ℕ → ℕ → Bytes
  pub contents-slice :
      (d : Bytes) (start end : ℕ)
      → start ≤ end
      → end ≤ length (contents d)
      → contents (slice d start end) ≡ take (end - start) (drop start (contents d))

pub data ErrorKind : Type 0 where
  eof too_large : ErrorKind

-- `nom::IResult` over a byte slice: the bytes left and a value, or `Err::Incomplete` with the number
-- needed, or `Err::Error`.
pub data IResult {ℓ} (A : Type ℓ) : Type ℓ where
  parsed : List ℕ → A → IResult A
  incomplete : ℕ → IResult A
  error : ErrorKind → IResult A

-- `nom::number::complete::{be_u8, be_u16, be_u24, be_u32}`, by the number of bytes.
pub record BeUint : Type 0 where
  pub be_uint : ℕ → List ℕ → IResult ℕ
  pub be_uint-append :
      (bytes rest : List ℕ)
      → be_uint (length bytes) (bytes ++ rest) ≡ parsed rest (be_value 0 bytes)
  pub be_uint_short : (n : ℕ) (input : List ℕ) → length input < n → be_uint n input ≡ error eof

-- `nom::bits::streaming::take`: the next `n` bits of a slice from a bit offset below 8 on, as a
-- number, and the position behind them; `Incomplete` names the bits asked for.
pub data BitResult : Type 0 where
  bits : List ℕ → ℕ → ℕ → BitResult
  needed : ℕ → BitResult

pub record BitTake : Type 0 where
  pub take_bits : ℕ → List ℕ → ℕ → BitResult
  pub take_bits_enough :
      (n offset : ℕ) (bytes rest : List ℕ)
      → offset < 8
      → n + offset ≡ 8 * length bytes
      → take_bits n (bytes ++ rest) offset ≡ bits rest 0 (be_value 0 bytes % 2 ^ n)
  pub take_bits_two :
      (b : ℕ) (rest : List ℕ) → b < 256 → take_bits 2 (b ∷ rest) 0 ≡ bits (b ∷ rest) 2 (b / 64)
  pub take_bits_short :
      (n offset : ℕ) (input : List ℕ)
      → 8 * length input < n + offset
      → take_bits n input offset ≡ needed n
