-- ===== src/Base/Wire.antt =====
-- Instances of the interfaces of `Nom`, which show that their laws can be met: a growing list of
-- bytes, and readers that look at the slice as a list.
use dquic.Base.Lists.{length, take, drop}
use dquic.Base.Tests.{ltb, le→ltb, if◌then◌else◌}
use dquic.Base.Nom.{
  BufMut, BeUint, BitTake, BitResult, bits, needed, IResult, parsed, error, eof, be_bytes1,
  be_bytes2, be_bytes4, be_bytes8, be_value,
}
use Prim.Native.Nat.{ℕ, ◌+◌, ◌-◌, ◌*◌, ◌/◌, ◌%◌, ◌^◌, ◌≤◌, ◌<◌}
use mathlib.Core.Path.{◌≡◌, refl, ap}
use mathlib.Core.List.{List, [], ◌∷◌, ◌++◌}
use native.Mathlib.Omega.{arith}

abbrev pub list_buf : BufMut
list_buf = record {
  Buf = List ℕ;
  contents = λ b. b;
  put_u8 = λ b x. b ++ be_bytes1 x;
  put_u16 = λ b x. b ++ be_bytes2 x;
  put_u32 = λ b x. b ++ be_bytes4 x;
  put_u64 = λ b x. b ++ be_bytes8 x;
  contents-put_u8 = λ b x. refl;
  contents-put_u16 = λ b x. refl;
  contents-put_u32 = λ b x. refl;
  contents-put_u64 = λ b x. refl;
}

take-append : (xs ys : List ℕ) → take (length xs) (xs ++ ys) ≡ xs
take-append [] ys = refl
take-append (x ∷ xs) ys = ap (◌∷◌ x) (take-append xs ys)

drop-append : (xs ys : List ℕ) → drop (length xs) (xs ++ ys) ≡ ys
drop-append [] ys = refl
drop-append (x ∷ xs) ys = drop-append xs ys

length-ge : (xs ys : List ℕ) → length xs ≤ length (xs ++ ys)
length-ge [] ys = omega arith
length-ge (x ∷ xs) ys = omega (arith, length-ge xs ys)

abbrev pub read_uint : ℕ → List ℕ → IResult ℕ
read_uint n input =
    if ltb (length input) n then error eof else parsed (drop n input) (be_value 0 (take n input))

pub read_uint-append :
    (bytes rest : List ℕ)
    → read_uint (length bytes) (bytes ++ rest) ≡ parsed rest (be_value 0 bytes)
read_uint-append bytes rest =
    ground (arith, length-ge bytes rest, take-append bytes rest, drop-append bytes rest)

pub read_uint_short : (n : ℕ) (input : List ℕ) → length input < n → read_uint n input ≡ error eof
read_uint_short n input h = ground arith

abbrev pub list_uint : BeUint
list_uint = record {
  be_uint = read_uint;
  be_uint-append = read_uint-append;
  be_uint_short = read_uint_short;
}

-- The bits from `offset` on, taken from the fewest whole bytes that hold them.
abbrev pub read_bits : ℕ → List ℕ → ℕ → BitResult
read_bits n input offset =
    let last = n + offset in
    let whole = (last + 7) / 8 in
    if ltb (8 * length input) last
    then needed n
    else bits (drop (last / 8) input) (last % 8)
        (be_value 0 (take whole input) / 2 ^ (8 * whole - last) % 2 ^ n)

pub read_bits_enough :
    (n offset : ℕ) (bytes rest : List ℕ)
    → offset < 8
    → n + offset ≡ 8 * length bytes
    → read_bits n (bytes ++ rest) offset ≡ bits rest 0 (be_value 0 bytes % 2 ^ n)
read_bits_enough n offset bytes rest h e =
    rw
      (
        e,
        le→ltb (8 * length (bytes ++ rest)) (8 * length bytes)
            (omega (arith, length-ge bytes rest)),
        whole_up,
        whole_down,
        take-append bytes rest,
        drop-append bytes rest,
        remainder,
        nothing_left,
      )
      (ground arith)
  where
    whole_up : (8 * length bytes + 7) / 8 ≡ length bytes
    whole_up = omega arith

    whole_down : 8 * length bytes / 8 ≡ length bytes
    whole_down = omega arith

    remainder : 8 * length bytes % 8 ≡ 0
    remainder = omega arith

    nothing_left : 8 * length bytes - 8 * length bytes ≡ 0
    nothing_left = omega arith

pub read_bits_two :
    (b : ℕ) (rest : List ℕ) → b < 256 → read_bits 2 (b ∷ rest) 0 ≡ bits (b ∷ rest) 2 (b / 64)
read_bits_two b rest h = ground arith

pub read_bits_short :
    (n offset : ℕ) (input : List ℕ)
    → 8 * length input < n + offset
    → read_bits n input offset ≡ needed n
read_bits_short n offset input h = ground arith

abbrev pub list_bits : BitTake
list_bits = record {
  take_bits = read_bits;
  take_bits_enough = read_bits_enough;
  take_bits_two = read_bits_two;
  take_bits_short = read_bits_short;
}
