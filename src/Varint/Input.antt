-- ===== src/Varint/Input.antt =====
-- `be_varint` on any bytes, well formed or not.
use native.Mathlib.Nat.{one-le-pow}
use dquic.Base.{
  ℕ, suc, zero, ◌+◌, ◌-◌, ◌*◌, ◌/◌, ◌%◌, ◌^◌, ◌≤◌, ◌<◌, ◌≡◌, ap, refl, arith, List, [], ◌∷◌, ◌++◌,
  ret, length, ◌⊎◌, inl, inr, dec_lt, take, drop, All, sub_u64, sub_u64-ret,
}
use dquic.Base.Nom.{BitTake, parsed, incomplete, be_value}
use dquic.Varint.{be_varint, take_prefixed, take_value, missing, div_ceil8}
use dquic.Varint.Codec.{be_varint_tagged}

take-append-drop : (n : ℕ) (xs : List ℕ) → take n xs ++ drop n xs ≡ xs
take-append-drop zero xs = refl
take-append-drop (suc n) [] = refl
take-append-drop (suc n) (x ∷ xs) = rw (take-append-drop n xs)

length-take_of_le : (n : ℕ) (xs : List ℕ) → n ≤ length xs → length (take n xs) ≡ n
length-take_of_le zero xs h = refl
length-take_of_le (suc n) [] h = absurd (omega arith)
length-take_of_le (suc n) (x ∷ xs) h = ap suc (length-take_of_le n xs (omega arith))

drop_first : (b n : ℕ) (tail : List ℕ) → 0 < n → drop n (b ∷ tail) ≡ drop (n - 1) tail
drop_first b zero tail h = elim h [ ]
drop_first b (suc n) tail h = rw (ap (λ (k : ℕ). drop k tail) same)
  where
    same : suc n - 1 ≡ n
    same = omega arith

value-lt : (p v : ℕ) → p < 4 → v % 2 ^ (8 * 2 ^ p - 2) < 2 ^ 62
value-lt zero v h = omega arith
value-lt (suc zero) v h = omega arith
value-lt (suc (suc zero)) v h = omega arith
value-lt (suc (suc (suc zero))) v h = omega arith
value-lt (suc (suc (suc (suc p)))) v h = absurd (omega arith)

-- The length that a first byte announces.
abbrev pub announced : ℕ → ℕ
announced b = 2 ^ (b / 64)

abbrev pub IsByte : ℕ → Type 0
IsByte b = b < 256

module _ (t : BitTake) where
  be_varint_empty : be_varint t [] ≡ ret (incomplete 1)
  unfolding be_varint take_prefixed missing sub_u64 div_ceil8
  be_varint_empty = rw (t.take_bits_short 2 0 [] (omega arith)) refl

  be_varint_short :
      (b : ℕ) (tail : List ℕ)
      → b < 256
      → length (b ∷ tail) < announced b
      → be_varint t (b ∷ tail) ≡ ret (incomplete (announced b - length (b ∷ tail)))
  unfolding be_varint take_prefixed take_value missing div_ceil8
  be_varint_short b tail hb h =
      rw
        (
          t.take_bits_two b tail hb,
          t.take_bits_short (8 * announced b - 2) 2 (b ∷ tail)
              (omega (arith, one-le-pow (b / 64) 2)),
          rounded,
          sub_u64-ret (announced b) (length (b ∷ tail)) (omega arith),
        )
        refl
    where
      rounded : (8 * announced b - 2 + 7) / 8 ≡ announced b
      rounded = omega (arith, one-le-pow (b / 64) 2)

  be_varint_long :
      (b : ℕ) (tail : List ℕ)
      → b < 256
      → announced b ≤ length (b ∷ tail)
      → be_varint t (b ∷ tail)
        ≡ ret (
            parsed
              (drop (announced b - 1) tail)
              (be_value 0 (b ∷ take (announced b - 1) tail) % 2 ^ (8 * announced b - 2)))
  be_varint_long b tail hb h = rw (take-append-drop (announced b - 1) tail) at (
      be_varint_tagged t (b / 64) b (take (announced b - 1) tail) (drop (announced b - 1) tail) hb
        refl
        (omega
          (arith, one-le-pow (b / 64) 2, length-take_of_le (announced b - 1) tail (omega arith))))

  long_input :
      (b : ℕ) (tail : List ℕ)
      → b < 256
      → announced b ≤ length (b ∷ tail)
      → (v : ℕ) × (be_varint t (b ∷ tail) ≡ ret (parsed (drop (announced b) (b ∷ tail)) v))
        × (v < 2 ^ 62)
  long_input b tail hb h =
      let v = be_value 0 (b ∷ take (announced b - 1) tail) % 2 ^ (8 * announced b - 2) in
      (
        v,
        rw (drop_first b (announced b) tail (one-le-pow (b / 64) 2 (omega arith)))
            (be_varint_long b tail hb h),
        value-lt (b / 64) _ (omega arith),
      )

-- `be_varint` never panics on bytes. On no input it asks for one byte. Otherwise the two high bits
-- of the first byte announce 1, 2, 4 or 8 bytes: if they are not there, it asks for exactly the
-- number missing; if they are, it returns a value below 2^62 and what follows those bytes.
pub be_varint_total :
    (t : BitTake) (input : List ℕ)
    → All IsByte input
    → ((input ≡ []) × (be_varint t input ≡ ret (incomplete 1)))
      ⊎ ((b : ℕ) × (tail : List ℕ) × (input ≡ b ∷ tail)
          × (((length input < announced b)
                × (be_varint t input ≡ ret (incomplete (announced b - length input))))
              ⊎ ((announced b ≤ length input)
                  × ((v : ℕ) × (be_varint t input ≡ ret (parsed (drop (announced b) input) v))
                      × (v < 2 ^ 62)))))
be_varint_total t [] h = inl (refl, be_varint_empty t)
be_varint_total t (b ∷ tail) h = inr (
  b,
  tail,
  refl,
  elim (dec_lt (length (b ∷ tail)) (announced b)) [
    | yes short ↦ inl (short, be_varint_short t b tail h.0 short)
    | no long ↦ inr (omega arith, long_input t b tail h.0 (omega arith))
  ],
)
