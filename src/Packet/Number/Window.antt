-- ===== src/Packet/Number/Window.antt =====
-- What `PacketNumber::decode` returns for any truncated number.
use native.Mathlib.Nat.{mod-eq_of_lt}
use dquic.Base.{
  ℕ, ◌+◌, ◌-◌, ◌*◌, ◌/◌, ◌%◌, ◌^◌, ◌≤◌, ◌<◌, ◌≡◌, ◌⊎◌, ◌&&◌, refl, arith, ret, ltb, leb,
  if◌then◌else◌,
}
use dquic.Base.Bits.{bit_or_shifted, bit_and_high, bit_and_low}
use dquic.Packet.Number.{
  PacketNumber, u8, u16, u24, u32, decode, truncated, nbits, nearest, candidate_of,
}

-- The candidate keeps what stands above the window and takes the truncated number below it. The
-- complement of the mask is `2 ^ j - 1` shifted by `k`.
candidate_fields :
    (k j x expected : ℕ)
    → 2 ^ 64 - 1 - (2 ^ k - 1) ≡ (2 ^ j - 1) * 2 ^ k
    → x < 2 ^ k
    → expected / 2 ^ k < 2 ^ j
    → candidate_of k x expected ≡ expected / 2 ^ k * 2 ^ k + x
unfolding candidate_of
candidate_fields k j x expected mask hx he =
    rw
      (mask, bit_and_high k (2 ^ j - 1) expected, bit_and_low j (expected / 2 ^ k), mod-eq_of_lt he)
      (bit_or_shifted k (expected / 2 ^ k) x hx)

-- `number` ends in the truncated `x` and lies in the window of `win` numbers around `expected`, or
-- below the first full window, where no number ending in `x` lies in it.
abbrev pub Decodes : ℕ → ℕ → ℕ → ℕ → Type 0
Decodes win x expected number =
    (number % win ≡ x)
    × (((expected < number + win / 2) × (number ≤ expected + win / 2))
        ⊎ ((number < win) × (expected + win / 2 < number)))

abbrev number_at : ℕ → ℕ → ℕ → ℕ
number_at win candidate expected =
    if leb (win / 2) expected && leb candidate (expected - win / 2)
    then candidate + win
    else if ltb (expected + win / 2) candidate && ltb win candidate
    then candidate - win
    else candidate

nearest-ret :
    (win c e : ℕ)
    → win ≤ 2 ^ 32
    → e < 2 ^ 63
    → c < e + win
    → nearest win c e ≡ ret (number_at win c e)
unfolding nearest
nearest-ret win c e hw he hc = ground arith

decode-ret :
    (k j x e : ℕ)
    → 2 ^ k ≤ 2 ^ 32
    → 2 ^ 64 - 1 - (2 ^ k - 1) ≡ (2 ^ j - 1) * 2 ^ k
    → e / 2 ^ k < 2 ^ j
    → x < 2 ^ k
    → e < 2 ^ 63
    → e / 2 ^ k * 2 ^ k ≤ e
    → nearest (2 ^ k) (candidate_of k x e) e ≡ ret (number_at (2 ^ k) (e / 2 ^ k * 2 ^ k + x) e)
decode-ret k j x e hk mask hj hx he below =
    rw (candidate_fields k j x e mask hx hj)
      (nearest-ret (2 ^ k) (e / 2 ^ k * 2 ^ k + x) e hk he (omega arith))

-- For every truncated number that fits its width and every expected number below 2^63, `decode`
-- returns without overflow a number that ends in the truncated one and lies within half a window of
-- the expected one; the only exception is a number below the first full window, where no number
-- with that ending lies so near.
pub decode-Decodes :
    (p : PacketNumber) (e : ℕ)
    → truncated p < 2 ^ nbits p
    → e < 2 ^ 63
    → (number : ℕ) × (decode p e ≡ ret number) × Decodes (2 ^ nbits p) (truncated p) e number
unfolding decode
decode-Decodes (u8 x) e hx he =
    (_, decode-ret 8 56 x e (omega arith) refl (omega arith) hx he (omega arith), ground arith)
decode-Decodes (u16 x) e hx he =
    (_, decode-ret 16 48 x e (omega arith) refl (omega arith) hx he (omega arith), ground arith)
decode-Decodes (u24 x) e hx he =
    (_, decode-ret 24 40 x e (omega arith) refl (omega arith) hx he (omega arith), ground arith)
decode-Decodes (u32 x) e hx he =
    (_, decode-ret 32 32 x e (omega arith) refl (omega arith) hx he (omega arith), ground arith)

-- At most one number in the window around the expected one has the ending.
pub Decodes-unique :
    (p : PacketNumber) (e m n : ℕ)
    → Decodes (2 ^ nbits p) (truncated p) e m
    → n % 2 ^ nbits p ≡ truncated p
    → e < n + 2 ^ nbits p / 2
    → n ≤ e + 2 ^ nbits p / 2
    → m ≡ n
unfolding nbits truncated
Decodes-unique (u8 x) e m n d hn lo hi = omega arith
Decodes-unique (u16 x) e m n d hn lo hi = omega arith
Decodes-unique (u24 x) e m n d hn lo hi = omega arith
Decodes-unique (u32 x) e m n d hn lo hi = omega arith
