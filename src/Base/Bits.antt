-- ===== src/Base/Bits.antt =====
-- Fields of a word: `|` of a shifted field with one below it, and `&` with a low mask.
use Prim.Native.Nat.{
  ℕ, zero, suc, ◌+◌, ◌-◌, ◌*◌, ◌/◌, ◌%◌, ◌^◌, ◌≤◌, ◌<◌, min, max, bit_and, bit_or, digits,
  bit_and-bitwise, bit_or-bitwise,
}
use mathlib.Core.Path.{◌≡◌, refl, ap, ◌∙◌}
use native.Mathlib.Nat.{pow-suc, one-le-pow}
use native.Mathlib.Omega.{arith}

-- The binary recursion behind the native operations ignores surplus fuel.
module _ (base : ℕ → ℕ) (digit : ℕ → ℕ → ℕ) where
  digits_surplus : (m n a b : ℕ) → a ≤ m → a ≤ n → digits base digit m a b ≡ digits base digit n a b
  digits_surplus zero zero a b p q = refl
  digits_surplus zero (suc n) zero b p q = refl
  digits_surplus zero (suc n) (suc a) b p q = elim p [ ]
  digits_surplus (suc m) zero zero b p q = refl
  digits_surplus (suc m) zero (suc a) b p q = elim q [ ]
  digits_surplus (suc m) (suc n) zero b p q = refl
  digits_surplus (suc m) (suc n) (suc a) b p q =
      let half = digits_surplus m n (suc a / 2) (b / 2) (omega arith) (omega arith) in
      omega (arith, half)

pub bit_or_lowest : (a b : ℕ) → bit_or a b ≡ bit_or (a / 2) (b / 2) * 2 + max (a % 2) (b % 2)
bit_or_lowest zero b = simp bit_or-bitwise (omega arith)
bit_or_lowest (suc a) b =
    let half =
      digits_surplus (λ x. x) max a (suc a / 2) (suc a / 2) (b / 2) (omega arith) (omega arith) in
    simp bit_or-bitwise (omega (arith, half))

pub bit_and_lowest : (a b : ℕ) → bit_and a b ≡ bit_and (a / 2) (b / 2) * 2 + min (a % 2) (b % 2)
bit_and_lowest zero b = simp bit_and-bitwise (omega arith)
bit_and_lowest (suc a) b =
    let half =
      digits_surplus (λ x. 0) min a (suc a / 2) (suc a / 2) (b / 2) (omega arith) (omega arith) in
    simp bit_and-bitwise (omega (arith, half))

or_nothing : (size a : ℕ) → a ≤ size → bit_or a 0 ≡ a
or_nothing size zero h = refl
or_nothing zero (suc a) h = elim h [ ]
or_nothing (suc size) (suc a) h =
    omega (arith, bit_or_lowest (suc a) 0, or_nothing size (suc a / 2) (omega arith))

and_nothing : (size a : ℕ) → a ≤ size → bit_and a 0 ≡ 0
and_nothing size zero h = refl
and_nothing zero (suc a) h = elim h [ ]
and_nothing (suc size) (suc a) h =
    omega (arith, bit_and_lowest (suc a) 0, and_nothing size (suc a / 2) (omega arith))

double_shift : (k x : ℕ) → x * 2 ^ suc k ≡ 2 * (x * 2 ^ k)
double_shift k x = omega (arith, ap (λ (p : ℕ). x * p) (pow-suc 2 k))

-- `(high << k) | low` is a sum when `low` has at most `k` bits.
pub bit_or_shifted : (k high low : ℕ) → low < 2 ^ k → bit_or (high * 2 ^ k) low ≡ high * 2 ^ k + low
bit_or_shifted zero high low h = ground (arith, or_nothing high high)
bit_or_shifted (suc k) high low h = ground (
  arith,
  bit_or_lowest (high * 2 ^ suc k) low,
  double_shift k high,
  bit_or_shifted k high (low / 2) (omega (arith, pow-suc 2 k)),
)

nothing_or : (size b : ℕ) → b ≤ size → bit_or 0 b ≡ b
nothing_or size zero h = refl
nothing_or zero (suc b) h = elim h [ ]
nothing_or (suc size) (suc b) h =
    omega (arith, bit_or_lowest 0 (suc b), nothing_or size (suc b / 2) (omega arith))

-- The same with the low field first.
pub bit_or_low : (k high low : ℕ) → low < 2 ^ k → bit_or low (high * 2 ^ k) ≡ high * 2 ^ k + low
bit_or_low zero high low h = ground (arith, nothing_or high high)
bit_or_low (suc k) high low h = ground (
  arith,
  bit_or_lowest low (high * 2 ^ suc k),
  double_shift k high,
  bit_or_low k high (low / 2) (omega (arith, pow-suc 2 k)),
)

-- `word & (2^k - 1)` keeps the `k` low bits.
bit_and_split : (k high low : ℕ) → low < 2 ^ k → bit_and (high * 2 ^ k + low) (2 ^ k - 1) ≡ low
bit_and_split zero high low h = ground (arith, and_nothing (high * 1 + low) (high * 1 + low))
bit_and_split (suc k) high low h = ground (
  arith,
  bit_and_lowest (high * 2 ^ suc k + low) (2 ^ suc k - 1),
  double_shift k high,
  pow-suc 2 k,
  one-le-pow k 2,
  bit_and_split k high (low / 2) (omega (arith, pow-suc 2 k)),
)

pub bit_and_low : (k word : ℕ) → bit_and word (2 ^ k - 1) ≡ word % 2 ^ k
bit_and_low k word = ground (arith, one-le-pow k 2, bit_and_split k (word / 2 ^ k) (word % 2 ^ k))

-- `&` of two words whose second has no bit below `k`.
pub bit_and_shifted :
    (k high low mask : ℕ)
    → low < 2 ^ k
    → bit_and (high * 2 ^ k + low) (mask * 2 ^ k) ≡ bit_and high mask * 2 ^ k
bit_and_shifted zero high low mask h = ground arith
bit_and_shifted (suc k) high low mask h = ground (
  arith,
  bit_and_lowest (high * 2 ^ suc k + low) (mask * 2 ^ suc k),
  double_shift k high,
  double_shift k mask,
  double_shift k (bit_and high mask),
  bit_and_shifted k high (low / 2) mask (omega (arith, pow-suc 2 k)),
)

-- A mask without low bits clears them.
pub bit_and_high :
    (k mask word : ℕ) → bit_and word (mask * 2 ^ k) ≡ bit_and (word / 2 ^ k) mask * 2 ^ k
bit_and_high k mask word =
    ap (λ (w : ℕ). bit_and w (mask * 2 ^ k)) fields
    ∙ bit_and_shifted k (word / 2 ^ k) (word % 2 ^ k) mask (grind (arith, one-le-pow k 2))
  where
    fields : word ≡ word / 2 ^ k * 2 ^ k + word % 2 ^ k
    fields = omega (arith, one-le-pow k 2)
