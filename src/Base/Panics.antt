-- ===== src/Base/Panics.antt =====
-- A Rust call returns or panics. `panic` stands for a failed assertion, `expect` or `unwrap`, an
-- index out of bounds and an arithmetic overflow, which the source checks in its debug profile.
use Prim.Native.Nat.{ℕ, ◌+◌, ◌-◌, ◌*◌, ◌^◌, ◌≤◌, ◌<◌}
use mathlib.Core.Path.{◌≡◌}
use mathlib.Core.Bool.{Bool, true, false}
use mathlib.Core.Option.{Option, none, some}
use native.Mathlib.Omega.{arith}
use dquic.Base.Tests.{ltb, leb, if◌then◌else◌}

pub data Outcome {ℓ} (A : Type ℓ) : Type ℓ where
  ret : A → Outcome A
  panic : Outcome A

infixl 5 ◌>>=◌ ◌>>◌
abbrev pub ◌>>=◌ {ℓ κ} : {A : Type ℓ} {B : Type κ} → Outcome A → (A → Outcome B) → Outcome B
ret a >>= f = f a
panic >>= f = panic

abbrev pub ◌>>◌ {ℓ} : {B : Type ℓ} → Outcome (Unit {0}) → Outcome B → Outcome B
m >> k = m >>= λ _. k

abbrev pub assert : Bool → Outcome (Unit {0})
assert true = ret tt
assert false = panic

-- `Option::expect` and `Option::unwrap`.
abbrev pub expect {ℓ} : {A : Type ℓ} → Option A → Outcome A
expect (some a) = ret a
expect none = panic

-- `a + b`, `a - b` and `a * b` on u64 (and on usize, which has 64 bits here).
unfoldable pub add_u64 : ℕ → ℕ → Outcome ℕ
add_u64 a b = if ltb (a + b) (2 ^ 64) then ret (a + b) else panic

unfoldable pub sub_u64 : ℕ → ℕ → Outcome ℕ
sub_u64 a b = if leb b a then ret (a - b) else panic

unfoldable pub mul_u64 : ℕ → ℕ → Outcome ℕ
mul_u64 a b = if ltb (a * b) (2 ^ 64) then ret (a * b) else panic

pub add_u64-ret : (a b : ℕ) → a + b < 2 ^ 64 → add_u64 a b ≡ ret (a + b)
unfolding add_u64
add_u64-ret a b h = ground arith

pub sub_u64-ret : (a b : ℕ) → b ≤ a → sub_u64 a b ≡ ret (a - b)
unfolding sub_u64
sub_u64-ret a b h = ground arith

pub mul_u64-ret : (a b : ℕ) → a * b < 2 ^ 64 → mul_u64 a b ≡ ret (a * b)
unfolding mul_u64
mul_u64-ret a b h = ground arith

-- The `Result` of the source, with its error last.
pub data Result {ℓ κ} (A : Type ℓ) (E : Type κ) : Type (ℓ ⊔ κ) where
  ok : A → Result A E
  err : E → Result A E
