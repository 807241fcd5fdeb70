-- ===== src/Ack.antt =====
-- qbase/src/frame/ack.rs: the ACK frame. Its fields are variable-length integers.
use dquic.Base.{ℕ, ◌+◌, Option, none, some, List, [], ◌∷◌, length, Outcome, ret, ◌>>=◌, sub_u64}
use dquic.Varint.{encoding_size}

pub record EcnCounts : Type 0 where
  pub ect0 : ℕ
  pub ect1 : ℕ
  pub ce : ℕ

pub record AckFrame : Type 0 where
  pub largest : ℕ
  pub delay : ℕ
  pub first_range : ℕ
  pub ranges : List (ℕ × ℕ)
  pub ecn : Option EcnCounts

unfoldable pub ecn_size : Option EcnCounts → Outcome ℕ
ecn_size none = ret 0
ecn_size (some e) = do
  a ← encoding_size e.ect0
  b ← encoding_size e.ect1
  c ← encoding_size e.ce
  ret (a + b + c)

unfoldable pub ranges_size : List (ℕ × ℕ) → Outcome ℕ
ranges_size [] = ret 0
ranges_size ((gap, ack) ∷ more) = do
  g ← encoding_size gap
  a ← encoding_size ack
  rest ← ranges_size more
  ret (g + a + rest)

-- `encoding_size` of the frame.
unfoldable pub frame_size : AckFrame → Outcome ℕ
unfolding ecn_size ranges_size
frame_size f = do
  count ← encoding_size (length f.ranges)
  largest ← encoding_size f.largest
  delay ← encoding_size f.delay
  first ← encoding_size f.first_range
  ranges ← ranges_size f.ranges
  ecn ← ecn_size f.ecn
  ret (1 + largest + delay + count + first + ranges + ecn)

-- The closure of `scan`, applied until the ranges are consumed.
unfoldable pub scan : ℕ → List (ℕ × ℕ) → Outcome (List (ℕ × ℕ))
scan largest [] = ret []
scan largest ((gap, range) ∷ more) = do
  below ← sub_u64 largest gap
  right ← sub_u64 below 2
  left ← sub_u64 right range
  rest ← scan left more
  ret ((left, right) ∷ rest)

-- All inclusive ranges, the one with the largest number first.
unfoldable pub iter_ranges : AckFrame → Outcome (List (ℕ × ℕ))
unfolding scan
iter_ranges f = do
  left ← sub_u64 f.largest f.first_range
  rest ← scan left f.ranges
  ret ((left, f.largest) ∷ rest)
