-- ===== src/SendBuf/Valid.antt =====
-- The invariant of `BufMap`, and what an operation on a range does to the colours.
use dquic.Base.{ℕ, ◌^◌, ◌<◌, ◌≡◌, Bool, ◌&&◌, ltb, leb, Outcome, ret}
use dquic.SendBuf.State.{Color}
use dquic.SendBuf.Map.{BufMap}
use dquic.SendBuf.Paint.{Ascending, color_at}

pub record IsValid (m : BufMap) : Type 0 where
  pub ascending : Ascending 0 m.size m.states
  pub small : m.size < 2 ^ 62

abbrev pub in_range : ℕ → ℕ → ℕ → Bool
in_range start end x = leb start x && ltb x end

-- The call returns a valid map of that size with the colours `colors`.
pub record Returns (r : Outcome BufMap) (size : ℕ) (colors : ℕ → Color) : Type 0 where
  pub after : BufMap
  pub returned : r ≡ ret after
  pub valid : IsValid after
  pub sized : after.size ≡ size
  pub painted : (x : ℕ) → x < size → color_at after x ≡ colors x
