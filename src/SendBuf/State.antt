-- ===== src/SendBuf/State.antt =====
-- qrecovery/src/send/sndbuf.rs: `Color` and `State`, a word with an offset and a colour.
use dquic.Base.{
  ℕ, zero, suc, ◌+◌, ◌-◌, ◌*◌, ◌/◌, ◌%◌, ◌^◌, ◌<◌, ◌≡◌, refl, arith, Bool, true, false, bit_and,
  bit_or,
}
use dquic.Base.Bits.{bit_or_low, bit_or_shifted, bit_and_low}

pub data Color : Type 0 where
  pending flighting recved lost : Color

abbrev pub eq_color : Color → Color → Bool
eq_color pending pending = true
eq_color flighting flighting = true
eq_color recved recved = true
eq_color lost lost = true
eq_color _ _ = false

unfoldable pub prefix : Color → ℕ
prefix pending = 0
prefix flighting = 1 * 2 ^ 62
prefix lost = 2 * 2 ^ 62
prefix recved = 3 * 2 ^ 62

-- `State`, the word itself.
abbrev pub State : Type 0
State = ℕ

abbrev pub suffix_mask : ℕ
suffix_mask = 2 ^ 62 - 1

unfoldable pub encode : ℕ → Color → State
unfolding prefix
encode pos c = bit_or (prefix c) pos

unfoldable pub offset : State → ℕ
offset s = bit_and s suffix_mask

-- The match on the two high bits: a word of 64 bits has no other case.
unfoldable pub of_tag : ℕ → Color
of_tag zero = pending
of_tag (suc zero) = flighting
of_tag (suc (suc zero)) = lost
of_tag (suc (suc (suc _))) = recved

unfoldable pub color : State → Color
unfolding of_tag
color s = of_tag (s / 2 ^ 62)

unfoldable pub set_color : State → Color → State
unfolding prefix
set_color s c = bit_or (bit_and s suffix_mask) (prefix c)

unfoldable pub decode : State → ℕ × Color
unfolding offset color
decode s = (offset s, color s)

abbrev tag : Color → ℕ
tag pending = 0
tag flighting = 1
tag lost = 2
tag recved = 3

prefix-tag : (c : Color) → prefix c ≡ tag c * 2 ^ 62
unfolding prefix
prefix-tag pending = refl
prefix-tag flighting = refl
prefix-tag lost = refl
prefix-tag recved = refl

of_tag-tag : (c : Color) → of_tag (tag c) ≡ c
unfolding of_tag
of_tag-tag pending = refl
of_tag-tag flighting = refl
of_tag-tag lost = refl
of_tag-tag recved = refl

encode-sum : (pos : ℕ) (c : Color) → pos < 2 ^ 62 → encode pos c ≡ tag c * 2 ^ 62 + pos
unfolding encode
encode-sum pos c h = rw (prefix-tag c) (bit_or_shifted 62 (tag c) pos h)

offset-rem : (s : State) → offset s ≡ s % 2 ^ 62
unfolding offset
offset-rem s = bit_and_low 62 s

set_color-sum : (s : State) (c : Color) → set_color s c ≡ tag c * 2 ^ 62 + s % 2 ^ 62
unfolding set_color
set_color-sum s c =
    rw (prefix-tag c, bit_and_low 62 s) (bit_or_low 62 (tag c) (s % 2 ^ 62) (omega arith))

pub offset-encode : (pos : ℕ) (c : Color) → pos < 2 ^ 62 → offset (encode pos c) ≡ pos
offset-encode pos c h = omega (arith, offset-rem (encode pos c), encode-sum pos c h)

pub color-encode : (pos : ℕ) (c : Color) → pos < 2 ^ 62 → color (encode pos c) ≡ c
unfolding color
color-encode pos c h =
    let high : encode pos c / 2 ^ 62 ≡ tag c = omega (arith, encode-sum pos c h) in
    rw high (of_tag-tag c)

pub offset-set_color : (s : State) (c : Color) → offset (set_color s c) ≡ offset s
offset-set_color s c = omega (arith, offset-rem (set_color s c), offset-rem s, set_color-sum s c)

pub color-set_color : (s : State) (c : Color) → color (set_color s c) ≡ c
unfolding color
color-set_color s c =
    let high : set_color s c / 2 ^ 62 ≡ tag c = omega (arith, set_color-sum s c) in
    rw high (of_tag-tag c)
