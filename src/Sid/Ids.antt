-- ===== src/Sid/Ids.antt =====
-- A stream identifier is a role, a direction and a number, and nothing else.
use dquic.Base.{
  ℕ, ◌+◌, ◌*◌, ◌/◌, ◌%◌, ◌^◌, ◌≤◌, ◌<◌, ◌≡◌, refl, arith, ret, panic, bit_and, ◌⊎◌, inl, inr, ap,
  ◌∙◌, dec_le,
}
use dquic.Base.Bits.{bit_or_shifted, bit_and_low, bit_and_lowest}
use dquic.Role.{Role, client, server, role_bit, Dir, bi, uni, dir_bit}
use dquic.Sid.{max_streams_limit, new, role_of, dir_of, id_of, next_unchecked}

-- The fields as arithmetic.
abbrev pub sid_at : Role → Dir → ℕ → ℕ
sid_at role dir id = id * 4 + dir_bit dir * 2 + role_bit role

flags-lt : (role : Role) (dir : Dir) → (role_bit role < 2) × (dir_bit dir < 2)
flags-lt role dir = ground arith

pub new-sid_at :
    (role : Role) (dir : Dir) (id : ℕ)
    → id ≤ max_streams_limit
    → new role dir id ≡ ret (sid_at role dir id)
unfolding new
new-sid_at role dir id h = ground (
  arith,
  flags-lt role dir,
  bit_or_shifted 1 id (dir_bit dir),
  bit_or_shifted 1 (id * 2 + dir_bit dir) (role_bit role),
)

bit_and_two : (s : ℕ) → bit_and s 2 ≡ s / 2 % 2 * 2
bit_and_two s = omega (arith, bit_and_lowest s 2, bit_and_low 1 (s / 2))

pub sid_at_fields : (s : ℕ) → sid_at (role_of s) (dir_of s) (id_of s) ≡ s
unfolding role_of dir_of id_of
sid_at_fields s = ground (arith, bit_and_two s, bit_and_low 1 s)

pub fields-sid_at :
    (role : Role) (dir : Dir) (id : ℕ)
    → (role_of (sid_at role dir id) ≡ role)
      × (dir_of (sid_at role dir id) ≡ dir)
      × (id_of (sid_at role dir id) ≡ id)
unfolding role_of dir_of id_of
fields-sid_at client bi id =
    ground (arith, bit_and_two (sid_at client bi id), bit_and_low 1 (sid_at client bi id))
fields-sid_at client uni id =
    ground (arith, bit_and_two (sid_at client uni id), bit_and_low 1 (sid_at client uni id))
fields-sid_at server bi id =
    ground (arith, bit_and_two (sid_at server bi id), bit_and_low 1 (sid_at server bi id))
fields-sid_at server uni id =
    ground (arith, bit_and_two (sid_at server uni id), bit_and_low 1 (sid_at server uni id))

-- Within the limit `new` returns an identifier below 2^62 that has the role, the direction and the
-- number it was made of, and whose successor has the same role and direction and the next number;
-- beyond the limit it panics.
pub new_lem :
    (role : Role) (dir : Dir) (id : ℕ)
    → ((id ≤ max_streams_limit)
        × ((s : ℕ) × (new role dir id ≡ ret s)
            × (s < 2 ^ 62)
            × (role_of s ≡ role)
            × (dir_of s ≡ dir)
            × (id_of s ≡ id)
            × (role_of (next_unchecked s) ≡ role)
            × (dir_of (next_unchecked s) ≡ dir)
            × (id_of (next_unchecked s) ≡ id + 1)))
      ⊎ ((max_streams_limit < id) × (new role dir id ≡ panic))
unfolding next_unchecked
new_lem role dir id = elim (dec_le id max_streams_limit) [
  | yes h ↦
      let f = fields-sid_at role dir id in
      let g = fields-sid_at role dir (id + 1) in
      inl (
        h,
        (
          sid_at role dir id,
          new-sid_at role dir id h,
          omega (arith, flags-lt role dir),
          f.0,
          f.1,
          f.2,
          rw (successor, g.0) refl,
          rw (successor, g.1) refl,
          rw (successor, g.2) refl,
        ),
      )
  | no h ↦ inr (omega arith, too_large (omega arith))
]
  where
    successor : sid_at role dir id + 4 ≡ sid_at role dir (id + 1)
    successor = omega arith

    too_large : max_streams_limit < id → new role dir id ≡ panic
    too_large h = unfold new in ground arith

-- Every u64 below 2^62 is the identifier that `new` makes of its role, direction and number.
new-fields : (s : ℕ) → s < 2 ^ 62 → new (role_of s) (dir_of s) (id_of s) ≡ ret s
new-fields s h =
    new-sid_at (role_of s) (dir_of s) (id_of s) (unfold id_of in omega arith)
    ∙ ap ret (sid_at_fields s)
