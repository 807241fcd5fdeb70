-- ===== src/Sid.antt =====
-- qbase/src/sid.rs: stream identifiers. A `StreamId` is the u64 that it wraps.
pub mod Ids
pub mod Control
pub mod Local
pub mod Remote
mod Runs
use dquic.Base.{
  ℕ, ◌+◌, ◌-◌, ◌*◌, ◌/◌, ◌^◌, Bool, leb, ◌==◌, if◌then◌else◌, bit_and, bit_or, Outcome, ret, ◌>>=◌,
  ◌>>◌, assert,
}
use dquic.Role.{Role, client, server, role_bit, Dir, bi, uni, dir_bit}

abbrev pub max_streams_limit : ℕ
max_streams_limit = 2 ^ 60 - 1

-- The shifts lose no bit of a u64 on an identifier that passes the assertion.
pub new : Role → Dir → ℕ → Outcome ℕ
new role dir id = do
  assert (leb id max_streams_limit)
  ret (bit_or (bit_or (id * 2 ^ 1) (dir_bit dir) * 2 ^ 1) (role_bit role))

pub role_of : ℕ → Role
role_of sid = if bit_and sid 0x1 == 0 then client else server

pub dir_of : ℕ → Dir
dir_of sid = if bit_and sid 2 == 0 then bi else uni

unfoldable pub id_of : ℕ → ℕ
id_of sid = sid / 2 ^ 2

unfoldable pub next_unchecked : ℕ → ℕ
next_unchecked sid = sid + 4
