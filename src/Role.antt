-- ===== src/Role.antt =====
-- qbase/src/role.rs, and the direction of a stream (qbase/src/sid.rs).
use dquic.Base.{ℕ}

pub data Role : Type 0 where
  client server : Role

-- `role as u64`.
abbrev pub role_bit : Role → ℕ
role_bit client = 0
role_bit server = 1

-- `!role`.
pub opposite : Role → Role
opposite client = server
opposite server = client

pub data Dir : Type 0 where
  bi uni : Dir

-- `dir as u64`.
abbrev pub dir_bit : Dir → ℕ
dir_bit bi = 0
dir_bit uni = 1

-- `[T; 2]` indexed by `dir as usize`, and the assignment to one entry.
pub record PerDir {ℓ} (A : Type ℓ) : Type ℓ where
  pub of_bi : A
  pub of_uni : A

abbrev pub at {ℓ} : {A : Type ℓ} → PerDir A → Dir → A
at p bi = p.of_bi
at p uni = p.of_uni

abbrev pub put_at {ℓ} : {A : Type ℓ} → PerDir A → Dir → A → PerDir A
put_at p bi a = record p { of_bi = a }
put_at p uni a = record p { of_uni = a }
