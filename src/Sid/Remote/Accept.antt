-- ===== src/Sid/Remote/Accept.antt =====
-- Accepting streams of the peer creates each stream once, in order, within the limit.
use dquic.Base.{
  ℕ, zero, suc, ◌+◌, ◌-◌, ◌^◌, ◌≤◌, ◌<◌, ◌≡◌, ◌⊎◌, inl, inr, refl, arith, ap, ◌∙◌, Option, none,
  some, List, [], ◌∷◌, ◌++◌, ret, err, ok, dec_lt, lt→ltb, le→ltb, sym, true, false, ltb, ◌==◌,
}
use native.Mathlib.Nat.{add-zero}
use native.Mathlib.Numerals.{add-one}
use mathlib.Core.List.{append_assoc, append-nil}
use dquic.Role.{Role, role_bit, Dir, at, put_at}
use dquic.Sid.{role_of, dir_of, id_of, next_unchecked}
use dquic.Sid.Ids.{sid_at, sid_at_fields}
use dquic.Sid.Local.Alloc.{first_ids}
use dquic.Sid.Control.{Control}
use dquic.Sid.Remote.{
  RemoteStreamIds, NeedCreate, old, created, exceed_limit, next, drain, try_accept_sid, accept_new,
  advertise, varint,
}

-- `k` streams of a role and direction from number `n` on.
abbrev ids_from : Role → Dir → ℕ → ℕ → List ℕ
ids_from role dir n zero = []
ids_from role dir n (suc k) = sid_at role dir n ∷ ids_from role dir (n + 1) k

first_ids-append :
    (role : Role) (dir : Dir) (n k : ℕ)
    → first_ids role dir n ++ ids_from role dir n k ≡ first_ids role dir (n + k)
first_ids-append role dir n zero = rw (append-nil, add-zero)
first_ids-append role dir n (suc k) =
    sym (append_assoc (first_ids role dir n) (sid_at role dir n ∷ []) (ids_from role dir (n + 1) k))
    ∙ rw (same, next_row) at (first_ids-append role dir (n + 1) k)
  where
    same : n + 1 + k ≡ n + suc k
    same = omega arith

    next_row : first_ids role dir (n + 1) ≡ first_ids role dir n ++ sid_at role dir n ∷ []
    next_row = rw add-one refl

-- With at least one round for each stream the iterator yields the streams from `n` to `m` and ends.
drain-ids_from :
    (role : Role) (dir : Dir) (n m k fuel : ℕ)
    → n + k ≡ m + 1
    → k ≤ fuel
    → drain fuel (record { start = sid_at role dir n; end = sid_at role dir m })
      ≡ ids_from role dir n k
unfolding drain next
drain-ids_from role dir n m zero zero e h = refl
drain-ids_from role dir n m zero (suc fuel) e h = ground arith
drain-ids_from role dir n m (suc k) zero e h = absurd (omega arith)
drain-ids_from role dir n m (suc k) (suc fuel) e h =
    ground (arith, drain-ids_from role dir (n + 1) m k fuel)

first_ids-drain :
    (role : Role) (dir : Dir) (n m : ℕ)
    → n ≤ m
    → first_ids role dir n
        ++ drain (m + 1) (record { start = sid_at role dir n; end = sid_at role dir m })
      ≡ first_ids role dir (m + 1)
first_ids-drain role dir n m h =
    rw (drain-ids_from role dir n m (m + 1 - n) (m + 1) (omega arith) (omega arith))
      (first_ids-append role dir n (m + 1 - n) ∙ ap (first_ids role dir) last)
  where
    last : n + (m + 1 - n) ≡ m + 1
    last = omega arith

-- The policy answers, and what it grants fits a variable-length integer.
abbrev pub Fits : Option ℕ → Type 0
Fits none = Unit {0}
Fits (some limit) = limit < 2 ^ 62

abbrev pub Answers : (c : Control) → Type 0
Answers c =
    (st : c.State) (dir : Dir) (id : ℕ)
    → (st' : c.State) × (o : Option ℕ) × (c.on_accept_streams st dir id ≡ ret (st', o)) × Fits o

module _ (c : Control) where
  advertise-ret :
      (s : RemoteStreamIds c) (dir : Dir) (st : c.State) (o : Option ℕ)
      → Fits o
      → (t : RemoteStreamIds c) × (sent : List (Dir × ℕ)) × (advertise c s dir (st, o)
          ≡ ret (t, sent))
        × (t.role ≡ s.role)
        × (t.unallocated ≡ s.unallocated)
  unfolding advertise varint
  advertise-ret s dir st none h = (_, _, refl, refl, refl)
  advertise-ret s dir st (some limit) h = rw (lt→ltb limit (2 ^ 62) h) (_, _, refl, refl, refl)

  accept_new_lem :
      Answers c
      → (s : RemoteStreamIds c) (sid n : ℕ) → role_of sid ≡ s.role
      → at s.unallocated (dir_of sid) ≡ sid_at s.role (dir_of sid) n
      → n ≤ id_of sid
      → (t : RemoteStreamIds c) × (need : NeedCreate) × (sent : List (Dir × ℕ)) × (accept_new c s
            sid
          ≡ ret (t, ok (created need), sent))
        × (first_ids s.role (dir_of sid) n ++ drain (id_of sid + 1) need
            ≡ first_ids s.role (dir_of sid) (id_of sid + 1))
        × (t.role ≡ s.role)
        × (t.unallocated
            ≡ put_at s.unallocated (dir_of sid) (sid_at s.role (dir_of sid) (id_of sid + 1)))
  unfolding accept_new next_unchecked
  accept_new_lem answers s sid n hr hu h =
      let (st, o, e, fits) = answers s.ctrl (dir_of sid) (id_of sid) in
      let counted = record s { unallocated = put_at s.unallocated (dir_of sid) (sid + 4) } in
      let (t, sent, e', er, eu) = advertise-ret counted (dir_of sid) st o fits in
      (
        t,
        record { start = at s.unallocated (dir_of sid); end = sid },
        sent,
        rw (e, e') refl,
        rw hu (rw bound at (first_ids-drain s.role (dir_of sid) n (id_of sid) h)),
        er,
        eu ∙ ap (put_at s.unallocated (dir_of sid)) (omega (arith, bound)),
      )
    where
      bound : sid_at s.role (dir_of sid) (id_of sid) ≡ sid
      bound = rw hr at (sid_at_fields sid)

  -- An identifier of the peer's role, when `n` streams of its direction are open: beyond the limit
  -- it is refused and nothing changes; if it is among the open ones nothing changes; otherwise the
  -- streams to create are exactly those from `n` up to it, in order, and they count as open then.
  pub try_accept_sid_cases :
      Answers c
      → (s : RemoteStreamIds c) (sid n : ℕ) → role_of sid ≡ s.role
      → at s.unallocated (dir_of sid) ≡ sid_at s.role (dir_of sid) n
      → ((at s.max (dir_of sid) < id_of sid)
          × (try_accept_sid c s sid ≡ ret (s, err (exceed_limit sid (at s.max (dir_of sid))), [])))
        ⊎ ((id_of sid ≤ at s.max (dir_of sid))
            × (id_of sid < n)
            × (try_accept_sid c s sid ≡ ret (s, ok old, [])))
        ⊎ ((id_of sid ≤ at s.max (dir_of sid))
            × (n ≤ id_of sid)
            × ((t : RemoteStreamIds c) × (need : NeedCreate) × (sent : List (Dir × ℕ))
                × (try_accept_sid c s sid ≡ ret (t, ok (created need), sent))
                × (first_ids s.role (dir_of sid) n ++ drain (id_of sid + 1) need
                    ≡ first_ids s.role (dir_of sid) (id_of sid + 1))
                × (t.role ≡ s.role)
                × (t.unallocated
                    ≡ put_at s.unallocated
                        (dir_of sid)
                        (sid_at s.role (dir_of sid) (id_of sid + 1)))))
  unfolding try_accept_sid
  try_accept_sid_cases answers s sid n hr hu =
      rw (hr, same_bit)
        (elim (dec_lt (at s.max (dir_of sid)) (id_of sid)) [
          | yes over ↦ inl (over, rw (lt→ltb _ _ over) refl)
          | no within ↦ elim (dec_lt (id_of sid) n) [
            | yes open_ ↦ inr (
                inl (
                  omega arith,
                  open_,
                  rw (le→ltb (at s.max (dir_of sid)) (id_of sid) (omega arith), is_open open_) refl,
                ))
            | no closed ↦ inr (
                inr (
                  omega arith,
                  omega arith,
                  rw
                      (
                        le→ltb (at s.max (dir_of sid)) (id_of sid) (omega arith),
                        is_closed (omega arith),
                      )
                      (accept_new_lem answers s sid n hr hu (omega arith)),
                ))
          ]
        ])
    where
      same_bit : (role_bit s.role == role_bit s.role) ≡ true
      same_bit = ground arith

      bound : sid_at s.role (dir_of sid) (id_of sid) ≡ sid
      bound = rw hr at (sid_at_fields sid)

      is_open : id_of sid < n → ltb sid (at s.unallocated (dir_of sid)) ≡ true
      is_open h = rw hu (lt→ltb _ _ (omega (arith, bound)))

      is_closed : n ≤ id_of sid → ltb sid (at s.unallocated (dir_of sid)) ≡ false
      is_closed h = rw hu (le→ltb sid (sid_at s.role (dir_of sid) n) (omega (arith, bound)))
