-- ===== src/Sid/Remote/Runs.antt =====
-- Accepting a stream at concrete values.
use dquic.Base.{ℕ, ◌+◌, ◌≡◌, ◌≤◌, ◌<◌, ◌⊎◌, none, List, [], ◌++◌, ret, err, ok, refl}
use dquic.Role.{server, Dir, at, put_at}
use dquic.Sid.{role_of, dir_of, id_of}
use dquic.Sid.Ids.{sid_at}
use dquic.Sid.Local.Alloc.{first_ids}
use dquic.Sid.Control.{consistent}
use dquic.Sid.Remote.{
  RemoteStreamIds, NeedCreate, old, created, exceed_limit, drain, try_accept_sid,
}
use dquic.Sid.Remote.Accept.{Answers, try_accept_sid_cases}

consistent-Answers : Answers consistent
consistent-Answers st dir id = (st, none, refl, tt)

-- One stream of the server is open; it opens its third.
abbrev ids : RemoteStreamIds consistent
ids = record {
  role = server;
  max = record { of_bi = 10; of_uni = 10 };
  unallocated = record { of_bi = 5; of_uni = 3 };
  ctrl = record { of_bi = 10; of_uni = 10 };
}

try_accept_sid_cases_example :
    ((at ids.max (dir_of 9) < id_of 9)
      × (try_accept_sid consistent ids 9
          ≡ ret (ids, err (exceed_limit 9 (at ids.max (dir_of 9))), [])))
    ⊎ ((id_of 9 ≤ at ids.max (dir_of 9))
        × (id_of 9 < 1)
        × (try_accept_sid consistent ids 9 ≡ ret (ids, ok old, [])))
    ⊎ ((id_of 9 ≤ at ids.max (dir_of 9))
        × (1 ≤ id_of 9)
        × ((t : RemoteStreamIds consistent) × (need : NeedCreate) × (sent : List (Dir × ℕ))
            × (try_accept_sid consistent ids 9 ≡ ret (t, ok (created need), sent))
            × (first_ids ids.role (dir_of 9) 1 ++ drain (id_of 9 + 1) need
                ≡ first_ids ids.role (dir_of 9) (id_of 9 + 1))
            × (t.role ≡ ids.role)
            × (t.unallocated
                ≡ put_at ids.unallocated (dir_of 9) (sid_at ids.role (dir_of 9) (id_of 9 + 1)))))
unfolding role_of dir_of
try_accept_sid_cases_example = try_accept_sid_cases consistent consistent-Answers ids 9 1 refl refl
