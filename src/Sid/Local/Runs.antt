-- ===== src/Sid/Local/Runs.antt =====
-- Allocation at concrete values.
use dquic.Base.{◌+◌, ◌≡◌, ◌≤◌, ◌<◌, ◌⊎◌, none, some, List, [], ◌∷◌, ◌++◌, ret, arith}
use dquic.Role.{client, bi, uni, at, put_at}
use dquic.Sid.{max_streams_limit}
use dquic.Sid.Ids.{sid_at}
use dquic.Sid.Local.{
  LocalStreamIds, ready, pending, max_streams, send_streams_blocked, new_ids, poll_alloc_sid,
}
use dquic.Sid.Local.Wakers.{WaitsForLimit, step-WaitsForLimit}
use dquic.Sid.Local.Alloc.{
  Call, step, alloc, frame, error, Log, run, InOrder, no_log, poll_alloc_sid_cases,
  run-new_ids-InOrder,
}

abbrev ids : LocalStreamIds
ids = record {
  role = client;
  max = record { of_bi = 3; of_uni = 1 };
  unallocated = record { of_bi = 2; of_uni = 1 };
  wakers = record { of_bi = []; of_uni = 7 ∷ [] };
}

poll_alloc_sid_cases_example :
    ((max_streams_limit < at ids.unallocated bi)
      × (poll_alloc_sid ids 5 bi ≡ ret (ids, ready none, [])))
    ⊎ ((at ids.unallocated bi ≤ max_streams_limit)
        × (at ids.unallocated bi < at ids.max bi)
        × (poll_alloc_sid ids 5 bi
            ≡ ret (
              record ids { unallocated = put_at ids.unallocated bi (at ids.unallocated bi + 1) },
              ready (some (sid_at ids.role bi (at ids.unallocated bi))),
              [],
            )))
    ⊎ ((at ids.unallocated bi ≤ max_streams_limit)
        × (at ids.max bi ≤ at ids.unallocated bi)
        × (poll_alloc_sid ids 5 bi
            ≡ ret (
              record ids { wakers = put_at ids.wakers bi (at ids.wakers bi ++ 5 ∷ []) },
              pending,
              send_streams_blocked bi (at ids.max bi) ∷ [],
            )))
poll_alloc_sid_cases_example = poll_alloc_sid_cases ids 5 bi (omega arith)

abbrev calls : List Call
calls = alloc 1 bi ∷ alloc 2 bi ∷ frame (max_streams bi 4) ∷ alloc 2 bi ∷ error ∷ alloc 3 uni ∷ []

run-new_ids-InOrder_example :
    (s : LocalStreamIds) × (log : Log) × (run (new_ids client 1 0, no_log) calls ≡ ret (s, log))
    × InOrder client s log
run-new_ids-InOrder_example =
    run-new_ids-InOrder client 1 0 calls (omega arith) (omega arith)
      (tt, (tt, (omega arith, (tt, (tt, (tt, tt))))))

step-WaitsForLimit_example :
    (t : LocalStreamIds) × (log : Log) × (step (ids, no_log) (frame (max_streams uni 4))
      ≡ ret (t, log))
    × WaitsForLimit t
step-WaitsForLimit_example =
    step-WaitsForLimit ids no_log (frame (max_streams uni 4)) (omega arith) (ground arith)
