-- ===== src/Sid/Local/Alloc.antt =====
-- Any sequence of calls opens the streams of each direction in order and within the peer's limit.
use dquic.Base.{
  ℕ, zero, suc, ◌+◌, ◌^◌, ◌≤◌, ◌<◌, ◌≡◌, ◌⊎◌, inl, inr, refl, arith, Option, none, some, dec_lt,
  lt→ltb, le→ltb, le→leb, add_u64-ret, List, [], ◌∷◌, ◌++◌, Outcome, ret, ◌>>=◌, All,
}
use dquic.Role.{Role, Dir, bi, uni, PerDir, at, put_at}
use dquic.Sid.{max_streams_limit}
use dquic.Sid.Ids.{sid_at, new-sid_at}
use dquic.Sid.Local.{
  LocalStreamIds, Poll, ready, pending, MaxStreamsFrame, max_streams, new_ids,
  recv_max_streams_frame, send_streams_blocked, poll_alloc_sid, on_error,
}

pub data Call : Type 0 where
  alloc : ℕ → Dir → Call
  frame : MaxStreamsFrame → Call
  error : Call

-- The identifiers that `poll_alloc_sid` has handed out, by the direction asked for, in order.
abbrev pub Log : Type 0
Log = PerDir (List ℕ)

abbrev opened : Log → Dir → Poll (Option ℕ) → Log
opened log dir (ready (some sid)) = put_at log dir (at log dir ++ sid ∷ [])
opened log dir (ready none) = log
opened log dir pending = log

unfoldable pub step : LocalStreamIds × Log → Call → Outcome (LocalStreamIds × Log)
step (s, log) (alloc waker dir) = do r ← poll_alloc_sid s waker dir; ret (r.0, opened log dir r.1)
step (s, log) (frame f) = do r ← recv_max_streams_frame s f; ret (r.0, log)
step (s, log) error = ret ((on_error s).0, log)

pub run : LocalStreamIds × Log → List Call → Outcome (LocalStreamIds × Log)
run p [] = ret p
run p (c ∷ cs) = do q ← step p c; run q cs

-- The first `n` streams of a role and direction.
abbrev pub first_ids : Role → Dir → ℕ → List ℕ
first_ids role dir zero = []
first_ids role dir (suc n) = first_ids role dir n ++ sid_at role dir n ∷ []

pub record InOrder (role : Role) (s : LocalStreamIds) (log : Log) : Type 0 where
  pub same_role : s.role ≡ role
  pub bi_opened : log.of_bi ≡ first_ids role bi s.unallocated.of_bi
  pub uni_opened : log.of_uni ≡ first_ids role uni s.unallocated.of_uni
  pub bi_within : s.unallocated.of_bi ≤ s.max.of_bi
  pub uni_within : s.unallocated.of_uni ≤ s.max.of_uni
  pub bi_encodes : s.max.of_bi < 2 ^ 62
  pub uni_encodes : s.max.of_uni < 2 ^ 62

-- A MAX_STREAMS frame that the parser lets through.
abbrev pub IsLegal : Call → Type 0
IsLegal (frame (max_streams dir val)) = val ≤ max_streams_limit
IsLegal (alloc waker dir) = Unit {0}
IsLegal error = Unit {0}

-- `poll_alloc_sid` on every branch. While the peer's limit is below 2^62 a call never panics: it
-- reports that identifiers have run out when the next number exceeds 2^60 - 1; it opens the next
-- stream when that is below the peer's limit; and otherwise it queues the caller's waker and sends
-- STREAMS_BLOCKED with the limit.
pub poll_alloc_sid_cases :
    (s : LocalStreamIds) (waker : ℕ) (dir : Dir)
    → at s.max dir < 2 ^ 62
    → ((max_streams_limit < at s.unallocated dir)
        × (poll_alloc_sid s waker dir ≡ ret (s, ready none, [])))
      ⊎ ((at s.unallocated dir ≤ max_streams_limit)
          × (at s.unallocated dir < at s.max dir)
          × (poll_alloc_sid s waker dir
              ≡ ret (
                record s { unallocated = put_at s.unallocated dir (at s.unallocated dir + 1) },
                ready (some (sid_at s.role dir (at s.unallocated dir))),
                [],
              )))
      ⊎ ((at s.unallocated dir ≤ max_streams_limit)
          × (at s.max dir ≤ at s.unallocated dir)
          × (poll_alloc_sid s waker dir
              ≡ ret (
                record s { wakers = put_at s.wakers dir (at s.wakers dir ++ waker ∷ []) },
                pending,
                send_streams_blocked dir (at s.max dir) ∷ [],
              )))
unfolding poll_alloc_sid
poll_alloc_sid_cases s waker dir h = elim (dec_lt max_streams_limit (at s.unallocated dir)) [
  | yes out ↦ inl (out, rw (lt→ltb _ _ out) refl)
  | no more ↦ elim (dec_lt (at s.unallocated dir) (at s.max dir)) [
    | yes open_ ↦ inr (
        inl (
          omega arith,
          open_,
          rw
              (
                le→ltb max_streams_limit (at s.unallocated dir) (omega arith),
                lt→ltb _ _ open_,
                add_u64-ret (at s.unallocated dir) 1 (omega arith),
                new-sid_at s.role dir (at s.unallocated dir) (omega arith),
              )
              refl,
        ))
    | no shut ↦ inr (
        inr (
          omega arith,
          omega arith,
          rw
              (
                le→ltb max_streams_limit (at s.unallocated dir) (omega arith),
                le→ltb (at s.unallocated dir) (at s.max dir) (omega arith),
                lt→ltb (at s.max dir) (2 ^ 62) h,
              )
              refl,
        ))
  ]
]

abbrev Keeps : Role → Outcome (LocalStreamIds × Log) → Type 0
Keeps role r = (s : LocalStreamIds) × (log : Log) × (r ≡ ret (s, log)) × InOrder role s log

alloc-InOrder :
    (role : Role) (s : LocalStreamIds) (log : Log) (waker : ℕ) (dir : Dir)
    → InOrder role s log
    → Keeps role (step (s, log) (alloc waker dir))
unfolding step
alloc-InOrder role s log waker bi v = elim (poll_alloc_sid_cases s waker bi v.bi_encodes) [
  | inl (out, e) ↦ rw e (s, log, refl, v)
  | inr (inl (small, within, e)) ↦ rw e (_, _, refl, ground arith)
  | inr (inr (small, blocked, e)) ↦ rw e (_, _, refl, ground arith)
]
alloc-InOrder role s log waker uni v = elim (poll_alloc_sid_cases s waker uni v.uni_encodes) [
  | inl (out, e) ↦ rw e (s, log, refl, v)
  | inr (inl (small, within, e)) ↦ rw e (_, _, refl, ground arith)
  | inr (inr (small, blocked, e)) ↦ rw e (_, _, refl, ground arith)
]

frame-InOrder :
    (role : Role) (s : LocalStreamIds) (log : Log) (f : MaxStreamsFrame)
    → IsLegal (frame f)
    → InOrder role s log
    → Keeps role (step (s, log) (frame f))
unfolding step recv_max_streams_frame
frame-InOrder role s log (max_streams bi val) h v = elim (dec_lt s.max.of_bi val) [
  | yes more ↦ rw (le→leb val _ h, lt→ltb _ _ more) (_, _, refl, ground arith)
  | no less ↦ rw (le→leb val _ h, le→ltb s.max.of_bi val (omega arith)) (s, log, refl, v)
]
frame-InOrder role s log (max_streams uni val) h v = elim (dec_lt s.max.of_uni val) [
  | yes more ↦ rw (le→leb val _ h, lt→ltb _ _ more) (_, _, refl, ground arith)
  | no less ↦ rw (le→leb val _ h, le→ltb s.max.of_uni val (omega arith)) (s, log, refl, v)
]

step-InOrder :
    (role : Role) (s : LocalStreamIds) (log : Log) (c : Call)
    → IsLegal c
    → InOrder role s log
    → Keeps role (step (s, log) c)
step-InOrder role s log (alloc waker dir) h v = alloc-InOrder role s log waker dir v
step-InOrder role s log (frame f) h v = frame-InOrder role s log f h v
step-InOrder role s log error h v =
    unfold step on_error in ((on_error s).0, log, refl, ground arith)

run-InOrder :
    (role : Role) (cs : List Call) (s : LocalStreamIds) (log : Log)
    → All IsLegal cs
    → InOrder role s log
    → Keeps role (run (s, log) cs)
unfolding run
run-InOrder role [] s log h v = (s, log, refl, v)
run-InOrder role (c ∷ cs) s log h v =
    let (s', log', e, v') = step-InOrder role s log c h.0 v in
    rw e (run-InOrder role cs s' log' h.1 v')

abbrev pub no_log : Log
no_log = record { of_bi = []; of_uni = [] }

-- From initial limits below 2^62, any sequence of allocations, MAX_STREAMS frames that the parser
-- lets through and errors runs without a panic. At its end the streams opened in each direction are
-- those numbered from 0 on, each once and in order, of this endpoint's role; there are as many as
-- `unallocated` counts, and no more than the limit then in force.
pub run-new_ids-InOrder :
    (role : Role) (max_bidi max_uni : ℕ) (cs : List Call)
    → max_bidi < 2 ^ 62
    → max_uni < 2 ^ 62
    → All IsLegal cs
    → (s : LocalStreamIds) × (log : Log) × (run (new_ids role max_bidi max_uni, no_log) cs
        ≡ ret (s, log))
      × InOrder role s log
run-new_ids-InOrder role max_bidi max_uni cs hb hu h =
    run-InOrder role cs (new_ids role max_bidi max_uni) no_log h (unfold new_ids in ground arith)
