-- ===== src/Sid/Local/Wakers.antt =====
-- Which wakers stay queued.
use dquic.Base.{
  ℕ, ◌^◌, ◌≤◌, ◌<◌, ◌≡◌, ◌⊎◌, inl, inr, refl, arith, [], ret, dec_lt, lt→ltb, le→ltb, le→leb,
}
use dquic.Role.{Dir, bi, uni, at}
use dquic.Sid.Local.{LocalStreamIds, max_streams, recv_max_streams_frame, on_error}
use dquic.Sid.Local.Alloc.{Log, Call, alloc, frame, error, step, IsLegal, poll_alloc_sid_cases}

-- Wakers are queued in a direction only while every stream within the limit is open.
abbrev pub IsBlocked : LocalStreamIds → Dir → Type 0
IsBlocked s dir = (at s.wakers dir ≡ []) ⊎ (at s.max dir ≤ at s.unallocated dir)

pub record WaitsForLimit (s : LocalStreamIds) : Type 0 where
  pub bi_blocked : IsBlocked s bi
  pub uni_blocked : IsBlocked s uni
  pub bi_encodes : s.max.of_bi < 2 ^ 62
  pub uni_encodes : s.max.of_uni < 2 ^ 62

alloc-WaitsForLimit :
    (s t : LocalStreamIds) (log log' : Log) (waker : ℕ) (dir : Dir)
    → step (s, log) (alloc waker dir) ≡ ret (t, log')
    → WaitsForLimit s
    → WaitsForLimit t
unfolding step
alloc-WaitsForLimit s t log log' waker bi e v =
    elim (poll_alloc_sid_cases s waker bi v.bi_encodes) [
      | inl (out, r) ↦ ground arith
      | inr (inl (small, within, r)) ↦ ground arith
      | inr (inr (small, blocked, r)) ↦ ground arith
    ]
alloc-WaitsForLimit s t log log' waker uni e v =
    elim (poll_alloc_sid_cases s waker uni v.uni_encodes) [
      | inl (out, r) ↦ ground arith
      | inr (inl (small, within, r)) ↦ ground arith
      | inr (inr (small, blocked, r)) ↦ ground arith
    ]

step_keeps :
    (s t : LocalStreamIds) (log log' : Log) (c : Call)
    → IsLegal c
    → step (s, log) c ≡ ret (t, log')
    → WaitsForLimit s
    → WaitsForLimit t
step_keeps s t log log' (alloc waker dir) h e v = alloc-WaitsForLimit s t log log' waker dir e v
step_keeps s t log log' (frame (max_streams bi val)) h e v =
    unfold step recv_max_streams_frame in ground arith
step_keeps s t log log' (frame (max_streams uni val)) h e v =
    unfold step recv_max_streams_frame in ground arith
step_keeps s t log log' error h e v = unfold step on_error in ground arith

step-ret :
    (s : LocalStreamIds) (log : Log) (c : Call)
    → IsLegal c
    → ((dir : Dir) → at s.max dir < 2 ^ 62)
    → (t : LocalStreamIds) × (log' : Log) × (step (s, log) c ≡ ret (t, log'))
unfolding step
step-ret s log (alloc waker dir) h limits = elim (poll_alloc_sid_cases s waker dir (limits dir)) [
  | inl (out, r) ↦ rw r (_, _, refl)
  | inr (inl (small, within, r)) ↦ rw r (_, _, refl)
  | inr (inr (small, blocked, r)) ↦ rw r (_, _, refl)
]
step-ret s log (frame (max_streams dir val)) h limits = elim (dec_lt (at s.max dir) val) [
  | yes more ↦ unfold recv_max_streams_frame in rw (le→leb val _ h, lt→ltb _ _ more) (_, _, refl)
  | no less ↦
      unfold recv_max_streams_frame in
      rw (le→leb val _ h, le→ltb (at s.max dir) val (omega arith)) (_, _, refl)
]
step-ret s log error h limits = (_, _, refl)

encodes : (s : LocalStreamIds) (dir : Dir) → WaitsForLimit s → at s.max dir < 2 ^ 62
encodes s bi v = v.bi_encodes
encodes s uni v = v.uni_encodes

-- If in each direction wakers are queued only while every stream within the limit is open, and the
-- limits are below 2^62, then any call (an allocation, a MAX_STREAMS frame that the parser lets
-- through, an error) returns, and the same holds after it; so no call leaves a waker queued while a
-- stream within the limit can be opened.
pub step-WaitsForLimit :
    (s : LocalStreamIds) (log : Log) (c : Call)
    → IsLegal c
    → WaitsForLimit s
    → (t : LocalStreamIds) × (log' : Log) × (step (s, log) c ≡ ret (t, log')) × WaitsForLimit t
step-WaitsForLimit s log c h v =
    let (t, log', e) = step-ret s log c h (λ dir. encodes s dir v) in
    (t, log', e, step_keeps s t log log' c h e v)
