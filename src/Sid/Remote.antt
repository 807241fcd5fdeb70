-- ===== src/Sid/Remote.antt =====
-- qbase/src/sid/remote_sid.rs: the streams that the peer opens. The mutex makes each method one
-- step; the MAX_STREAMS frames that a call sends are listed.
pub mod Accept
mod Runs
use dquic.Base.{
  ℕ, zero, suc, ◌+◌, ◌^◌, Bool, not, ltb, leb, ◌==◌, if◌then◌else◌, Option, none, some, List, [],
  ◌∷◌, Outcome, ret, panic, ◌>>=◌, ◌>>◌, assert, Result, ok, err,
}
use dquic.Role.{Role, role_bit, Dir, bi, uni, PerDir, at, put_at}
use dquic.Sid.{new, role_of, dir_of, id_of, next_unchecked}
use dquic.Sid.Control.{Control}

pub data ExceedLimitError : Type 0 where
  exceed_limit : ℕ → ℕ → ExceedLimitError

pub record NeedCreate : Type 0 where
  pub start : ℕ
  pub end : ℕ

pub data AcceptSid : Type 0 where
  old : AcceptSid
  created : NeedCreate → AcceptSid

-- `Iterator::next`.
pub next : NeedCreate → Option (ℕ × NeedCreate)
unfolding next_unchecked
next n =
    if ltb n.end n.start then none else some (n.start, record n { start = next_unchecked n.start })

-- `for sid in need_create`, for as many rounds as the fuel allows.
pub drain : ℕ → NeedCreate → List ℕ
unfolding next
drain zero n = []
drain (suc fuel) n = elim (next n) [ none ↦ [] | some (sid, rest) ↦ sid ∷ drain fuel rest ]

-- MAX_STREAMS frames by direction and limit.
abbrev pub Sent : Type 0
Sent = List (Dir × ℕ)

-- `VarInt::from_u64(v).expect(…)`.
pub varint : ℕ → Outcome ℕ
varint v = if ltb v (2 ^ 62) then ret v else panic

module _ (c : Control) where
  open c use {State, on_accept_streams, on_end_of_stream, on_streams_blocked}

  pub record RemoteStreamIds : Type 0 where
    pub role : Role
    pub max : PerDir ℕ
    pub unallocated : PerDir ℕ
    pub ctrl : State

  pub new_ids : Role → ℕ → ℕ → State → Outcome RemoteStreamIds
  new_ids role max_bi max_uni ctrl = do
    first_bi ← new role bi 0
    first_uni ← new role uni 0
    ret (record {
      role = role;
      max = record { of_bi = max_bi; of_uni = max_uni };
      unallocated = record { of_bi = first_bi; of_uni = first_uni };
      ctrl = ctrl;
    })

  -- What each method does with the answer of the policy.
  pub advertise : RemoteStreamIds → Dir → State × Option ℕ → Outcome (RemoteStreamIds × Sent)
  unfolding varint
  advertise s dir (ctrl, none) = ret (record s { ctrl = ctrl }, [])
  advertise s dir (ctrl, some max_streams) = do
    limit ← varint max_streams
    ret (record s { ctrl = ctrl; max = put_at s.max dir max_streams }, (dir, limit) ∷ [])

  pub accept_new :
      RemoteStreamIds → ℕ → Outcome (RemoteStreamIds × Result AcceptSid ExceedLimitError × Sent)
  unfolding advertise next_unchecked
  accept_new s sid = do
    let dir = dir_of sid
    let need : NeedCreate = record { start = at s.unallocated dir; end = sid }
    answer ← on_accept_streams s.ctrl dir (id_of sid)
    r ←
        advertise (record s { unallocated = put_at s.unallocated dir (next_unchecked sid) }) dir
          answer
    ret (r.0, ok (created need), r.1)

  pub try_accept_sid :
      RemoteStreamIds → ℕ → Outcome (RemoteStreamIds × Result AcceptSid ExceedLimitError × Sent)
  unfolding accept_new
  try_accept_sid s sid = do
    assert (role_bit (role_of sid) == role_bit s.role)
    if ltb (at s.max (dir_of sid)) (id_of sid)
        then ret (s, err (exceed_limit sid (at s.max (dir_of sid))), [])
        else if ltb sid (at s.unallocated (dir_of sid))
        then ret (s, ok old, [])
        else accept_new s sid

  pub end_of_own : RemoteStreamIds → ℕ → Outcome (RemoteStreamIds × Sent)
  unfolding advertise
  end_of_own s sid = do
    answer ← on_end_of_stream s.ctrl (dir_of sid) (id_of sid)
    advertise s (dir_of sid) answer

  pub on_end_of_stream_sid : RemoteStreamIds → ℕ → Outcome (RemoteStreamIds × Sent)
  unfolding end_of_own
  on_end_of_stream_sid s sid =
      if not (role_bit (role_of sid) == role_bit s.role) then ret (s, []) else end_of_own s sid

  -- `StreamsBlockedFrame::Bi(max)` and `::Uni(max)`.
  pub recv_streams_blocked_frame : RemoteStreamIds → Dir → ℕ → Outcome (RemoteStreamIds × Sent)
  unfolding advertise
  recv_streams_blocked_frame s dir max_streams = do
    answer ← on_streams_blocked s.ctrl dir max_streams
    advertise s dir answer
