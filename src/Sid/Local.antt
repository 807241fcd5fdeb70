-- ===== src/Sid/Local.antt =====
-- qbase/src/sid/local_sid.rs: the streams that this endpoint opens. The mutex makes each method one
-- step; wakers are numbers, and what a call wakes and sends is a list of events.
pub mod Alloc
pub mod Wakers
mod Runs
use dquic.Base.{
  ℕ, ◌+◌, ◌^◌, Bool, ltb, leb, if◌then◌else◌, Option, none, some, List, [], ◌∷◌, ◌++◌, map, Outcome,
  ret, panic, ◌>>=◌, ◌>>◌, assert, add_u64,
}
use dquic.Role.{Role, Dir, bi, uni, PerDir, at, put_at}
use dquic.Sid.{max_streams_limit, new}

pub record LocalStreamIds : Type 0 where
  pub role : Role
  pub max : PerDir ℕ
  pub unallocated : PerDir ℕ
  pub wakers : PerDir (List ℕ)

pub data Event : Type 0 where
  wake : ℕ → Event
  wake_tx : Event
  send_streams_blocked : Dir → ℕ → Event

pub data Poll {ℓ} (A : Type ℓ) : Type ℓ where
  ready : A → Poll A
  pending : Poll A

pub new_ids : Role → ℕ → ℕ → LocalStreamIds
new_ids role init_max_bi_streams init_max_uni_streams = record {
  role = role;
  max = record { of_bi = init_max_bi_streams; of_uni = init_max_uni_streams };
  unallocated = record { of_bi = 0; of_uni = 0 };
  wakers = record { of_bi = []; of_uni = [] };
}

pub opened_streams : LocalStreamIds → Dir → ℕ
opened_streams s dir = at s.unallocated dir

pub raise_limit : LocalStreamIds → Dir → ℕ → LocalStreamIds × List Event
raise_limit s dir val = (
  record s { max = put_at s.max dir val; wakers = put_at s.wakers dir [] },
  (if ltb (at s.max dir) (at s.unallocated dir) then wake_tx ∷ [] else [])
      ++ map wake (at s.wakers dir),
)

pub increase_limit : LocalStreamIds → Dir → ℕ → Outcome (LocalStreamIds × List Event)
unfolding raise_limit
increase_limit s dir val = do
  assert (leb val max_streams_limit)
  if ltb (at s.max dir) val then ret (raise_limit s dir val) else ret (s, [])

-- `MaxStreamsFrame::Bi(max)` and `::Uni(max)`.
pub data MaxStreamsFrame : Type 0 where
  max_streams : Dir → ℕ → MaxStreamsFrame

pub recv_max_streams_frame :
    LocalStreamIds → MaxStreamsFrame → Outcome (LocalStreamIds × List Event)
unfolding increase_limit
recv_max_streams_frame s (max_streams dir val) = increase_limit s dir val

-- `VarInt::from_u64(v).expect(…)`.
pub varint : ℕ → Outcome ℕ
varint v = if ltb v (2 ^ 62) then ret v else panic

pub open_next : LocalStreamIds → Dir → Outcome (LocalStreamIds × Poll (Option ℕ) × List Event)
open_next s dir = do
  next ← add_u64 (at s.unallocated dir) 1
  sid ← new s.role dir (at s.unallocated dir)
  ret (record s { unallocated = put_at s.unallocated dir next }, ready (some sid), [])

pub block : LocalStreamIds → ℕ → Dir → Outcome (LocalStreamIds × Poll (Option ℕ) × List Event)
unfolding varint
block s waker dir = do
  limit ← varint (at s.max dir)
  ret (
    record s { wakers = put_at s.wakers dir (at s.wakers dir ++ waker ∷ []) },
    pending,
    send_streams_blocked dir limit ∷ [],
  )

pub poll_alloc_sid :
    LocalStreamIds → ℕ → Dir → Outcome (LocalStreamIds × Poll (Option ℕ) × List Event)
unfolding open_next block
poll_alloc_sid s waker dir =
    if ltb max_streams_limit (at s.unallocated dir)
    then ret (s, ready none, [])
    else if ltb (at s.unallocated dir) (at s.max dir)
    then open_next s dir
    else block s waker dir

-- `ArcLocalStreamIds::on_error` wakes everything that waits.
pub on_error : LocalStreamIds → LocalStreamIds × List Event
on_error s = (
  record s { wakers = record { of_bi = []; of_uni = [] } },
  map wake s.wakers.of_bi ++ map wake s.wakers.of_uni,
)
