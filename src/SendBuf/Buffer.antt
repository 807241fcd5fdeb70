-- ===== src/SendBuf/Buffer.antt =====
-- qrecovery/src/send/sndbuf.rs: `SendBuf`, the data that is not all acknowledged, and its map. `Bytes` and
-- its `slice` are those of the crate `bytes`.
pub mod Concat
pub mod Holds
pub mod PickUp
pub mod Sent
pub mod Steps
pub mod Keeps
pub mod Reachable
use dquic.Base.{
  ℕ, zero, suc, ◌+◌, ◌-◌, min, max, Bool, true, false, ◌&&◌, ltb, leb, if◌then◌else◌, Option, none,
  some, List, [], ◌∷◌, ◌++◌, length, take, drop, Outcome, ret, ◌>>=◌, ◌>>◌, assert, add_u64, Result,
  ok, err,
}
use dquic.Base.Nom.{BytesOps}
use dquic.SendBuf.Map.{BufMap, empty_map, extend_to}
use dquic.SendBuf.Map
use dquic.SendBuf.Ack.{ack_rcvd, shift}
use dquic.SendBuf.Loss.{may_loss, mark_flighting_lost}
use dquic.SendBuf.Pick.{pick, Picked, Availability}

abbrev pub Bytes : ⦃ops : BytesOps⦄ → Type 0
Bytes ⦃ops⦄ = ops.Bytes

abbrev pub bytes_of : ⦃ops : BytesOps⦄ → Bytes → List ℕ
bytes_of ⦃ops⦄ = ops.contents

-- `Bytes::len` and `Bytes::slice`.
abbrev pub len : ⦃ops : BytesOps⦄ → Bytes → ℕ
len d = length (bytes_of d)

abbrev pub slice : ⦃ops : BytesOps⦄ → Bytes → ℕ → ℕ → Bytes
slice ⦃ops⦄ = ops.slice

pub record SendBuf ⦃ops : BytesOps⦄ : Type 0 where
  pub offset : ℕ
  pub chunks : List Bytes
  pub max_data : ℕ
  pub state : BufMap

module _ ⦃ops : BytesOps⦄ where
  unfoldable pub with_capacity : ℕ → SendBuf
  unfolding empty_map
  with_capacity capacity = record {
    offset = 0;
    chunks = [];
    max_data = capacity;
    state = empty_map;
  }

  -- The bytes in the buffer are in memory, so that their number does not overflow.
  abbrev pub total : List Bytes → ℕ
  total [] = 0
  total (d ∷ chunks) = len d + total chunks

  unfoldable pub written : SendBuf → Outcome ℕ
  written b = add_u64 b.offset (total b.chunks)

  unfoldable pub write : SendBuf → Bytes → Outcome SendBuf
  unfolding written extend_to
  write b d =
      if ltb 0 (len d)
      then (do
        before ← written b
        all ← add_u64 before (len d)
        state ← extend_to b.state (min all b.max_data)
        ret (record b { state = state; chunks = b.chunks ++ d ∷ [] }))
      else ret b

  unfoldable pub extend : SendBuf → ℕ → Outcome SendBuf
  unfolding written extend_to
  extend b max_data = do
    assert (leb b.max_data max_data)
    all ← written b
    state ← extend_to b.state (min all max_data)
    ret (record b { max_data = max_data; state = state })

  abbrev pub no_data : List Bytes → Bool
  no_data [] = true
  no_data (d ∷ chunks) = false

  unfoldable pub is_empty : SendBuf → Bool
  is_empty b = no_data b.chunks

  unfoldable pub is_all_rcvd : SendBuf → Bool
  is_all_rcvd b = no_data b.chunks

  unfoldable pub sent : SendBuf → ℕ
  unfolding Map.sent
  sent b = Map.sent b.state

  unfoldable pub remaining_mut : SendBuf → Outcome ℕ
  unfolding written
  remaining_mut b = written b >>= λ n. ret (b.max_data - n)

  unfoldable pub has_remaining_mut : SendBuf → Outcome Bool
  unfolding written
  has_remaining_mut b = written b >>= λ n. ret (ltb n b.max_data)

  -- The part of `d`, which lies from `from` up to `to`, that is from `start` up to `end`.
  abbrev pub piece : Bytes → ℕ → ℕ → ℕ → ℕ → Bytes
  piece d from to start end =
      if leb start from && leb to end then d else slice d (start - from) (min end to - from)

  -- The pieces of the data from position `from` on.
  unfoldable pub pieces : ℕ → List Bytes → ℕ → ℕ → List Bytes
  pieces from [] start end = []
  pieces from (d ∷ chunks) start end =
      let to = from + len d in
      let later = pieces to chunks start end in
      if ltb start to && ltb from end then piece d from to start end ∷ later else later

  unfoldable pub pick_up :
      SendBuf → (ℕ → Option ℕ) → ℕ → Outcome (SendBuf × Result (Picked × List Bytes) Availability)
  unfolding pieces pick
  pick_up b predicate flow_limit = do
    r ← pick b.state predicate flow_limit b.max_data
    ret (
      record b { state = r.0 },
      elim r.1 [ err a ↦ err a | ok p ↦ ok (p, pieces b.offset b.chunks p.start p.end) ],
    )

  -- The loop that drops `drain_len` bytes from the front.
  unfoldable pub drain_data : List Bytes → ℕ → List Bytes
  drain_data [] drain_len = []
  drain_data (d ∷ chunks) drain_len =
      let later = drain_data chunks (drain_len - len d) in
      if ltb 0 drain_len
      then (if leb (len d) drain_len then later else slice d drain_len (len d) ∷ chunks)
      else d ∷ chunks

  unfoldable pub on_data_acked : SendBuf → ℕ → ℕ → Outcome SendBuf
  unfolding ack_rcvd shift drain_data
  on_data_acked b start end = do
    acked ← ack_rcvd b.state start end
    let min_unrecved_pos = (shift acked).1
    ret (record b {
      state = (shift acked).0;
      offset = if ltb b.offset min_unrecved_pos then min_unrecved_pos else b.offset;
      chunks =
          if ltb b.offset min_unrecved_pos
          then drain_data b.chunks (min_unrecved_pos - b.offset)
          else b.chunks;
    })

  unfoldable pub may_loss_data : SendBuf → ℕ → ℕ → Outcome SendBuf
  unfolding may_loss
  may_loss_data b start end =
      may_loss b.state start end >>= λ state. ret (record b { state = state })

  unfoldable pub multipath_handshake : SendBuf → SendBuf
  unfolding mark_flighting_lost
  multipath_handshake b = record b { state = mark_flighting_lost b.state }
