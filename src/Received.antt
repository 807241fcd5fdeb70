-- ===== src/Received.antt =====
-- qrecovery/src/journal/rcvd.rs: the packet numbers received. A packet number is at most VARINT_MAX
-- (`decode_pn` sees to it), so `pn + 1` is a u64. `T` stands for tokio's `Instant`.
pub mod Ranges
pub mod Room
pub mod Insert
pub mod Once
pub mod Acks
mod Runs
use dquic.Base.{
  ℕ, zero, suc, ◌+◌, ◌-◌, ◌^◌, max, Bool, true, false, not, ◌&&◌, ◌||◌, ltb, leb, ◌==◌,
  if◌then◌else◌, Option, none, some, List, [], ◌∷◌, ◌++◌, length, get_elem?, take, drop, Outcome,
  ret, ◌>>=◌, add_u64, Result, ok, err,
}
use dquic.Varint.{varint_max}
use dquic.Packet.Number.{PacketNumber, decode}

abbrev pub max_tracked_ack_ranges : ℕ
max_tracked_ack_ranges = 256

-- `Range<u64>`, without its end.
pub record Range : Type 0 where
  pub start : ℕ
  pub end : ℕ

-- `slice::partition_point` on a slice that the predicate partitions.
unfoldable pub partition_point : (Range → Bool) → List Range → ℕ
partition_point p [] = 0
partition_point p (r ∷ rs) = if p r then suc (partition_point p rs) else 0

unfoldable pub holds : Option Range → ℕ → Bool
holds none pn = false
holds (some r) pn = leb r.start pn && ltb pn r.end

unfoldable pub contains : List Range → ℕ → Bool
unfolding partition_point holds
contains ranges pn = holds (get_elem? ranges (partition_point (λ r. leb r.end pn) ranges)) pn

-- The ranges from `index` on, of which the first has just been extended at its end.
unfoldable pub join_next : Range → List Range → List Range
join_next r [] = r ∷ []
join_next r (next ∷ rest) =
    if leb next.start r.end then record r { end = max r.end next.end } ∷ rest else r ∷ next ∷ rest

-- The ranges from `index` on with the number added.
unfoldable pub add_here : List Range → ℕ → List Range
unfolding join_next
add_here [] pn = record { start = pn; end = pn + 1 } ∷ []
add_here (r ∷ rest) pn =
    if r.end == pn
    then join_next (record r { end = pn + 1 }) rest
    else if r.start == pn + 1
    then record r { start = pn } ∷ rest
    else record { start = pn; end = pn + 1 } ∷ r ∷ rest

unfoldable pub add_to_ranges : List Range → ℕ → List Range
unfolding partition_point add_here
add_to_ranges ranges pn =
    let index = partition_point (λ r. ltb r.end pn) ranges in
    take index ranges ++ add_here (drop index ranges) pn

pub record ReceivedPacketRanges {ℓ} (T : Type ℓ) : Type ℓ where
  pub ranges : List Range
  pub retired_before : ℕ
  pub largest_received : Option (ℕ × T)

module _ {ℓ} {T : Type ℓ} where
  unfoldable pub newer : Option (ℕ × T) → ℕ → T → Option (ℕ × T)
  newer none pn at = some (pn, at)
  newer (some (largest, then_)) pn at =
      if ltb largest pn then some (pn, at) else some (largest, then_)

  -- The first range goes if there are too many.
  unfoldable pub evict : ReceivedPacketRanges T → List Range → ReceivedPacketRanges T
  evict s [] = record s { ranges = [] }
  evict s (evicted ∷ rest) =
      if ltb max_tracked_ack_ranges (length (evicted ∷ rest))
      then record s { ranges = rest; retired_before = max s.retired_before evicted.end }
      else record s { ranges = evicted ∷ rest }

  unfoldable pub insert : ReceivedPacketRanges T → ℕ → T → ReceivedPacketRanges T × Bool
  unfolding contains add_to_ranges newer evict
  insert s pn received_at =
      if ltb pn s.retired_before || contains s.ranges pn then (s, false) else (
        evict (record s { largest_received = newer s.largest_received pn received_at })
            (add_to_ranges s.ranges pn),
        true,
      )

pub record RcvdJournal {ℓ} (T : Type ℓ) : Type ℓ where
  pub packets : ReceivedPacketRanges T
  pub largest_authenticated : Option ℕ

pub data InvalidPacketNumber : Type 0 where
  too_old : InvalidPacketNumber
  too_large : InvalidPacketNumber
  duplicate : InvalidPacketNumber

unfoldable pub expected_pn : Option ℕ → Outcome ℕ
expected_pn none = ret 0
expected_pn (some largest) = add_u64 largest 1

unfoldable pub any_covers : List Range → ℕ → ℕ → Bool
any_covers [] start end = false
any_covers (r ∷ rs) start end = (leb r.start start && ltb end r.end) || any_covers rs start end

module _ {ℓ} {T : Type ℓ} where
  unfoldable pub check_pn : RcvdJournal T → ℕ → Result ℕ InvalidPacketNumber
  check_pn j pn =
      if ltb varint_max pn
      then err too_large
      else if ltb pn j.packets.retired_before
      then err too_old
      else if contains j.packets.ranges pn
      then err duplicate
      else ok pn

  unfoldable pub decode_pn : RcvdJournal T → PacketNumber → Outcome (Result ℕ InvalidPacketNumber)
  unfolding expected_pn check_pn
  decode_pn j pkt_number = do
    expected ← expected_pn j.largest_authenticated
    pn ← decode pkt_number expected
    ret (check_pn j pn)

  unfoldable pub on_authenticated : RcvdJournal T → ℕ → RcvdJournal T
  on_authenticated j pn = record j {
    largest_authenticated = elim j.largest_authenticated [
      | none ↦ some pn
      | some largest ↦ some (max largest pn)
    ];
  }

  -- `now` is what the clock shows.
  unfoldable pub on_rcvd_pn : RcvdJournal T → ℕ → T → RcvdJournal T
  unfolding on_authenticated insert
  on_rcvd_pn j pn now = record (on_authenticated j pn) { packets = (insert j.packets pn now).0 }

  -- The range is inclusive.
  unfoldable pub covers_range : RcvdJournal T → ℕ → ℕ → Bool
  unfolding any_covers
  covers_range j start end =
      let from = max start j.packets.retired_before in
      ltb end from || any_covers j.packets.ranges from end
