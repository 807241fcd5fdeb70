-- ===== src/Sid/Control.antt =====
-- The policy behind the limits that are granted to the peer: the trait `ControlStreamsConcurrency`
-- of qbase/src/sid.rs as an interface, and its two implementations in qbase/src/sid/handy.rs.
use dquic.Base.{ℕ, Option, none, some, Outcome, ret, ◌>>=◌, add_u64}
use dquic.Role.{Dir, PerDir, at, put_at}

-- A call returns the new state of the policy and the limit to advertise, if any; it may panic.
pub record Control : Type 1 where
  pub State : Type 0
  pub on_accept_streams : State → Dir → ℕ → Outcome (State × Option ℕ)
  pub on_end_of_stream : State → Dir → ℕ → Outcome (State × Option ℕ)
  pub on_streams_blocked : State → Dir → ℕ → Outcome (State × Option ℕ)

-- `ConsistentConcurrency`.
unfoldable pub consistent_end : PerDir ℕ → Dir → ℕ → Outcome (PerDir ℕ × Option ℕ)
consistent_end max_streams dir sid = do
  new_limit ← add_u64 (at max_streams dir) 1
  ret (put_at max_streams dir new_limit, some new_limit)

abbrev pub consistent : Control
consistent = record {
  State = PerDir ℕ;
  on_accept_streams = λ s dir sid. ret (s, none);
  on_end_of_stream = consistent_end;
  on_streams_blocked = λ s dir max_streams. ret (s, none);
}

-- `DemandConcurrency`, which has no state.
unfoldable pub demand_blocked : ℕ → Outcome (Unit {0} × Option ℕ)
demand_blocked max_streams = do next ← add_u64 max_streams 1; ret (tt, some next)

abbrev pub demand : Control
demand = record {
  State = Unit {0};
  on_accept_streams = λ s dir sid. ret (s, none);
  on_end_of_stream = λ s dir sid. ret (s, none);
  on_streams_blocked = λ s dir max_streams. demand_blocked max_streams;
}
