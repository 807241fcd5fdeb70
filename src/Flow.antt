-- ===== src/Flow.antt =====
-- qbase/src/flow.rs: connection-level flow control. The mutex of each controller makes each method
-- one step; the frames that a call sends and whether it wakes the send tasks are listed.
pub mod Conserve
pub mod Window
pub mod Peers
mod Runs
use dquic.Base.{
  ℕ, ◌+◌, ◌-◌, ◌/◌, ◌^◌, min, Bool, true, false, not, ◌&&◌, ltb, leb, ◌==◌, if◌then◌else◌, List, [],
  ◌∷◌, Outcome, ret, panic, ◌>>=◌, add_u64, sub_u64, Result, ok, err,
}

pub data Event : Type 0 where
  wake_all : Event
  send_data_blocked : ℕ → Event
  send_max_data : ℕ → Event

-- `VarInt::from_u64(v).expect(…)`.
unfoldable pub varint : ℕ → Outcome ℕ
varint v = if ltb v (2 ^ 62) then ret v else panic

pub record SendControler : Type 0 where
  pub sent_data : ℕ
  pub max_data : ℕ
  pub flow_limited : Bool

unfoldable pub new_sender : ℕ → SendControler
new_sender initial_max_data = record {
  sent_data = 0;
  max_data = initial_max_data;
  flow_limited = false;
}

unfoldable pub increase_limit : SendControler → ℕ → SendControler × List Event
increase_limit s max_data =
    if ltb s.max_data max_data
    then (record s { max_data = max_data; flow_limited = false }, wake_all ∷ [])
    else (s, [])

unfoldable pub avaliable : SendControler → Outcome ℕ
avaliable s = sub_u64 s.max_data s.sent_data

-- `commit` after its addition.
unfoldable pub report_blocked : SendControler → ℕ → Outcome (SendControler × List Event)
unfolding varint
report_blocked s left =
    if (left == 0) && not s.flow_limited
    then (varint s.max_data >>= λ limit.
        ret (record s { flow_limited = true }, send_data_blocked limit ∷ []))
    else ret (s, [])

unfoldable pub commit : SendControler → ℕ → Outcome (SendControler × List Event)
unfolding avaliable report_blocked
commit s flow = do
  sent ← add_u64 s.sent_data flow
  let counted = record s { sent_data = sent }
  left ← avaliable counted
  report_blocked counted left

unfoldable pub return_back : SendControler → ℕ → Outcome (SendControler × List Event)
unfolding avaliable
return_back s flow = do
  sent ← sub_u64 s.sent_data flow
  let returned = record s { sent_data = sent }
  left ← avaliable returned
  ret (returned, (if ltb 0 left then wake_all ∷ [] else []))

unfoldable pub revise_max_data : SendControler → Bool → ℕ → SendControler × List Event
unfolding increase_limit
revise_max_data s zero_rtt_rejected max_data =
    increase_limit
      (if zero_rtt_rejected then record s { max_data = 0; flow_limited = false } else s) max_data

-- `ArcSendControler::credit`. A `Credit` is the number in its field `available`.
unfoldable pub credit : SendControler → ℕ → Outcome (SendControler × ℕ × List Event)
unfolding avaliable commit
credit s quota = do
  left ← avaliable s
  r ← commit s (min left quota)
  ret (r.0, min left quota, r.1)

-- `Credit::post_sent`.
unfoldable pub post_sent : ℕ → ℕ → Outcome ℕ
post_sent available amount = sub_u64 available amount

-- `Credit::drop`.
unfoldable pub drop_credit : SendControler → ℕ → Outcome (SendControler × List Event)
unfolding return_back
drop_credit s available = if available == 0 then ret (s, []) else return_back s available

pub record RecvController : Type 0 where
  pub rcvd_data : ℕ
  pub max_data : ℕ
  pub step : ℕ

unfoldable pub new_receiver : ℕ → RecvController
new_receiver initial_max_data = record {
  rcvd_data = 0;
  max_data = initial_max_data;
  step = initial_max_data / 2;
}

-- The error `ErrorKind::FlowControl` with the excess that its message names.
pub data FlowControlError : Type 0 where
  flow_control : ℕ → FlowControlError

-- The part of `on_new_rcvd` for data within the limit.
unfoldable pub grant : RecvController → Outcome (RecvController × List Event)
unfolding varint
grant r = do
  reach ← add_u64 r.rcvd_data r.step
  if leb r.max_data reach
      then (add_u64 r.max_data r.step >>= λ more.
          (varint more >>= λ limit. ret (record r { max_data = more }, send_max_data limit ∷ [])))
      else ret (r, [])

unfoldable pub on_new_rcvd :
    RecvController → ℕ → Outcome (RecvController × Result ℕ FlowControlError × List Event)
unfolding grant
on_new_rcvd r amount = do
  rcvd ← add_u64 r.rcvd_data amount
  let counted = record r { rcvd_data = rcvd }
  if leb rcvd r.max_data
      then (grant counted >>= λ g. ret (g.0, ok amount, g.1))
      else ret (counted, err (flow_control (rcvd - r.max_data)), [])

pub record FlowController : Type 0 where
  pub sender : SendControler
  pub recver : RecvController

unfoldable pub new_controller : ℕ → ℕ → FlowController
unfolding new_sender new_receiver
new_controller peer_initial_max_data local_initial_max_data = record {
  sender = new_sender peer_initial_max_data;
  recver = new_receiver local_initial_max_data;
}

unfoldable pub reset_send_window : FlowController → ℕ → FlowController × List Event
unfolding increase_limit
reset_send_window c snd_wnd =
    let r = increase_limit c.sender snd_wnd in (record c { sender = r.0 }, r.1)

unfoldable pub send_limit : FlowController → ℕ → Outcome (FlowController × ℕ × List Event)
unfolding credit
send_limit c quota = do r ← credit c.sender quota; ret (record c { sender = r.0 }, r.1, r.2)
