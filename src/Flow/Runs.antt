-- ===== src/Flow/Runs.antt =====
-- Flow control at concrete values.
use dquic.Base.{◌+◌, ◌-◌, ◌≤◌, ◌<◌, ◌≡◌, ◌⊎◌, arith, List, [], ◌∷◌, ret, ok, err}
use dquic.Flow.{RecvController, Event, on_new_rcvd, flow_control}
use dquic.Flow.Conserve.{
  Senders, Action, take_credit, send, finish, recv_max_data, run, start, sum, run-start-Conserved,
}
use dquic.Flow.Window.{Granted, on_new_rcvd_cases}
use dquic.Flow.Peers.{
  Link, Move, take_one, send_some, finish_one, deliver, deliver_frame, continue, connected,
  continue-connected,
}

-- Two tasks share the credit; the limit is reached and then raised.
abbrev actions : List Action
actions =
    take_credit 60
    ∷ take_credit 60
    ∷ send 0 50
    ∷ finish 0
    ∷ recv_max_data 150
    ∷ send 1 100
    ∷ finish 1
    ∷ []

run-start-Conserved_example :
    (t : Senders) × (run (start 100) actions ≡ ret t)
    × (t.controler.sent_data ≡ t.wire + sum t.credits)
    × (t.wire + sum t.credits ≤ t.controler.max_data)
    × (t.wire ≤ t.controler.max_data)
run-start-Conserved_example =
    run-start-Conserved 100 actions (omega arith)
      (tt, (tt, (tt, (tt, (omega arith, (tt, (tt, tt)))))))

abbrev receiver : RecvController
receiver = record { rcvd_data = 40; max_data = 100; step = 50 }

on_new_rcvd_cases_example :
    ((receiver.rcvd_data + 30 ≤ receiver.max_data)
      × ((t : RecvController) × (events : List Event) × (on_new_rcvd receiver 30
            ≡ ret (t, ok 30, events))
          × Granted receiver t 30 events))
    ⊎ ((receiver.max_data < receiver.rcvd_data + 30)
        × (on_new_rcvd receiver 30
            ≡ ret (
              record receiver { rcvd_data = receiver.rcvd_data + 30 },
              err (flow_control (receiver.rcvd_data + 30 - receiver.max_data)),
              [],
            )))
on_new_rcvd_cases_example = on_new_rcvd_cases receiver 30 (omega arith) (omega arith)

abbrev moves : List Move
moves =
    take_one 100
    ∷ send_some 0 80
    ∷ deliver 70
    ∷ finish_one 0
    ∷ deliver_frame 0
    ∷ take_one 100
    ∷ send_some 1 60
    ∷ deliver 100
    ∷ []

continue-connected_example :
    (t : Link) × (continue moves (ok (connected 100)) ≡ ret (ok t))
    × (t.receiver.rcvd_data + t.in_flight ≡ t.senders.wire)
    × (t.senders.wire ≤ t.senders.controler.max_data)
    × (t.senders.controler.max_data ≤ t.receiver.max_data)
continue-connected_example = continue-connected 100 moves (omega arith)
