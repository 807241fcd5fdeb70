-- ===== src/Flow/Window.antt =====
-- The receiving controller on every branch.
use dquic.Base.{
  ℕ, ◌+◌, ◌-◌, ◌^◌, ◌≤◌, ◌<◌, ◌≡◌, ◌⊎◌, inl, inr, refl, arith, List, [], ◌∷◌, ret, add_u64-ret,
  dec_le, lt→ltb, le→leb, lt→leb, ok, err,
}
use dquic.Flow.{RecvController, on_new_rcvd, Event, send_max_data, flow_control}

-- The window after new data: at least a step is open, and a limit that grew was announced.
pub record Granted (r t : RecvController) (amount : ℕ) (events : List Event) : Type 0 where
  pub counted : t.rcvd_data ≡ r.rcvd_data + amount
  pub same_step : t.step ≡ r.step
  pub open_ : t.rcvd_data + t.step ≤ t.max_data
  pub announced :
      ((t.max_data ≡ r.max_data) × (events ≡ []))
      ⊎ ((t.max_data ≡ r.max_data + r.step) × (events ≡ send_max_data t.max_data ∷ []))

-- While the arithmetic fits, new data within the limit is accepted: it is counted, the window that
-- remains is at least one step, and the limit stays the same with no frame sent or grows by one step
-- with a MAX_DATA frame that carries it. Data beyond the limit is refused with the excess, it is
-- counted too, and the limit stays the same with no frame sent.
pub on_new_rcvd_cases :
    (r : RecvController) (amount : ℕ)
    → r.rcvd_data + amount < 2 ^ 64
    → r.max_data + r.step < 2 ^ 62
    → ((r.rcvd_data + amount ≤ r.max_data)
        × ((t : RecvController) × (events : List Event) × (on_new_rcvd r amount
              ≡ ret (t, ok amount, events))
            × Granted r t amount events))
      ⊎ ((r.max_data < r.rcvd_data + amount)
          × (on_new_rcvd r amount
              ≡ ret (
                record r { rcvd_data = r.rcvd_data + amount },
                err (flow_control (r.rcvd_data + amount - r.max_data)),
                [],
              )))
unfolding on_new_rcvd
on_new_rcvd_cases r amount fits small =
    rw (add_u64-ret r.rcvd_data amount fits) (elim (dec_le (r.rcvd_data + amount) r.max_data) [
      | yes h ↦ rw (le→leb _ _ h) (elim (dec_le r.max_data (r.rcvd_data + amount + r.step)) [
        | yes near ↦ inl (
          h,
          (
            record r { rcvd_data = r.rcvd_data + amount; max_data = r.max_data + r.step },
            send_max_data (r.max_data + r.step) ∷ [],
            rw
                (
                  add_u64-ret (r.rcvd_data + amount) r.step (omega arith),
                  le→leb _ _ near,
                  add_u64-ret r.max_data r.step (omega arith),
                  lt→ltb (r.max_data + r.step) (2 ^ 62) small,
                )
                refl,
            ground arith,
          ),
        )
        | no far ↦ inl (
          h,
          (
            record r { rcvd_data = r.rcvd_data + amount },
            [],
            rw
                (
                  add_u64-ret (r.rcvd_data + amount) r.step (omega arith),
                  lt→leb r.max_data (r.rcvd_data + amount + r.step) (omega arith),
                )
                refl,
            ground arith,
          ),
        )
      ])
      | no h ↦ inr (omega arith, rw (lt→leb (r.rcvd_data + amount) r.max_data (omega arith)) refl)
    ])
