-- ===== src/SendBuf/Pick/Choice.antt =====
-- Which state `pick` chooses.
use dquic.Base.{
  ℕ, suc, ◌+◌, ◌≤◌, ◌≡◌, refl, ap, ◌∙◌, arith, true, false, inl, inr, Bool-cases, none, some, List,
  [], ◌∷◌, ◌++◌, length, dec_le, lt→leb,
}
use dquic.SendBuf.State.{Color, State, offset, color}
use dquic.SendBuf.Paint.{Ascending, paint, paint-at, paint-before, paint-nil}
use dquic.SendBuf.Pick.{choose, wanted, Availability, poll_pending, blocks}

-- No state is wanted, or `s` is the first that is.
pub data Choice (flow window index size : ℕ) (states : List State) : Type 0 where
  no_state :
      (a : Availability)
      → choose flow window index states ≡ (a, none)
      → ((c : Color) (x : ℕ) → wanted flow c ≡ false → wanted flow (paint c states x) ≡ false)
      → Choice flow window index size states
  first_state :
      (a : Availability) (xs : List State) (s : State) (ys : List State)
      → choose flow window index states ≡ (a, some (index + length xs))
      → states ≡ xs ++ s ∷ ys
      → ((c : Color) (x : ℕ) → wanted flow c ≡ false → wanted flow (paint c xs x) ≡ false)
      → wanted flow (color s) ≡ true
      → Choice flow window index size states

unwanted-step :
    (flow : ℕ) (s : State) (xs : List State)
    → wanted flow (color s) ≡ false
    → ((c : Color) (x : ℕ) → wanted flow c ≡ false → wanted flow (paint c xs x) ≡ false)
    → (c : Color) (x : ℕ) → wanted flow c ≡ false
    → wanted flow (paint c (s ∷ xs) x) ≡ false
unwanted-step flow s xs h f c x g = elim (dec_le (offset s) x) [
  | yes at ↦ ap (wanted flow) (paint-at c s xs x at) ∙ f (color s) x h
  | no before ↦ ap (wanted flow) (paint-before c s xs x (omega arith)) ∙ f c x g
]

pub choose-Choice :
    (flow window index lo size : ℕ) (states : List State)
    → Ascending lo size states
    → size ≤ window
    → Choice flow window index size states
unfolding choose Ascending
choose-Choice flow window index lo size [] a h =
    no_state _ refl (λ c x g. ap (wanted flow) (paint-nil c x) ∙ g)
choose-Choice flow window index lo size (s ∷ states) a h =
    let open_ = lt→leb window (offset s) (omega (arith, a.1)) in
    elim (Bool-cases (wanted flow (color s))) [
      | inl w ↦
          first_state poll_pending [] s states
            (rw (choose, open_, w)
              (let e : index ≡ index + 0 = omega arith in ap (λ (k : ℕ). (poll_pending, some k)) e))
            refl (λ c x g. ap (wanted flow) (paint-nil c x) ∙ g) w
      | inr w ↦ elim (choose-Choice flow window (index + 1) (offset s + 1) size states a.2 h) [
        | no_state b e f ↦
            no_state (blocks (color s) b) (rw (choose, open_, w, e) refl)
              (unwanted-step flow s states w f)
        | first_state b xs s' ys e f g w' ↦
            first_state (blocks (color s) b) (s ∷ xs) s' ys
              (rw (choose, open_, w, e)
                (let e' : index + 1 + length xs ≡ index + suc (length xs) = omega arith in
                  ap (λ (k : ℕ). (blocks (color s) b, some k)) e'))
              (ap (◌∷◌ s) f) (unwanted-step flow s xs w g) w'
      ]
    ]
