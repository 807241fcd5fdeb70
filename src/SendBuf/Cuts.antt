-- ===== src/SendBuf/Cuts.antt =====
-- The ends of a range in a deque of states: the states of one colour that are drained with it, and
-- the state that restores the colour after it.
use dquic.Base.{
  ℕ, ◌+◌, ◌^◌, ◌≤◌, ◌<◌, ◌≡◌, ◌≢◌, refl, ap, ◌∙◌, sym, arith, Bool, true, false, not, inl, inr,
  Bool-cases, List, ◌++◌, length, drop, All, length-append,
}
use dquic.SendBuf.State.{
  Color, pending, eq_color, State, encode, offset, color, offset-encode, color-encode,
}
use dquic.SendBuf.Map.{same_after, wrapping_pred, wrapping_suc}
use dquic.SendBuf.Paint.{Ascending, Has, paint, paint-at, eq_color-eq, Ascending-weaken}
use dquic.SendBuf.Splice.{drop-append, one_if}
use dquic.SendBuf.Neighbours.{FrontRun, walk-lem}

abbrev pub Sent : ℕ → State → Type 0
Sent end s = offset s < end → color s ≢ pending

-- The states that the loop of `ack_rcvd` or of `may_loss` passes, and those after them.
pub record RunAfter (states : List State) (drain_end : ℕ) (rest : List State) (c : Color)
    : Type 0 where
  pub run : List State
  pub post : List State
  pub whole : rest ≡ run ++ post
  pub alike : All (Has c) run
  pub found : wrapping_suc (same_after states (wrapping_pred drain_end) c) ≡ drain_end + length run

pub same_after-lem :
    (states ws rest : List State) (drain_end : ℕ) (c : Color)
    → states ≡ ws ++ rest
    → drain_end ≡ length ws
    → length states < 2 ^ 62
    → RunAfter states drain_end rest c
unfolding same_after
same_after-lem states ws rest d c e f small =
    let long : length states ≡ length ws + length rest = ap length e ∙ length-append ws rest in
    let back : wrapping_suc (wrapping_pred d) ≡ d = omega (arith, f, long) in
    let cut : drop (wrapping_suc (wrapping_pred d)) states ≡ rest =
      ap (λ (k : ℕ). drop k states) back
      ∙ ap (drop d) e
      ∙ drop-append ws rest d 0 (omega (arith, f)) in
    let r : FrontRun rest c (wrapping_pred d) d =
      walk-lem rest c (wrapping_pred d) d (omega arith) back (omega (arith, f, long)) in
    record { run = r.run; post = r.post; whole = r.whole; alike = r.alike; found = rw cut r.found }

-- The colour after the inserted state, or after none where the colour is right already.
module _ (end : ℕ) (small : end < 2 ^ 62) where
  pub paint-restored :
      (b : Bool) (c pre : Color) (zs : List State) (x : ℕ)
      → (b ≡ false → pre ≡ c)
      → end ≤ x
      → paint c (one_if b (encode end pre) ++ zs) x ≡ paint pre zs x
  paint-restored true c pre zs x h e =
      paint-at c (encode end pre) zs x (omega (arith, offset-encode end pre small))
      ∙ ap (λ d. paint d zs x) (color-encode end pre small)
  paint-restored false c pre zs x h e = ap (λ d. paint d zs x) (sym (h refl))

  pub Ascending-restored :
      (b : Bool) (pre : Color) (zs : List State) (hi : ℕ)
      → (b ≡ true → end < hi)
      → Ascending (end + 1) hi zs
      → Ascending end hi (one_if b (encode end pre) ++ zs)
  unfolding Ascending
  Ascending-restored true pre zs hi h a = rw (offset-encode end pre small) (omega arith, h refl, a)
  Ascending-restored false pre zs hi h a =
      Ascending-weaken zs (end + 1) end hi hi (omega arith) (omega arith) a

pub not-other : (c d : Color) → not (eq_color c d) ≡ false → c ≡ d
not-other c d h = elim (Bool-cases (eq_color c d)) [
  | inl e ↦ eq_color-eq c d e
  | inr e ↦ let k : true ≡ false = sym (ap not e) ∙ h in cc
]
