-- ===== src/SendBuf/Merge.antt =====
-- A state that takes the colour of those before it.
use dquic.Base.{
  ℕ, suc, ◌≡◌, refl, ap, ◌∙◌, sym, subst, arith, List, [], ◌∷◌, ◌++◌, length, All, All-append,
  dec_le, length-append,
}
use dquic.SendBuf.State.{Color, recved, State, offset, color}
use dquic.SendBuf.Map.{same_before}
use dquic.SendBuf.Paint.{
  Ascending, Has, paint, paint-append, paint-at, paint-same, paint-below, Ascending-left,
  Ascending-right,
}
use dquic.SendBuf.Splice.{append_assoc}
use dquic.SendBuf.Neighbours.{same_before-lem}

-- Of a run of one colour, the first state is enough.
pub paint-first :
    (c d : Color) (q : State) (qs : List State) (lo hi x : ℕ)
    → Ascending lo hi (q ∷ qs)
    → All (Has c) (q ∷ qs)
    → paint d (q ∷ []) x ≡ paint d (q ∷ qs) x
unfolding Ascending paint
paint-first c d q qs lo hi x a h = elim (dec_le (offset q) x) [
  | yes at ↦
      paint-at d q [] x at
      ∙ sym (paint-same (color q) qs x (subst (λ e. All (Has e) qs) (sym h.0) h.1))
      ∙ sym (paint-at d q qs x at)
  | no before ↦
      paint-below d (q ∷ []) (offset q) hi x (omega arith, a.1, tt) (omega arith)
      ∙ sym (paint-below d (q ∷ qs) (offset q) hi x (omega arith, a.1, a.2) (omega arith))
]

-- `head` is kept of `xs` and the state `s`, and `mid` is drained.
pub record Merged (c : Color) (xs : List State) (s : State) (hi : ℕ) : Type 0 where
  pub head : List State
  pub mid : List State
  pub whole : xs ++ s ∷ [] ≡ head ++ mid
  pub found : (ys : List State) → suc (same_before (xs ++ ys) (length xs) c) ≡ length head
  pub ascending : Ascending 0 hi head
  pub paints : (x : ℕ) → paint recved head x ≡ paint recved (xs ++ s ∷ []) x

nonempty :
    (run : List State) (s : State) → (q : State) × (qs : List State) × (run ++ s ∷ [] ≡ q ∷ qs)
nonempty [] s = (s, [], refl)
nonempty (r ∷ run) s = (r, run ++ s ∷ [], refl)

pub merge-lem :
    (c : Color) (xs : List State) (s : State) (hi : ℕ)
    → Ascending 0 hi (xs ++ s ∷ [])
    → color s ≡ c
    → Merged c xs s hi
merge-lem c xs s hi a h =
    let b = same_before-lem xs c in
    let (q, qs, e) = nonempty b.run s in
    let split : xs ++ s ∷ [] ≡ b.pre ++ q ∷ qs =
      ap (λ l. l ++ s ∷ []) b.whole ∙ append_assoc b.pre b.run (s ∷ []) ∙ ap (λ l. b.pre ++ l) e in
    let again : b.pre ++ q ∷ qs ≡ b.pre ++ q ∷ [] ++ qs = sym (append_assoc b.pre (q ∷ []) qs) in
    let sorted : Ascending 0 hi (b.pre ++ q ∷ qs) = subst (Ascending 0 hi) split a in
    record {
      head = b.pre ++ q ∷ [];
      mid = qs;
      whole = split ∙ again;
      found = λ ys. omega (arith, b.found ys, length-append b.pre (q ∷ []));
      ascending = Ascending-left (b.pre ++ q ∷ []) qs 0 hi (subst (Ascending 0 hi) again sorted);
      paints = λ x.
          paint-append recved b.pre (q ∷ []) x
          ∙ paint-first c (paint recved b.pre x) q qs 0 hi x
              (Ascending-right b.pre (q ∷ qs) 0 hi sorted)
              (subst (All (Has c)) e (All-append (Has c) b.run (s ∷ []) b.alike (h, tt)))
          ∙ sym (paint-append recved b.pre (q ∷ qs) x)
          ∙ sym (ap (λ l. paint recved l x) split);
    }
