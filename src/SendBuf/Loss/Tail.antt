-- ===== src/SendBuf/Loss/Tail.antt =====
-- What `may_lost_from` does to the states after one that has been received.
use dquic.Base.{
  ℕ, ◌+◌, ◌^◌, ◌≤◌, ◌<◌, ◌≡◌, ◌≢◌, refl, ap, ◌∙◌, sym, subst, arith, Bool, false, ltb,
  if◌then◌else◌, List, [], ◌∷◌, ◌++◌, length, All, dec_lt, length-append, lt→ltb, All-append,
  Outcome, ret,
}
use dquic.SendBuf.State.{Color, pending, flighting, recved, lost, eq_color, State, offset}
use dquic.SendBuf.Paint.{
  Ascending, Has, paint, paint-append, paint-below, Ascending-append, Ascending-weaken,
  Ascending-left, Ascending-right,
}
use dquic.SendBuf.Splice.{append_assoc, one_if, finish-parts, finish-none}
use dquic.SendBuf.Merge.{paint-first}
use dquic.SendBuf.Loss.{close}
use dquic.SendBuf.Map.{finish}

abbrev pub lose : Color → Color
lose pending = pending
lose flighting = lost
lose recved = recved
lose lost = lost

pub lose-same : (c : Color) → eq_color c flighting ≡ false → lose c ≡ c
lose-same pending h = refl
lose-same flighting h = cc
lose-same recved h = refl
lose-same lost h = refl

pub lose-lost : (c : Color) → c ≢ pending → c ≢ recved → lose c ≡ lost
lose-lost pending h h' = absurd (h refl)
lose-lost flighting h h' = refl
lose-lost recved h h' = absurd (h' refl)
lose-lost lost h h' = refl

-- Of the lost states, the first is kept.
abbrev pub kept : List State → List State
kept [] = []
kept (s ∷ ys) = s ∷ []

paint-kept :
    (ys : List State) (lo hi x : ℕ)
    → Ascending lo hi ys
    → All (Has lost) ys
    → paint recved (kept ys) x ≡ paint recved ys x
paint-kept [] lo hi x a h = refl
paint-kept (s ∷ ys) lo hi x a h = paint-first lost recved s ys lo hi x a h

Ascending-kept :
    (ys zs : List State) (lo hi : ℕ) → Ascending lo hi (ys ++ zs) → Ascending lo hi (kept ys ++ zs)
unfolding Ascending
Ascending-kept [] zs lo hi a = a
Ascending-kept (s ∷ ys) zs lo hi a = (a.0, a.1, Ascending-right ys zs (offset s + 1) hi a.2)

pub close-parts :
    (xs ys zs : List State) (i j : ℕ) (b : Bool) (t : State)
    → i ≡ length xs
    → j ≡ length xs + length ys
    → (ys ≡ [] → b ≡ false)
    → close (xs ++ (ys ++ zs)) i j b t ≡ ret (xs ++ (kept ys ++ (one_if b t ++ zs)))
unfolding close
close-parts xs [] zs i j b t e f h =
    rw (h refl) (finish-none (xs ++ zs) (i + 1) j t t (omega (arith, e, f)))
close-parts xs (s ∷ ys) zs i j b t e f h =
    ap (λ l. finish l (i + 1) j false t b t) (sym (append_assoc xs (s ∷ []) (ys ++ zs)))
    ∙ finish-parts (xs ++ s ∷ []) ys zs false b t t (i + 1) j
        (omega (arith, e, length-append xs (s ∷ [])))
        (omega (arith, e, f, length-append xs (s ∷ [])))
    ∙ ap ret (append_assoc xs (s ∷ []) (one_if b t ++ zs))

-- The call returns `xs` and then states with the colours `old`, but lost below `end`.
pub record Lost (r : Outcome (List State)) (xs : List State) (lo size end : ℕ) (old : ℕ → Color)
    : Type 0 where
  pub out : List State
  pub returned : r ≡ ret (xs ++ out)
  pub ascending : Ascending lo size out
  pub painted :
      (x : ℕ) → x < size → paint recved out x ≡ (if ltb x end then lose (old x) else old x)

-- A round of the loop: `ys` are the states marked so far, `bound` is after all of them.
pub record Round (states : List State) (lo size end i j : ℕ) (pre : Color) (rest : List State)
    (old : ℕ → Color) : Type 0 where
  pub xs : List State
  pub ys : List State
  pub bound : ℕ
  pub whole : states ≡ xs ++ (ys ++ rest)
  pub first : i ≡ length xs
  pub next : j ≡ length xs + length ys
  pub short : length states < 2 ^ 62
  pub marked : All (Has lost) ys
  pub above : lo ≤ bound
  pub below : bound ≤ end
  pub ys_ascending : Ascending lo bound ys
  pub rest_ascending : Ascending bound size rest
  pub before : (x : ℕ) → x < bound → paint recved ys x ≡ lose (old x)
  pub onwards : (x : ℕ) → bound ≤ x → paint recved ys x ≡ lose pre
  pub after : (x : ℕ) → bound ≤ x → old x ≡ paint pre rest x
  pub untouched : ys ≡ [] → pre ≡ recved

-- The end of the loop: the marked states and a `run` of lost ones give way to the first of them, and
-- `tail` follows from `cut` on.
module _ {states : List State} {lo size end i j : ℕ} {pre : Color} {rest : List State}
    {old : ℕ → Color} (r : Round states lo size end i j pre rest old) (run tail : List State)
    (cut : ℕ) (call : Outcome (List State))
    (returned : call ≡ ret (r.xs ++ (kept (r.ys ++ run) ++ tail))) (alike : All (Has lost) run)
    (inside : end ≤ size) (low : r.bound ≤ cut) (high : cut ≤ end)
    (tail_ascending : Ascending cut size (run ++ tail))
    (quiet : (x : ℕ) → r.bound ≤ x → x < cut → old x ≡ pre)
    (final : (x : ℕ)
      → cut ≤ x
      → x < size
      → paint (lose pre) (run ++ tail) x ≡ (if ltb x end then lose (old x) else old x)) where
  joined : Ascending lo size (r.ys ++ (run ++ tail))
  joined =
      Ascending-append r.ys (run ++ tail) lo cut size (omega arith) (omega (arith, r.above))
        (Ascending-weaken r.ys lo lo r.bound cut (omega arith) low r.ys_ascending) tail_ascending

  grouped : Ascending lo size (r.ys ++ run ++ tail)
  grouped = subst (Ascending lo size) (sym (append_assoc r.ys run tail)) joined

  pub end-Lost : Lost call r.xs lo size end old
  end-Lost = record {
    out = kept (r.ys ++ run) ++ tail;
    returned = returned;
    ascending = Ascending-kept (r.ys ++ run) tail lo size grouped;
    painted = λ x h.
        paint-append recved (kept (r.ys ++ run)) tail x
        ∙ ap (λ c. paint c tail x)
            (paint-kept (r.ys ++ run) lo size x (Ascending-left (r.ys ++ run) tail lo size grouped)
              (All-append (Has lost) r.ys run r.marked alike))
        ∙ ap (λ c. paint c tail x) (paint-append recved r.ys run x)
        ∙ sym (paint-append (paint recved r.ys x) run tail x)
        ∙ elim (dec_lt x cut) [
          | yes early ↦
              paint-below (paint recved r.ys x) (run ++ tail) cut size x tail_ascending early
              ∙ rw (lt→ltb x end (omega arith)) (elim (dec_lt x r.bound) [
                | yes first ↦ r.before x first
                | no then_on ↦
                    r.onwards x (omega arith) ∙ ap lose (sym (quiet x (omega arith) early))
              ])
          | no late ↦
              ap (λ c. paint c (run ++ tail) x) (r.onwards x (omega arith))
              ∙ final x (omega arith) h
        ];
  }
