-- ===== src/SendBuf/Paint.antt =====
-- The colour that a deque of states gives to each position of the stream.
use dquic.Base.{
  ℕ, ◌+◌, ◌≤◌, ◌<◌, max, ◌≡◌, ◌≢◌, refl, ap, ◌∙◌, sym, subst, arith, true, false, leb,
  if◌then◌else◌, List, [], ◌∷◌, ◌++◌, length, All, lt→leb, le→leb, dec_le, inl, inr, Bool-cases,
}
use dquic.SendBuf.State.{Color, recved, eq_color, State, offset, color, pending, flighting, lost}
use dquic.SendBuf.Map.{BufMap}

-- The last listed state at or before the position gives its colour, `c` where there is none.
unfoldable pub paint : Color → List State → ℕ → Color
paint c [] x = c
paint c (s ∷ states) x = paint (if leb (offset s) x then color s else c) states x

-- What lies before the first state has been received.
unfoldable pub color_at : BufMap → ℕ → Color
unfolding paint
color_at m x = paint recved m.states x

-- The offsets increase strictly, from `lo` on and below `hi`.
unfoldable pub Ascending : ℕ → ℕ → List State → Type 0
Ascending lo hi [] = Unit
Ascending lo hi (s ∷ states) =
    (lo ≤ offset s) × (offset s < hi) × Ascending (offset s + 1) hi states

abbrev pub Has : Color → State → Type 0
Has c s = color s ≡ c

abbrev pub last_color : Color → List State → Color
last_color c [] = c
last_color c (s ∷ states) = last_color (color s) states

pub eq_color-same : (c : Color) → eq_color c c ≡ true
eq_color-same pending = refl
eq_color-same flighting = refl
eq_color-same recved = refl
eq_color-same lost = refl

pub eq_color-eq : (c d : Color) → eq_color c d ≡ true → c ≡ d
eq_color-eq pending pending h = refl
eq_color-eq flighting flighting h = refl
eq_color-eq recved recved h = refl
eq_color-eq lost lost h = refl
eq_color-eq pending flighting h = cc
eq_color-eq pending recved h = cc
eq_color-eq pending lost h = cc
eq_color-eq flighting pending h = cc
eq_color-eq flighting recved h = cc
eq_color-eq flighting lost h = cc
eq_color-eq recved pending h = cc
eq_color-eq recved flighting h = cc
eq_color-eq recved lost h = cc
eq_color-eq lost pending h = cc
eq_color-eq lost flighting h = cc
eq_color-eq lost recved h = cc

pub eq_color-ne : (c d : Color) → c ≢ d → eq_color c d ≡ false
eq_color-ne c d h = elim (Bool-cases (eq_color c d)) [
  | inl e ↦ absurd (h (eq_color-eq c d e))
  | inr e ↦ e
]

pub paint-append :
    (c : Color) (xs ys : List State) (x : ℕ) → paint c (xs ++ ys) x ≡ paint (paint c xs x) ys x
unfolding paint
paint-append c [] ys x = refl
paint-append c (s ∷ xs) ys x = paint-append (if leb (offset s) x then color s else c) xs ys x

pub paint-at :
    (c : Color) (s : State) (ys : List State) (x : ℕ)
    → offset s ≤ x
    → paint c (s ∷ ys) x ≡ paint (color s) ys x
unfolding paint
paint-at c s ys x h = rw (le→leb (offset s) x h) refl

pub paint-before :
    (c : Color) (s : State) (ys : List State) (x : ℕ)
    → x < offset s
    → paint c (s ∷ ys) x ≡ paint c ys x
unfolding paint
paint-before c s ys x h = rw (lt→leb (offset s) x h) refl

pub paint-below :
    (c : Color) (ys : List State) (lo hi x : ℕ) → Ascending lo hi ys → x < lo → paint c ys x ≡ c
unfolding Ascending paint
paint-below c [] lo hi x a h = refl
paint-below c (s ∷ ys) lo hi x a h =
    paint-before c s ys x (omega (arith, a.0))
    ∙ paint-below c ys (offset s + 1) hi x a.2 (omega (arith, a.0))

-- At or after all of its states, a deque gives the last colour.
pub paint-last :
    (c : Color) (xs : List State) (lo hi x : ℕ)
    → Ascending lo hi xs
    → hi ≤ x + 1
    → paint c xs x ≡ last_color c xs
unfolding Ascending paint
paint-last c [] lo hi x a h = refl
paint-last c (s ∷ xs) lo hi x a h =
    paint-at c s xs x (omega (arith, a.1)) ∙ paint-last (color s) xs (offset s + 1) hi x a.2 h

-- States of the colour that is already there change nothing.
pub paint-same : (c : Color) (xs : List State) (x : ℕ) → All (Has c) xs → paint c xs x ≡ c
unfolding paint
paint-same c [] x h = refl
paint-same c (s ∷ xs) x h = elim (dec_le (offset s) x) [
  | yes at ↦ paint-at c s xs x at ∙ ap (λ d. paint d xs x) h.0 ∙ paint-same c xs x h.1
  | no before ↦ paint-before c s xs x (omega arith) ∙ paint-same c xs x h.1
]

pub Ascending-weaken :
    (xs : List State) (lo lo' hi hi' : ℕ)
    → lo' ≤ lo
    → hi ≤ hi'
    → Ascending lo hi xs
    → Ascending lo' hi' xs
unfolding Ascending
Ascending-weaken [] lo lo' hi hi' h h' a = tt
Ascending-weaken (s ∷ xs) lo lo' hi hi' h h' a = (
  omega (arith, a.0),
  omega (arith, a.1),
  Ascending-weaken xs (offset s + 1) (offset s + 1) hi hi' (omega arith) h' a.2,
)

pub Ascending-append :
    (xs ys : List State) (lo mid hi : ℕ)
    → mid ≤ hi
    → lo ≤ mid
    → Ascending lo mid xs
    → Ascending mid hi ys
    → Ascending lo hi (xs ++ ys)
unfolding Ascending
Ascending-append [] ys lo mid hi h h' a b = Ascending-weaken ys mid lo hi hi h' (omega arith) b
Ascending-append (s ∷ xs) ys lo mid hi h h' a b = (
  omega (arith, a.0),
  omega (arith, a.1),
  Ascending-append xs ys (offset s + 1) mid hi h (omega (arith, a.1)) a.2 b,
)

pub Ascending-right :
    (xs ys : List State) (lo hi : ℕ) → Ascending lo hi (xs ++ ys) → Ascending lo hi ys
unfolding Ascending
Ascending-right [] ys lo hi a = a
Ascending-right (s ∷ xs) ys lo hi a =
    Ascending-weaken ys (offset s + 1) lo hi hi (omega (arith, a.0)) (omega arith)
      (Ascending-right xs ys (offset s + 1) hi a.2)

pub Ascending-left :
    (xs ys : List State) (lo hi : ℕ) → Ascending lo hi (xs ++ ys) → Ascending lo hi xs
unfolding Ascending
Ascending-left [] ys lo hi a = tt
Ascending-left (s ∷ xs) ys lo hi a = (a.0, a.1, Ascending-left xs ys (offset s + 1) hi a.2)

pub length-Ascending :
    (xs : List State) (lo hi : ℕ) → Ascending lo hi xs → lo + length xs ≤ max lo hi
unfolding Ascending
length-Ascending [] lo hi a = omega arith
length-Ascending (s ∷ xs) lo hi a =
    omega (arith, a.0, a.1, length-Ascending xs (offset s + 1) hi a.2)

pub empty : (lo hi : ℕ) → Ascending lo hi []
unfolding Ascending
empty lo hi = tt

pub paint-nil : (c : Color) (x : ℕ) → paint c [] x ≡ c
unfolding paint
paint-nil c x = refl

pub last_below :
    (ws : List State) (s : State) (hi x : ℕ) → Ascending 0 hi (ws ++ s ∷ []) → hi ≤ x → offset s ≤ x
unfolding Ascending
last_below ws s hi x a h = let r = Ascending-right ws (s ∷ []) 0 hi a in omega (arith, r.1)

pub Ascending-snoc :
    (xs : List State) (s : State) (at : ℕ)
    → Ascending 0 at xs
    → offset s ≡ at
    → Ascending 0 (at + 1) (xs ++ s ∷ [])
unfolding Ascending
Ascending-snoc xs s at a h =
    Ascending-append xs (s ∷ []) 0 at (at + 1) (omega arith) (omega arith) a
      (omega (arith, h), omega (arith, h), tt)

pub Ascending-until :
    (xs : List State) (s : State) (ys : List State) (lo hi : ℕ)
    → Ascending lo hi (xs ++ s ∷ ys)
    → Ascending lo (offset s) xs
unfolding Ascending
Ascending-until [] s ys lo hi a = tt
Ascending-until (x ∷ xs) s ys lo hi a =
    let r = Ascending-right xs (s ∷ ys) (offset x + 1) hi a.2 in
    (a.0, omega (arith, r.0), Ascending-until xs s ys (offset x + 1) hi a.2)

pub Ascending-cons :
    (s : State) (ys : List State) (at hi : ℕ)
    → offset s ≡ at
    → at < hi
    → Ascending (at + 1) hi ys
    → Ascending at hi (s ∷ ys)
unfolding Ascending
Ascending-cons s ys at hi e h a =
    (omega (arith, e), omega (arith, e), subst (λ (n : ℕ). Ascending (n + 1) hi ys) (sym e) a)
