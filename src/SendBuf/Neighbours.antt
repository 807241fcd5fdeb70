-- ===== src/SendBuf/Neighbours.antt =====
-- Where the searches of `sndbuf.rs` cut a deque.
use dquic.Base.{
  ℕ, zero, suc, ◌+◌, ◌%◌, ◌^◌, ◌<◌, ◌≡◌, refl, ap, ◌∙◌, sym, subst, arith, inl, inr, Bool-cases,
  some, List, [], ◌∷◌, ◌++◌, length, get_elem?, All, dec_lt, length-append, All-append,
  get_elem?-append_right, lt→ltb, le→ltb,
}
use dquic.SendBuf.State.{Color, State, offset, color, eq_color}
use dquic.SendBuf.Map.{at_index, before_index, search, same_before, walk}
use dquic.SendBuf.Paint.{Ascending, Has, eq_color-eq}
use dquic.SendBuf.Splice.{append_assoc, append_nil}

-- The states before the target, the one at the target if there is one, and those after it.
pub data Searched (lo hi : ℕ) (states : List State) (target : ℕ) : Type 0 where
  hit :
      (xs : List State) (s : State) (ys : List State)
      → states ≡ xs ++ s ∷ ys
      → search states target ≡ at_index (length xs)
      → Ascending lo target xs
      → offset s ≡ target
      → Ascending (target + 1) hi ys
      → Searched lo hi states target
  miss :
      (xs ys : List State)
      → states ≡ xs ++ ys
      → search states target ≡ before_index (length xs)
      → Ascending lo target xs
      → Ascending (target + 1) hi ys
      → Searched lo hi states target

pub search-lem :
    (states : List State) (lo hi target : ℕ) → Ascending lo hi states → Searched lo hi states target
unfolding search Ascending
search-lem [] lo hi target a = miss [] [] refl refl tt tt
search-lem (s ∷ states) lo hi target a = elim (dec_lt (offset s) target) [
  | yes below ↦ elim (search-lem states (offset s + 1) hi target a.2) [
    | hit xs s' ys e f u o v ↦
        hit (s ∷ xs) s' ys (ap (◌∷◌ s) e) (rw (lt→ltb (offset s) target below, f) refl)
          (a.0, below, u) o v
    | miss xs ys e f u v ↦
        miss (s ∷ xs) ys (ap (◌∷◌ s) e) (rw (lt→ltb (offset s) target below, f) refl)
          (a.0, below, u) v
  ]
  | no up ↦ elim (dec_lt target (offset s)) [
    | yes above ↦
        miss [] (s ∷ states) refl
          (rw (le→ltb (offset s) target (omega arith), lt→ltb target (offset s) above) refl) tt
          (omega arith, a.1, a.2)
    | no here ↦
        let e : offset s ≡ target = omega arith in
        hit [] s states refl
          (rw (le→ltb (offset s) target (omega arith), le→ltb target (offset s) (omega arith)) refl)
          tt e (subst (λ (t : ℕ). Ascending (t + 1) hi states) e a.2)
  ]
]

-- The states of one colour at the end of `xs`, as `same_before` finds them.
pub record EndRun (xs : List State) (c : Color) : Type 0 where
  pub pre : List State
  pub run : List State
  pub whole : xs ≡ pre ++ run
  pub alike : All (Has c) run
  pub found : (ys : List State) → same_before (xs ++ ys) (length xs) c ≡ length pre

pub last_split :
    (n : ℕ) (xs : List State)
    → length xs ≡ suc n
    → (ys : List State) × (y : State) × (xs ≡ ys ++ y ∷ []) × (length ys ≡ n)
last_split n [] h = absurd (omega (arith, h))
last_split zero (x ∷ []) h = ([], x, refl, refl)
last_split (suc n) (x ∷ []) h = absurd (omega (arith, h))
last_split zero (x ∷ x' ∷ xs) h = absurd (omega (arith, h))
last_split (suc n) (x ∷ x' ∷ xs) h =
    let (ys, y, e, f) = last_split n (x' ∷ xs) (omega (arith, h)) in
    (x ∷ ys, y, ap (◌∷◌ x) e, ap suc f)

EndRun-snoc : (ys : List State) (y : State) (c : Color) → EndRun ys c → EndRun (ys ++ y ∷ []) c
unfolding same_before
EndRun-snoc ys y c b =
    let long : length (ys ++ y ∷ []) ≡ suc (length ys) = omega (arith, length-append ys (y ∷ [])) in
    let here : (zs : List State) → get_elem? (ys ++ y ∷ [] ++ zs) (length ys) ≡ some y = λ zs.
      ap (λ l. get_elem? l (length ys)) (append_assoc ys (y ∷ []) zs)
      ∙ get_elem?-append_right ys (y ∷ zs) (length ys) 0 (omega arith) in
    elim (Bool-cases (eq_color (color y) c)) [
      | inl same ↦ record {
        pre = b.pre;
        run = b.run ++ y ∷ [];
        whole = ap (λ l. l ++ y ∷ []) b.whole ∙ append_assoc b.pre b.run (y ∷ []);
        alike = All-append (Has c) b.run (y ∷ []) b.alike (eq_color-eq (color y) c same, tt);
        found = λ zs.
            rw (long, here zs, same)
              (ap (λ l. same_before l (length ys) c) (append_assoc ys (y ∷ []) zs)
                ∙ b.found (y ∷ zs));
      }
      | inr other ↦ record {
        pre = ys ++ y ∷ [];
        run = [];
        whole = sym (append_nil (ys ++ y ∷ []));
        alike = tt;
        found = λ zs. rw (long, here zs, other) refl;
      }
    ]

EndRun-of : (n : ℕ) (xs : List State) (c : Color) → length xs ≡ n → EndRun xs c
unfolding same_before
EndRun-of zero xs c h = record {
  pre = xs;
  run = [];
  whole = sym (append_nil xs);
  alike = tt;
  found = λ ys. rw h refl;
}
EndRun-of (suc n) xs c h =
    let (ys, y, e, f) = last_split n xs h in
    subst (λ zs. EndRun zs c) (sym e) (EndRun-snoc ys y c (EndRun-of n ys c f))

pub same_before-lem : (xs : List State) (c : Color) → EndRun xs c
same_before-lem xs c = EndRun-of (length xs) xs c refl

-- The states of one colour at the front of `rest`, as the loop of `same_after` finds them.
pub record FrontRun (rest : List State) (c : Color) (index next : ℕ) : Type 0 where
  pub run : List State
  pub post : List State
  pub whole : rest ≡ run ++ post
  pub alike : All (Has c) run
  pub found : (walk rest index c + 1) % 2 ^ 64 ≡ next + length run
  pub bounded : walk rest index c < 2 ^ 64

pub walk-lem :
    (rest : List State) (c : Color) (index next : ℕ)
    → index < 2 ^ 64
    → (index + 1) % 2 ^ 64 ≡ next
    → next + length rest < 2 ^ 64
    → FrontRun rest c index next
unfolding walk
walk-lem [] c index next i e h = record {
  run = [];
  post = [];
  whole = refl;
  alike = tt;
  found = omega (arith, e);
  bounded = i;
}
walk-lem (s ∷ rest) c index next i e h = elim (Bool-cases (eq_color (color s) c)) [
  | inl same ↦
      let r : FrontRun rest c ((index + 1) % 2 ^ 64) (next + 1) =
        walk-lem rest c ((index + 1) % 2 ^ 64) (next + 1) (omega arith) (omega (arith, e, h))
          (omega (arith, h)) in
      record {
        run = s ∷ r.run;
        post = r.post;
        whole = ap (◌∷◌ s) r.whole;
        alike = (eq_color-eq (color s) c same, r.alike);
        found = rw same (omega (arith, r.found));
        bounded = rw same r.bounded;
      }
  | inr other ↦ record {
    run = [];
    post = s ∷ rest;
    whole = refl;
    alike = tt;
    found = rw other (omega (arith, e));
    bounded = rw other i;
  }
]
