-- ===== src/SendBuf/Splice.antt =====
-- What the writes, insertions and drains of `sndbuf.rs` make of a deque given in three parts.
use dquic.Base.{
  ℕ, zero, suc, ◌+◌, ◌≤◌, max, ◌≡◌, refl, ap, arith, Bool, true, false, List, [], ◌∷◌, ◌++◌, length,
  set, take, drop, ret, length-append, lt→ltb, le→ltb, le→leb,
}
use dquic.SendBuf.State.{State}
use dquic.SendBuf.Map.{drain, insert_state, write_state, place, place_if, drain_rest, finish}

module _ {ℓ} {A : Type ℓ} where
  pub append_assoc : (xs ys zs : List A) → xs ++ ys ++ zs ≡ xs ++ (ys ++ zs)
  append_assoc [] ys zs = refl
  append_assoc (x ∷ xs) ys zs = ap (◌∷◌ x) (append_assoc xs ys zs)

  pub append_nil : (xs : List A) → xs ++ [] ≡ xs
  append_nil [] = refl
  append_nil (x ∷ xs) = ap (◌∷◌ x) (append_nil xs)

  pub take-append : (xs ys : List A) (i : ℕ) → i ≡ length xs → take i (xs ++ ys) ≡ xs
  take-append [] ys i h = rw h refl
  take-append (x ∷ xs) ys zero h = absurd (omega (arith, h))
  take-append (x ∷ xs) ys (suc i) h = ap (◌∷◌ x) (take-append xs ys i (omega (arith, h)))

  pub drop-append : (xs ys : List A) (i n : ℕ) → i ≡ length xs + n → drop i (xs ++ ys) ≡ drop n ys
  drop-append [] ys i n h = ap (λ (k : ℕ). drop k ys) (omega (arith, h))
  drop-append (x ∷ xs) ys zero n h = absurd (omega (arith, h))
  drop-append (x ∷ xs) ys (suc i) n h = drop-append xs ys i n (omega (arith, h))

  pub set-append :
      (xs ys : List A) (y v : A) (i : ℕ) → i ≡ length xs → set (xs ++ y ∷ ys) i v ≡ xs ++ v ∷ ys
  set-append [] ys y v i h = rw h refl
  set-append (x ∷ xs) ys y v zero h = absurd (omega (arith, h))
  set-append (x ∷ xs) ys y v (suc i) h = ap (◌∷◌ x) (set-append xs ys y v i (omega (arith, h)))

pub drain-parts :
    (xs ys zs : List State) (i j : ℕ)
    → i ≡ length xs
    → j ≡ length xs + length ys
    → drain (xs ++ (ys ++ zs)) i j ≡ ret (xs ++ zs)
unfolding drain
drain-parts xs ys zs i j e f =
    rw
      (
        le→leb i j (omega (arith, e, f)),
        le→leb j (length (xs ++ (ys ++ zs)))
            (omega (arith, f, length-append xs (ys ++ zs), length-append ys zs)),
        take-append xs (ys ++ zs) i e,
        drop-append xs (ys ++ zs) j (length ys) f,
        drop-append ys zs (length ys) 0 (omega arith),
      )
      refl

pub write_state-parts :
    (xs : List State) (y : State) (zs : List State) (s : State) (i : ℕ)
    → i ≡ length xs
    → write_state (xs ++ y ∷ zs) i s ≡ ret (xs ++ s ∷ zs)
unfolding write_state
write_state-parts xs y zs s i e =
    rw
      (
        lt→ltb i (length (xs ++ y ∷ zs)) (omega (arith, e, length-append xs (y ∷ zs))),
        set-append xs zs y s i e,
      )
      refl

pub insert_state-parts :
    (xs zs : List State) (s : State) (i : ℕ)
    → i ≡ length xs
    → insert_state (xs ++ zs) i s ≡ ret (xs ++ s ∷ zs)
unfolding insert_state
insert_state-parts xs zs s i e =
    rw
      (
        le→leb i (length (xs ++ zs)) (omega (arith, e, length-append xs zs)),
        take-append xs zs i e,
        drop-append xs zs i 0 (omega (arith, e)),
      )
      refl

-- A place for one state, and what is left to drain.
abbrev tail_if : Bool → List State → List State
tail_if false ys = ys
tail_if true [] = []
tail_if true (y ∷ ys) = ys

abbrev pub one_if : Bool → State → List State
one_if false s = []
one_if true s = s ∷ []

place_if-parts :
    (b : Bool) (xs ys zs : List State) (s : State) (i j : ℕ)
    → i ≡ length xs
    → max i j ≡ length xs + length ys
    → place_if b (xs ++ (ys ++ zs)) i j s
      ≡ ret (xs ++ one_if b s ++ (tail_if b ys ++ zs), length (xs ++ one_if b s))
unfolding place_if place
place_if-parts false xs ys zs s i j e f = rw (append_nil xs, e) refl
place_if-parts true xs [] zs s i j e f =
    rw
      (
        le→ltb i j (omega (arith, e, f)),
        insert_state-parts xs zs s i e,
        append_assoc xs (s ∷ []) zs,
        length-append xs (s ∷ []),
        e,
      )
      refl
place_if-parts true xs (y ∷ ys) zs s i j e f =
    rw
      (
        lt→ltb i j (omega (arith, e, f)),
        write_state-parts xs y (ys ++ zs) s i e,
        append_assoc xs (s ∷ []) (ys ++ zs),
        length-append xs (s ∷ []),
        e,
      )
      refl

drain_rest-parts :
    (xs ys zs : List State) (i j : ℕ)
    → i ≡ length xs
    → max i j ≡ length xs + length ys
    → drain_rest (xs ++ (ys ++ zs)) i j ≡ ret (xs ++ zs)
unfolding drain_rest
drain_rest-parts xs [] zs i j e f = rw (le→ltb i j (omega (arith, e, f))) refl
drain_rest-parts xs (y ∷ ys) zs i j e f =
    rw (lt→ltb i j (omega (arith, e, f))) (drain-parts xs (y ∷ ys) zs i j e (omega (arith, e, f)))

tail_if-max :
    (b : Bool) (xs ys : List State) (s : State) (i j : ℕ)
    → i ≡ length xs
    → max i j ≡ length xs + length ys
    → max (length (xs ++ one_if b s)) j ≡ length (xs ++ one_if b s) + length (tail_if b ys)
tail_if-max false xs ys s i j e f = rw (append_nil xs) (omega (arith, e, f))
tail_if-max true xs [] s i j e f = omega (arith, e, f, length-append xs (s ∷ []))
tail_if-max true xs (y ∷ ys) s i j e f = omega (arith, e, f, length-append xs (s ∷ []))

pub finish-parts :
    (xs ys zs : List State) (a b : Bool) (s t : State) (i j : ℕ)
    → i ≡ length xs
    → max i j ≡ length xs + length ys
    → finish (xs ++ (ys ++ zs)) i j a s b t ≡ ret (xs ++ (one_if a s ++ (one_if b t ++ zs)))
unfolding finish
finish-parts xs ys zs a b s t i j e f =
    let n = tail_if-max a xs ys s i j e f in
    let m = tail_if-max b (xs ++ one_if a s) (tail_if a ys) t _ j refl n in
    rw
      (
        place_if-parts a xs ys zs s i j e f,
        place_if-parts b (xs ++ one_if a s) (tail_if a ys) zs t _ j refl n,
        drain_rest-parts ((xs ++ one_if a s) ++ one_if b t) (tail_if b (tail_if a ys)) zs _ j refl
            m,
        append_assoc (xs ++ one_if a s) (one_if b t) zs,
        append_assoc xs (one_if a s) (one_if b t ++ zs),
      )
      refl

pub finish-none :
    (states : List State) (i j : ℕ) (s t : State)
    → j ≤ i
    → finish states i j false s false t ≡ ret states
unfolding finish place_if drain_rest
finish-none states i j s t h = rw (le→ltb i j h) refl
