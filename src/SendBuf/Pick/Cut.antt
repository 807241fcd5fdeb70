-- ===== src/SendBuf/Pick/Cut.antt =====
-- What `pick` makes of the states around the chosen one.
use dquic.Base.{
  ℕ, suc, ◌+◌, ◌%◌, ◌^◌, ◌<◌, ◌≡◌, refl, ap, ◌∙◌, sym, arith, List, [], ◌∷◌, ◌++◌, length, All,
  drop, length-append, lt→ltb, le→ltb, ret,
}
use dquic.SendBuf.State.{Color, State, encode}
use dquic.SendBuf.Map.{same_after, walk, merge_after}
use dquic.SendBuf.Paint.{Has}
use dquic.SendBuf.Splice.{
  append_assoc, drop-append, write_state-parts, insert_state-parts, drain-parts,
}
use dquic.SendBuf.Neighbours.{FrontRun, walk-lem}
use dquic.SendBuf.Pick.{cut_state, drain_merged, split_state}

-- `head` ends with the chosen state or with the first of those it was merged with.
pub cut-parts :
    (head mid ys : List State) (i index end : ℕ) (c : Color)
    → i + 1 ≡ length head
    → index + 1 ≡ length head + length mid
    → split_state (head ++ (mid ++ ys)) i index end c ≡ ret (head ++ encode end c ∷ ys)
unfolding split_state cut_state drain_merged
cut-parts head [] ys i index end c e f =
    rw
      (
        le→ltb i index (omega (arith, e, f)),
        insert_state-parts head ys (encode end c) (i + 1) e,
        le→ltb (i + 1) index (omega (arith, e, f)),
      )
      refl
cut-parts head (q ∷ []) ys i index end c e f =
    rw
      (
        lt→ltb i index (omega (arith, e, f)),
        write_state-parts head q ys (encode end c) (i + 1) e,
        le→ltb (i + 1) index (omega (arith, e, f)),
      )
      refl
cut-parts head (q ∷ q' ∷ qs) ys i index end c e f =
    rw
      (
        lt→ltb i index (omega (arith, e, f)),
        write_state-parts head q (q' ∷ qs ++ ys) (encode end c) (i + 1) e,
        lt→ltb (i + 1) index (omega (arith, e, f)),
        sym (append_assoc head (encode end c ∷ []) (q' ∷ qs ++ ys)),
        drain-parts (head ++ encode end c ∷ []) (q' ∷ qs) ys (i + 1 + 1) (index + 1)
            (omega (arith, e, length-append head (encode end c ∷ [])))
            (omega (arith, f, length-append head (encode end c ∷ []))),
        append_assoc head (encode end c ∷ []) ys,
      )
      refl

pub drain_merged-parts :
    (head mid ys : List State) (i index : ℕ)
    → i + 1 ≡ length head
    → index + 1 ≡ length head + length mid
    → drain_merged (head ++ (mid ++ ys)) i index ≡ ret (head ++ ys)
unfolding drain_merged
drain_merged-parts head [] ys i index e f = rw (le→ltb i index (omega (arith, e, f))) refl
drain_merged-parts head (q ∷ qs) ys i index e f =
    rw (lt→ltb i index (omega (arith, e, f))) (drain-parts head (q ∷ qs) ys (i + 1) (index + 1) e f)

-- The states after the chosen one that are in flight go.
pub record MergedAfter (xs : List State) (s : State) (ys : List State) (c : Color) : Type 0 where
  pub run : List State
  pub post : List State
  pub whole : ys ≡ run ++ post
  pub alike : All (Has c) run
  pub merged : merge_after (xs ++ s ∷ ys) (length xs) c ≡ ret (xs ++ s ∷ post)

merge_after-run :
    (xs ys run post : List State) (s : State) (c : Color)
    → ys ≡ run ++ post
    → same_after (xs ++ s ∷ ys) (length xs) c ≡ length xs + length run
    → merge_after (xs ++ s ∷ ys) (length xs) c ≡ ret (xs ++ s ∷ post)
unfolding merge_after
merge_after-run xs ys [] post s c e f =
    rw (f, le→ltb (length xs) (length xs + 0) (omega arith), e) refl
merge_after-run xs ys (r ∷ run) post s c e f =
    let after : xs ++ s ∷ [] ++ (r ∷ run ++ post) ≡ xs ++ s ∷ ys =
      append_assoc xs (s ∷ []) (r ∷ run ++ post) ∙ ap (λ l. xs ++ s ∷ l) (sym e) in
    rw (f, lt→ltb (length xs) (length xs + suc (length run)) (omega arith), sym after)
      (drain-parts (xs ++ s ∷ []) (r ∷ run) post (length xs + 1) (length xs + suc (length run) + 1)
          (omega (arith, length-append xs (s ∷ []))) (omega (arith, length-append xs (s ∷ [])))
        ∙ ap ret (append_assoc xs (s ∷ []) post))

merge_after-walk :
    (xs ys : List State) (s : State) (c : Color)
    → drop ((length xs + 1) % 2 ^ 64) (xs ++ s ∷ ys) ≡ ys
    → FrontRun ys c (length xs) (length xs + 1)
    → MergedAfter xs s ys c
unfolding same_after
merge_after-walk xs ys s c cut r =
    let reached : walk ys (length xs) c ≡ length xs + length r.run =
      omega (arith, r.found, r.bounded) in
    record {
      run = r.run;
      post = r.post;
      whole = r.whole;
      alike = r.alike;
      merged = merge_after-run xs ys r.run r.post s c r.whole (rw cut reached);
    }

pub merge_after-lem :
    (xs ys : List State) (s : State) (c : Color)
    → length (xs ++ s ∷ ys) < 2 ^ 62
    → MergedAfter xs s ys c
merge_after-lem xs ys s c short =
    let long = length-append xs (s ∷ ys) in
    let next : (length xs + 1) % 2 ^ 64 ≡ length xs + 1 = omega (arith, long, short) in
    merge_after-walk xs ys s c (drop-append xs (s ∷ ys) _ 1 next) (
      walk-lem ys c (length xs) (length xs + 1) (omega (arith, long, short)) next
        (omega (arith, long, short)))
