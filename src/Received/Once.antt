-- ===== src/Received/Once.antt =====
-- Over any run no packet number is accepted twice.
use dquic.Base.{
  ℕ, ◌+◌, ◌≤◌, ◌≡◌, inl, inr, refl, ap, ◌∙◌, arith, Bool, true, false, not, ◌||◌, ◌==◌,
  if◌then◌else◌, none, List, [], ◌∷◌, Bool-cases, ℕ_discrete, eq→==, ne→==, ◌↔◌, ◌≢◌, ok,
}
use dquic.Varint.{varint_max}
use dquic.Received.{ReceivedPacketRanges, RcvdJournal, insert, check_pn, on_rcvd_pn}
use dquic.Received.Ranges.{contains-covered}
use dquic.Received.Insert.{known, IsValid, Accepted, insert_cases}

abbrev pub count : ℕ → List ℕ → ℕ
count j [] = 0
count j (x ∷ xs) = (if j == x then 1 else 0) + count j xs

abbrev pub one_if : Bool → ℕ
one_if b = if b then 1 else 0

module _ {ℓ} {T : Type ℓ} where
  -- Packets arrive at their times; the numbers accepted are listed, the latest first.
  pub arrive : ReceivedPacketRanges T → List (ℕ × T) → ReceivedPacketRanges T × List ℕ
  arrive s [] = (s, [])
  arrive s ((pn, now) ∷ more) =
      let r = insert s pn now in
      let rest = arrive r.0 more in if r.1 then (rest.0, pn ∷ rest.1) else rest

  -- What is known stays known.
  known-Accepted :
      (s t : ReceivedPacketRanges T) (pn j : ℕ)
      → Accepted s t pn j
      → (j == pn || known s j) ≡ true
      → known t j ≡ true
  known-Accepted s t pn j a h = ground (arith, a, h)

  known-step :
      (s t : ReceivedPacketRanges T) (pn j : ℕ)
      → known s pn ≡ false
      → Accepted s t pn j
      → (if j == pn then 1 else 0) + one_if (known s j) ≤ one_if (known t j)
  known-step s t pn j e a = elim (ℕ_discrete j pn) [
    | yes same ↦
        rw
          (
            eq→== j pn same,
            known-Accepted s t pn j a (rw (eq→== j pn same) refl),
            ap (known s) same ∙ e,
          )
          (omega arith)
    | no other ↦ rw (ne→== j pn other) (elim (Bool-cases (known s j)) [
      | inl old ↦ rw (old, known-Accepted s t pn j a (rw (ne→== j pn other) old)) (omega arith)
      | inr new ↦ rw new (omega arith)
    ])
  ]

  -- The number is accepted at most once, and not at all if it was known.
  arrive-count :
      (packets : List (ℕ × T)) (s : ReceivedPacketRanges T) (j : ℕ)
      → IsValid s
      → (IsValid (arrive s packets).0)
        × (count j (arrive s packets).1 + one_if (known s j)
            ≤ one_if (known (arrive s packets).0 j))
  unfolding arrive
  arrive-count [] s j v = (v, omega arith)
  arrive-count ((pn, now) ∷ more) s j v = elim (insert_cases s pn now j v) [
    | inl (e, r) ↦ rw r (arrive-count more s j v)
    | inr (e, (t, r, a)) ↦
        let (v', below) = arrive-count more t j a.valid in
        rw r (v', omega (arith, below, known-step s t pn j e a))
  ]

abbrev pub no_packets {ℓ} : {T : Type ℓ} → ReceivedPacketRanges T
no_packets = record { ranges = []; retired_before = 0; largest_received = none }

-- Whatever packets arrive, in any order and however often, no number is accepted twice, and at the end
-- the ranges are sorted, separated, non-empty and at most 256.
pub arrive_once {ℓ} :
    {T : Type ℓ} (packets : List (ℕ × T)) (j : ℕ)
    → (count j (arrive (no_packets {T = T}) packets).1 ≤ 1)
      × (IsValid (arrive (no_packets {T = T}) packets).0)
arrive_once packets j =
    let (v, below) =
      arrive-count packets no_packets j (record { separated = tt; bounded = omega arith }) in
    (omega (arith, below, at_most (known (arrive no_packets packets).0 j)), v)
  where
    at_most : (b : Bool) → one_if b ≤ 1
    at_most true = omega arith
    at_most false = omega arith

check_pn-known {ℓ} :
    {T : Type ℓ} (j : RcvdJournal T) (pn : ℕ)
    → IsValid j.packets
    → (check_pn j pn ≡ ok pn) ↔ ((pn ≤ varint_max) × (known j.packets pn ≡ false))
unfolding check_pn
check_pn-known j pn v =
    rw (contains-covered j.packets.retired_before pn j.packets.ranges v.separated) (ground arith)

insert-known {ℓ} :
    {T : Type ℓ} (s : ReceivedPacketRanges T) (pn : ℕ) (now : T)
    → IsValid s
    → ((insert s pn now).1 ≡ not (known s pn))
      × (known (insert s pn now).0 pn ≡ true)
      × IsValid (insert s pn now).0
insert-known s pn now v = elim (insert_cases s pn now pn v) [
  | inl (e, r) ↦ rw (r, e) (refl, refl, v)
  | inr (e, (t, r, a)) ↦
      rw (r, e) (refl, known-Accepted s t pn pn a (rw (eq→== pn pn refl) refl), a.valid)
]

-- The check that `decode_pn` makes and the set agree: on a valid journal a number passes exactly when
-- it is at most VARINT_MAX and insertion would accept it, and right after it has been recorded it does
-- not pass.
pub check_pn-on_rcvd_pn {ℓ} :
    {T : Type ℓ} (j : RcvdJournal T) (pn : ℕ) (now : T)
    → IsValid j.packets
    → ((check_pn j pn ≡ ok pn) ↔ ((pn ≤ varint_max) × ((insert j.packets pn now).1 ≡ true)))
      × (check_pn (on_rcvd_pn j pn now) pn ≢ ok pn)
unfolding check_pn on_rcvd_pn
check_pn-on_rcvd_pn j pn now v =
    let (accepts, remembers, valid) = insert-known j.packets pn now v in
    let before = check_pn-known j pn v in
    let after = check_pn-known (on_rcvd_pn j pn now) pn valid in
    (rw accepts (ground (arith, before)), λ passes. ground (arith, remembers, (after.0 passes).1))
