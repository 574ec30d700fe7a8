-- ===== src/Timing/Counts.antt =====
-- How often a pointer stands in the slices of internal/diagnostics/timing_storage.go, through the
-- changes that Store makes of them.
use docker_net_doctor.Prelude.{
  ℕ, zero, suc, ◌+◌, ◌-◌, ◌≤◌, ◌<◌, ◌≡◌, refl, ap, ◌∙◌, ◌⊎◌, inl, inr, Bool, true, false, none,
  some, List, [], ◌∷◌, ◌++◌, ◌==◌, arith, if◌then◌else◌, length, take, set, get_or, Bool-cases,
  length-set,
}
use docker_net_doctor.Prelude.Dict.{Eq, insert, lookup-insert}
use docker_net_doctor.Timing.{
  Pointer, index_of, swap_remove, slice_of, add_to_index, remove_timing_from_slice,
}

abbrev pub hits : Pointer → Pointer → ℕ
hits p a = if p == a then 1 else 0

unfoldable pub count : Pointer → List Pointer → ℕ
count a [] = 0
count a (p ∷ ps) = hits p a + count a ps

pub count-append :
    (a p : Pointer) (ps : List Pointer) → count a (ps ++ p ∷ []) ≡ count a ps + hits p a
unfolding count
count-append a p [] = omega arith
count-append a p (q ∷ ps) = omega (arith, count-append a p ps)

pub count-set :
    (a p : Pointer) (i : ℕ) (ps : List Pointer)
    → i < length ps
    → count a (set ps i p) + hits (get_or ps i 0) a ≡ count a ps + hits p a
unfolding count
count-set a p i [] h = elim h [ ]
count-set a p zero (q ∷ ps) h = omega arith
count-set a p (suc i) (q ∷ ps) h = omega (arith, count-set a p i ps (omega arith))

pub hits-le :
    (a : Pointer) (i : ℕ) (ps : List Pointer) → i < length ps → hits (get_or ps i 0) a ≤ count a ps
unfolding count
hits-le a i [] h = elim h [ ]
hits-le a zero (q ∷ ps) h = omega arith
hits-le a (suc i) (q ∷ ps) h = omega (arith, hits-le a i ps (omega arith))

count-take_last :
    (a : Pointer) (n : ℕ) (ps : List Pointer)
    → length ps ≡ suc n
    → count a (take n ps) + hits (get_or ps n 0) a ≡ count a ps
unfolding count
count-take_last a zero (q ∷ []) h = omega arith
count-take_last a (suc n) (q ∷ ps) h = omega (arith, count-take_last a n ps (omega arith))
count-take_last a n [] h = absurd (omega arith)
count-take_last a zero (q ∷ r ∷ ps) h = absurd (omega arith)

get_or-set :
    (v : Pointer) (i n : ℕ) (ps : List Pointer)
    → i < length ps
    → get_or (set ps i v) n 0 ≡ (if i == n then v else get_or ps n 0)
get_or-set v i n [] h = elim h [ ]
get_or-set v zero zero (q ∷ ps) h = refl
get_or-set v zero (suc n) (q ∷ ps) h = ground arith
get_or-set v (suc i) zero (q ∷ ps) h = ground arith
get_or-set v (suc i) (suc n) (q ∷ ps) h = ground (arith, get_or-set v i n ps (omega arith))

pub if_same : (b : Bool) (v : Pointer) → (if b then v else v) ≡ v
if_same true v = refl
if_same false v = refl

count-swap_remove :
    (a : Pointer) (i n : ℕ) (ps : List Pointer)
    → length ps ≡ suc n
    → i < length ps
    → count a (swap_remove i ps) + hits (get_or ps i 0) a ≡ count a ps
unfolding swap_remove
count-swap_remove a i n ps len h =
    let v = get_or ps n 0 in
    let one_less : length ps - 1 ≡ n = omega arith in
    let kept : get_or (set ps i v) n 0 ≡ v = get_or-set v i n ps h ∙ if_same (i == n) v in
    rw one_less (
      omega (
        arith,
        count-set a v i ps h,
        count-take_last a n (set ps i v) (length-set ps i v ∙ len),
        ap (λ q. hits q a) kept,
      ))

-- The index that is found is in range and holds the pointer; where none is found the pointer is not.
index_of_lem :
    (p : Pointer) (ps : List Pointer)
    → ((index_of p ps ≡ none) × (count p ps ≡ 0))
      ⊎ ((i : ℕ) × (index_of p ps ≡ some i) × (i < length ps) × (get_or ps i 0 ≡ p))
unfolding index_of count
index_of_lem p [] = inl (refl, refl)
index_of_lem p (q ∷ ps) = elim (Bool-cases (q == p)) [
  | inl e ↦ inr (0, ground arith, ground arith, ground arith)
  | inr n ↦ elim (index_of_lem p ps) [
    | inl (m, z) ↦ inl (ground arith, ground arith)
    | inr (i, m, lt, g) ↦ inr (suc i, ground arith, ground arith, g)
  ]
]

module _ {ℓ} {K : Type ℓ} ⦃e : Eq K⦄ where
  slice_of-insert :
      (k j : K) (ps : List Pointer) (m : List (K × List Pointer))
      → slice_of j (insert k ps m) ≡ (if e.beq k j then ps else slice_of j m)
  unfolding slice_of
  slice_of-insert k j ps m = ground (arith, lookup-insert k j ps m)

  pub count-add_to_index :
      (a p : Pointer) (k j : K) (m : List (K × List Pointer))
      → count a (slice_of j (add_to_index k p m))
        ≡ count a (slice_of j m) + (if e.beq k j then hits p a else 0)
  unfolding add_to_index
  count-add_to_index a p k j m = elim (Bool-cases (e.beq k j)) [
    | inl same ↦
        let same' : k ≡ j = (e.beq_iff k j).0 same in
        ground (
          arith,
          slice_of-insert k j (slice_of k m ++ p ∷ []) m,
          count-append a p (slice_of k m),
          ap (λ i. slice_of i m) same',
        )
    | inr other ↦ ground (arith, slice_of-insert k j (slice_of k m ++ p ∷ []) m)
  ]

  -- Removing a pointer that stands in its slice takes away one occurrence, and nothing elsewhere.
  pub count-remove_timing :
      (a p : Pointer) (k j : K) (m : List (K × List Pointer))
      → 0 < count p (slice_of k m)
      → count a (slice_of j (remove_timing_from_slice k p m)) + (if e.beq k j then hits p a else 0)
        ≡ count a (slice_of j m)
  unfolding remove_timing_from_slice
  count-remove_timing a p k j m h = elim (index_of_lem p (slice_of k m)) [
    | inl (_, z) ↦ absurd (omega arith)
    | inr (i, found, lt, here) ↦ elim (Bool-cases (e.beq k j)) [
      | inl same ↦
          let same' : k ≡ j = (e.beq_iff k j).0 same in
          ground (
            arith,
            slice_of-insert k j (swap_remove i (slice_of k m)) m,
            count-swap_remove a i (length (slice_of k m) - 1) (slice_of k m) (omega arith) lt,
            ap (λ i. slice_of i m) same',
            ap (λ q. hits q a) here,
          )
      | inr other ↦ ground (arith, slice_of-insert k j (swap_remove i (slice_of k m)) m)
    ]
  ]
