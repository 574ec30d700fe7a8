-- ===== src/ClientMetrics/Percentiles.antt =====
-- The percentiles of updatePercentiles (internal/docker/client_metrics.go) are those of the samples.
use docker_net_doctor.Prelude.{
  ℕ, zero, suc, ◌*◌, ◌/◌, ◌≤◌, ◌<◌, ◌≡◌, refl, sym, subst, ap, ◌∙◌, some, List, [], ◌∷◌, length,
  get_elem?, All, ◌==◌, if-cases, arith,
}
use docker_net_doctor.Prelude.Int.{ℤ, ltb_ℤ, leb_ℤ, ◌≤ℤ◌}
use docker_net_doctor.ClientMetrics.{
  DurationTracker, sort, index_of, percentile, update_percentiles,
}
use docker_net_doctor.ClientMetrics.Sorting.{count, IsSorted, sort_lem}

-- At most so many elements are smaller as the index says, and more than that are not greater.
abbrev pub IsRanked : ℕ → ℤ → List ℤ → Type 0
IsRanked i v xs = (count (λ y. ltb_ℤ y v) xs ≤ i) × (i < count (λ y. leb_ℤ y v) xs)

none_below : (x : ℤ) (xs : List ℤ) → All (λ y. x ≤ℤ y) xs → count (λ y. ltb_ℤ y x) xs ≡ 0
none_below x [] a = refl
none_below x (y ∷ ys) (h, a) = ground (arith, none_below x ys a, h)

All-get_elem? :
    (P : ℤ → Type 0) (xs : List ℤ) (i : ℕ) {v : ℤ} → All P xs → get_elem? xs i ≡ some v → P v
All-get_elem? P [] i a e = absurd (cc)
All-get_elem? P (x ∷ xs) zero {v} (p, a) e = let same : x ≡ v = cc in subst P same p
All-get_elem? P (x ∷ xs) (suc i) (p, a) e = All-get_elem? P xs i a e

sorted-IsRanked :
    (xs : List ℤ) (i : ℕ) (v : ℤ) → IsSorted xs → get_elem? xs i ≡ some v → IsRanked i v xs
sorted-IsRanked [] i v s e = absurd (cc)
sorted-IsRanked (x ∷ xs) zero v (a, s) e =
    let same : x ≡ v = cc in
    subst (λ w. IsRanked 0 w (x ∷ xs)) same (ground (arith, none_below x xs a))
sorted-IsRanked (x ∷ xs) (suc i) v (a, s) e =
    let (l, g) = sorted-IsRanked xs i v s e in
    let below : x ≤ℤ v = All-get_elem? (λ y. x ≤ℤ y) xs i a e in
    (ground (arith, l), ground (arith, g, below))

in_range : (xs : List ℤ) (i : ℕ) → i < length xs → (v : ℤ) × (get_elem? xs i ≡ some v)
in_range [] i h = absurd (omega arith)
in_range (x ∷ xs) zero h = (x, refl)
in_range (x ∷ xs) (suc i) h = in_range xs i (omega arith)

sorted_mono :
    (xs : List ℤ) (i j : ℕ) (v w : ℤ)
    → IsSorted xs
    → i ≤ j
    → get_elem? xs i ≡ some v
    → get_elem? xs j ≡ some w
    → v ≤ℤ w
sorted_mono [] i j v w s h e f = absurd (cc)
sorted_mono (x ∷ xs) zero zero v w s h e f =
    let same : v ≡ w = cc in subst (λ z. v ≤ℤ z) same (omega arith)
sorted_mono (x ∷ xs) zero (suc j) v w (a, s) h e f =
    let same : x ≡ v = cc in subst (λ z. z ≤ℤ w) same (All-get_elem? (λ y. x ≤ℤ y) xs j a f)
sorted_mono (x ∷ xs) (suc i) zero v w s h e f = absurd (omega arith)
sorted_mono (x ∷ xs) (suc i) (suc j) v w (a, s) h e f = sorted_mono xs i j v w s (omega arith) e f

percentile_lem :
    (n : ℕ) (sorted : List ℤ) (old : ℤ)
    → index_of n sorted < length sorted
    → get_elem? sorted (index_of n sorted) ≡ some (percentile n sorted old)
percentile_lem n sorted old h =
    let (v, e) = in_range sorted (index_of n sorted) h in e ∙ ap some (sym (ground (arith, e, h)))

module _ (xs : List ℤ) where
  sorted_place :
      (n : ℕ) (old : ℤ)
      → length xs * n / 100 < length xs
      → get_elem? (sort xs) (length xs * n / 100) ≡ some (percentile n (sort xs) old)
  sorted_place n old h =
      let l : length (sort xs) ≡ length xs = (sort_lem xs).1 in
      subst (λ k. get_elem? (sort xs) (k * n / 100) ≡ some (percentile n (sort xs) old)) l
        (percentile_lem n (sort xs) old (rw l h))

  ranked :
      (n : ℕ) (old : ℤ)
      → length xs * n / 100 < length xs
      → IsRanked (length xs * n / 100) (percentile n (sort xs) old) xs
  ranked n old h =
      let v = percentile n (sort xs) old in
      let (sorted, l, c) = sort_lem xs in
      let (a, b) =
        sorted-IsRanked (sort xs) (length xs * n / 100) v sorted (sorted_place n old h) in
      (rw (← c (λ y. ltb_ℤ y v)) a, rw (← c (λ y. leb_ℤ y v)) b)

  ranks_ordered :
      (n k : ℕ) (old older : ℤ)
      → length xs * n / 100 ≤ length xs * k / 100
      → length xs * k / 100 < length xs
      → percentile n (sort xs) old ≤ℤ percentile k (sort xs) older
  ranks_ordered n k old older h g =
      sorted_mono (sort xs) (length xs * n / 100) (length xs * k / 100) _ _ (sort_lem xs).0 h
        (sorted_place n old (omega arith)) (sorted_place k older g)

-- The three percentiles of a list that is not empty, each with its rank, in their order.
pub record HasPercentiles (xs : List ℤ) (a b c : ℤ) : Type 0 where
  pub median : IsRanked (length xs * 50 / 100) a xs
  pub high : IsRanked (length xs * 95 / 100) b xs
  pub highest : IsRanked (length xs * 99 / 100) c xs
  pub ordered : (a ≤ℤ b) × (b ≤ℤ c)

-- The percentiles of samples of which there is one at least: at most as many of the samples are smaller
-- than the 50th, the 95th or the 99th percentile as its part of their number, and more than that are not
-- greater; and the three are in order.
pub update_percentiles-HasPercentiles :
    (t : DurationTracker)
    → 0 < length t.samples
    → let u = update_percentiles t in HasPercentiles t.samples u.p50 u.p95 u.p99
unfolding update_percentiles
update_percentiles-HasPercentiles t h =
    if-cases {A = DurationTracker} (λ u. HasPercentiles t.samples u.p50 u.p95 u.p99)
      (length t.samples == 0) (λ e. absurd (ground arith))
      (λ e. record {
        median = ranked t.samples 50 t.p50 (omega arith);
        high = ranked t.samples 95 t.p95 (omega arith);
        highest = ranked t.samples 99 t.p99 (omega arith);
        ordered = (
          ranks_ordered t.samples 50 95 t.p50 t.p95 (omega arith) (omega arith),
          ranks_ordered t.samples 95 99 t.p95 t.p99 (omega arith) (omega arith),
        );
      })
