-- ===== src/ClientMetrics/Sorting.antt =====
-- The exchange sort of updatePercentiles (internal/docker/client_metrics.go) sorts.
use docker_net_doctor.Prelude.{
  ℕ, zero, suc, ◌+◌, ◌≤◌, ◌≡◌, refl, ap, ◌∙◌, Bool, List, [], ◌∷◌, length, All, if◌then◌else◌,
  if-cases, arith,
}
use docker_net_doctor.Prelude.Int.{ℤ, ltb_ℤ, ◌≤ℤ◌}
use docker_net_doctor.ClientMetrics.{pass, exchange_sort, sort}

-- How many elements pass a test.
abbrev pub count : (ℤ → Bool) → List ℤ → ℕ
count p [] = 0
count p (x ∷ xs) = (if p x then 1 else 0) + count p xs

abbrev pub IsSorted : List ℤ → Type 0
IsSorted [] = Unit
IsSorted (x ∷ xs) = All (λ y. x ≤ℤ y) xs × IsSorted xs

pass-count :
    (p : ℤ → Bool) (x : ℤ) (xs : List ℤ)
    → let (least, rest) = pass x xs in count p (least ∷ rest) ≡ count p (x ∷ xs)
unfolding pass
pass-count p x [] = refl
pass-count p x (y ∷ ys) = ground (arith, pass-count p x ys, pass-count p y ys)

length-pass : (x : ℤ) (xs : List ℤ) → length (pass x xs).1 ≡ length xs
unfolding pass
length-pass x [] = refl
length-pass x (y ∷ ys) = ap suc (length-pass (if ltb_ℤ y x then y else x) ys)

-- The pass leaves at the place what is at most every element after it.
pass-least :
    (x : ℤ) (xs : List ℤ)
    → let (least, rest) = pass x xs in (least ≤ℤ x) × All (λ y. least ≤ℤ y) rest
unfolding pass
pass-least x [] = (omega arith, tt)
pass-least x (y ∷ ys) =
    let (l, a) = pass-least (if ltb_ℤ y x then y else x) ys in (ground arith, (ground arith, a))

All-pass :
    (P : ℤ → Type 0) (x : ℤ) (xs : List ℤ)
    → P x
    → All P xs
    → let (least, rest) = pass x xs in P least × All P rest
unfolding pass
All-pass P x [] p a = (p, tt)
All-pass P x (y ∷ ys) p (q, a) =
    let (l, b) =
      All-pass P (if ltb_ℤ y x then y else x) ys (if-cases P (ltb_ℤ y x) (λ e. q) (λ e. p)) a in
    (l, (if-cases P (ltb_ℤ y x) (λ e. p) (λ e. q), b))

All-exchange_sort : (P : ℤ → Type 0) (n : ℕ) (xs : List ℤ) → All P xs → All P (exchange_sort n xs)
unfolding exchange_sort
All-exchange_sort P zero xs a = a
All-exchange_sort P (suc n) [] a = a
All-exchange_sort P (suc n) (x ∷ xs) (p, a) =
    let (l, b) = All-pass P x xs p a in (l, All-exchange_sort P n (pass x xs).1 b)

exchange_sort-count :
    (p : ℤ → Bool) (n : ℕ) (xs : List ℤ) → count p (exchange_sort n xs) ≡ count p xs
unfolding exchange_sort
exchange_sort-count p zero xs = refl
exchange_sort-count p (suc n) [] = refl
exchange_sort-count p (suc n) (x ∷ xs) =
    omega (arith, exchange_sort-count p n (pass x xs).1, pass-count p x xs)

exchange_sort-IsSorted : (n : ℕ) (xs : List ℤ) → length xs ≤ n → IsSorted (exchange_sort n xs)
unfolding exchange_sort
exchange_sort-IsSorted zero [] h = tt
exchange_sort-IsSorted zero (x ∷ xs) h = absurd (omega arith)
exchange_sort-IsSorted (suc n) [] h = tt
exchange_sort-IsSorted (suc n) (x ∷ xs) h =
    let rest = (pass x xs).1 in
    (
      All-exchange_sort (λ y. (pass x xs).0 ≤ℤ y) n rest (pass-least x xs).1,
      exchange_sort-IsSorted n rest (omega (arith, length-pass x xs)),
    )

length-exchange_sort : (n : ℕ) (xs : List ℤ) → length (exchange_sort n xs) ≡ length xs
unfolding exchange_sort
length-exchange_sort zero xs = refl
length-exchange_sort (suc n) [] = refl
length-exchange_sort (suc n) (x ∷ xs) =
    ap suc (length-exchange_sort n (pass x xs).1 ∙ length-pass x xs)

-- The result is sorted, and has as many elements that pass a test as the list, whatever the test.
pub sort_lem :
    (xs : List ℤ)
    → IsSorted (sort xs)
      × (length (sort xs) ≡ length xs)
      × ((p : ℤ → Bool) → count p (sort xs) ≡ count p xs)
unfolding sort
sort_lem xs = (
  exchange_sort-IsSorted (length xs) xs (omega arith),
  length-exchange_sort (length xs) xs,
  λ p. exchange_sort-count p (length xs) xs,
)
