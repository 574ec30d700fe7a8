-- ===== src/Prelude/Latest.antt =====
-- A list that keeps the latest of what is added to it, as many as its bound allows.
use docker_net_doctor.Prelude.{
  ℕ, zero, suc, ◌+◌, ◌-◌, ◌≤◌, ◌≡◌, refl, sym, ap, ◌∙◌, inl, inr, List, [], ◌∷◌, ◌++◌, length, drop,
  leb, if◌then◌else◌, length-append, length-drop, Bool-cases, leb→le, arith,
}

module _ {ℓ} {A : Type ℓ} where
  -- The oldest makes room when the bound is reached.
  unfoldable pub push_latest : ℕ → A → List A → List A
  push_latest bound x xs = (if leb bound (length xs) then drop 1 xs else xs) ++ (x ∷ [])

  drop-suc : (n : ℕ) (xs : List A) → drop 1 (drop n xs) ≡ drop (suc n) xs
  drop-suc zero xs = refl
  drop-suc (suc n) [] = refl
  drop-suc (suc n) (x ∷ xs) = drop-suc n xs

  pub drop-drop : (a b : ℕ) (xs : List A) → drop a (drop b xs) ≡ drop (b + a) xs
  drop-drop a zero xs = let e : a ≡ 0 + a = omega arith in ap (λ n. drop n xs) e
  drop-drop zero (suc b) [] = let e : suc b ≡ suc b + 0 = omega arith in ap (λ n. drop n []) e
  drop-drop (suc a) (suc b) [] =
      let e : suc (b + suc a) ≡ suc b + suc a = omega arith in ap (λ n. drop n []) e
  drop-drop a (suc b) (x ∷ xs) =
      let e : suc (b + a) ≡ suc b + a = omega arith in
      drop-drop a b xs ∙ ap (λ n. drop n (x ∷ xs)) e

  drop-append : (n : ℕ) (xs ys : List A) → n ≤ length xs → drop n (xs ++ ys) ≡ drop n xs ++ ys
  drop-append zero xs ys h = refl
  drop-append (suc n) [] ys h = absurd (omega arith)
  drop-append (suc n) (x ∷ xs) ys h = drop-append n xs ys (omega arith)

  -- From the latest of a list to the latest of the list with one more.
  pub push_latest-drop :
      (bound : ℕ) (x : A) (xs : List A)
      → 1 ≤ bound
      → push_latest bound x (drop (length xs - bound) xs)
        ≡ drop (length (xs ++ (x ∷ [])) - bound) (xs ++ (x ∷ []))
  unfolding push_latest
  push_latest-drop bound x xs b =
      let n = length-append xs (x ∷ []) in
      let l = length-drop (length xs - bound) xs in
      elim (Bool-cases (leb bound (length (drop (length xs - bound) xs)))) [
        | inl y ↦
            let full : bound ≤ length xs = omega (arith, leb→le _ _ y) in
            let e : length (xs ++ (x ∷ [])) - bound ≡ suc (length xs - bound) = omega arith in
            rw (push_latest, y, e)
              (ap (λ l. l ++ (x ∷ [])) (drop-suc (length xs - bound) xs)
                ∙ sym (drop-append (suc (length xs - bound)) xs (x ∷ []) (omega arith)))
        | inr f ↦
            let few : length xs - bound ≡ 0 = ground (arith, l) in
            let few' : length (xs ++ (x ∷ [])) - bound ≡ 0 = ground (arith, l, n) in
            rw (push_latest, f) (rw (few, few') refl)
      ]

  pub length-push_latest :
      (bound : ℕ) (x : A) (xs : List A)
      → 1 ≤ bound
      → length xs ≤ bound
      → length (push_latest bound x xs) ≤ bound
  unfolding push_latest
  length-push_latest bound x xs b h =
      let n = length-append (if leb bound (length xs) then drop 1 xs else xs) (x ∷ []) in
      let d = length-drop 1 xs in ground (arith, n, d)
