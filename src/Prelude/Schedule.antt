-- ===== src/Prelude/Schedule.antt =====
-- The order in which goroutines that do not wait for one another finish. It is given by a number for each:
-- how many of those that were started after it finish before it. Every order is given by some numbers.
use docker_net_doctor.Prelude.{
  ℕ, zero, suc, ◌≡◌, refl, ◌∙◌, ap, Bool, ◌||◌, List, [], ◌∷◌, any, All, length, arith,
}
use mathlib.Core.List.{Perm}
use mathlib.Core.List.Perm

module _ {ℓ} {A : Type ℓ} where
  insert_at : ℕ → A → List A → List A
  insert_at n x [] = x ∷ []
  insert_at zero x (y ∷ ys) = x ∷ y ∷ ys
  insert_at (suc n) x (y ∷ ys) = y ∷ insert_at n x ys

  -- A goroutine without a number finishes before those that are started after it.
  unfoldable pub arrange : List ℕ → List A → List A
  unfolding insert_at
  arrange order [] = []
  arrange [] (x ∷ xs) = x ∷ arrange [] xs
  arrange (n ∷ order) (x ∷ xs) = insert_at n x (arrange order xs)

  insert_at-perm : (n : ℕ) (x : A) (xs : List A) → Perm (insert_at n x xs) (x ∷ xs)
  unfolding insert_at
  insert_at-perm zero x [] = Perm.refl (x ∷ [])
  insert_at-perm (suc n) x [] = Perm.refl (x ∷ [])
  insert_at-perm zero x (y ∷ ys) = Perm.refl (x ∷ y ∷ ys)
  insert_at-perm (suc n) x (y ∷ ys) =
      Perm.trans (Perm.cons y (insert_at-perm n x ys)) (Perm.swap x y ys)

  pub arrange-perm : (order : List ℕ) (xs : List A) → Perm (arrange order xs) xs
  unfolding arrange
  arrange-perm order [] = Perm.refl []
  arrange-perm [] (x ∷ xs) = Perm.cons x (arrange-perm [] xs)
  arrange-perm (n ∷ order) (x ∷ xs) =
      Perm.trans (insert_at-perm n x (arrange order xs)) (Perm.cons x (arrange-perm order xs))

  length-insert_at : (n : ℕ) (x : A) (xs : List A) → length (insert_at n x xs) ≡ suc (length xs)
  unfolding insert_at
  length-insert_at zero x [] = refl
  length-insert_at (suc n) x [] = refl
  length-insert_at zero x (y ∷ ys) = refl
  length-insert_at (suc n) x (y ∷ ys) = ap suc (length-insert_at n x ys)

  pub length-arrange : (order : List ℕ) (xs : List A) → length (arrange order xs) ≡ length xs
  unfolding arrange
  length-arrange order [] = refl
  length-arrange [] (x ∷ xs) = ap suc (length-arrange [] xs)
  length-arrange (n ∷ order) (x ∷ xs) =
      length-insert_at n x (arrange order xs) ∙ ap suc (length-arrange order xs)

  any-insert_at :
      (p : A → Bool) (n : ℕ) (x : A) (xs : List A) → any p (insert_at n x xs) ≡ (p x || any p xs)
  unfolding insert_at
  any-insert_at p zero x [] = refl
  any-insert_at p (suc n) x [] = refl
  any-insert_at p zero x (y ∷ ys) = refl
  any-insert_at p (suc n) x (y ∷ ys) = rw (any-insert_at p n x ys) (ground arith)

  pub any-arrange :
      (p : A → Bool) (order : List ℕ) (xs : List A) → any p (arrange order xs) ≡ any p xs
  unfolding arrange
  any-arrange p order [] = refl
  any-arrange p [] (x ∷ xs) = rw (any-arrange p [] xs)
  any-arrange p (n ∷ order) (x ∷ xs) =
      rw (any-insert_at p n x (arrange order xs), any-arrange p order xs)

  All-insert_at {κ} :
      (P : A → Type κ) (n : ℕ) (x : A) (xs : List A) → P x → All P xs → All P (insert_at n x xs)
  unfolding insert_at
  All-insert_at P zero x [] p a = (p, tt)
  All-insert_at P (suc n) x [] p a = (p, tt)
  All-insert_at P zero x (y ∷ ys) p a = (p, a)
  All-insert_at P (suc n) x (y ∷ ys) p a = (a.0, All-insert_at P n x ys p a.1)

  pub All-arrange {κ} :
      (P : A → Type κ) (order : List ℕ) (xs : List A) → All P xs → All P (arrange order xs)
  unfolding arrange
  All-arrange P order [] a = tt
  All-arrange P [] (x ∷ xs) a = (a.0, All-arrange P [] xs a.1)
  All-arrange P (n ∷ order) (x ∷ xs) a =
      All-insert_at P n x (arrange order xs) a.0 (All-arrange P order xs a.1)
