-- ===== src/Timing/Indexes.antt =====
-- The three indexes of internal/diagnostics/timing_storage.go against its buffer.
use native.Mathlib.Nat.{mod-lt}
use docker_net_doctor.Prelude.{
  ℕ, ◌+◌, ◌-◌, ◌%◌, ◌<◌, ◌≡◌, refl, sym, ap, subst, ◌≢◌, inl, inr, Bool, true, ◌&&◌, List, [], ◌∷◌,
  ◌++◌, ◌==◌, arith, ltb, if◌then◌else◌, length, set, get_or, Bool-cases,
}
use docker_net_doctor.Prelude.Int.{ℤ}
use docker_net_doctor.Prelude.Dict.{Eq, beq_refl, lookup}
use docker_net_doctor.Prelude.Text.{Text-eq}
use docker_net_doctor.Timing.{
  Pointer, is_nil, TimingData, TimingStorage, new_timing_storage, named, counted, add_to_indexes,
  remove_from_indexes, overwrite, append, store, slice_of, add_to_index, remove_timing_from_slice,
  ℤ-eq,
}
use docker_net_doctor.Timing.Counts.{
  hits, count, if_same, hits-le, count-append, count-set, count-add_to_index, count-remove_timing,
}
use docker_net_doctor.Timing.Chronology.{Inv, get_or-ne}
use docker_net_doctor.Timing.Steps.{store-Inv, overwritten}
use docker_net_doctor.Timing.Window.{store_all, skip_nil, new-Inv}

-- One index, over the pointers that it takes and their keys.
module _ {ℓ} {K : Type ℓ} ⦃e : Eq K⦄ (takes : Pointer → Bool) (key : Pointer → K) where
  -- The slice of each key holds each pointer of that key as often as `n` says, and no other.
  abbrev pub Holds : List (K × List Pointer) → (Pointer → ℕ) → Type ℓ
  Holds m n =
      (k : K) (a : Pointer)
      → count a (slice_of k m) ≡ (if takes a && e.beq (key a) k then n a else 0)

  Holds-add :
      (p : Pointer) (m : List (K × List Pointer)) (n n' : Pointer → ℕ)
      → Holds m n
      → ((a : Pointer) → n' a ≡ n a + hits p a)
      → Holds (if takes p then add_to_index (key p) p m else m) n'
  Holds-add p m n n' h more k a = elim (Bool-cases (p == a)) [
    | inl e' ↦
        let same : p ≡ a = ground arith in
        ground (
          arith,
          h k a,
          more a,
          count-add_to_index a p (key p) k m,
          ap takes same,
          ap (λ q. e.beq (key q) k) same,
        )
    | inr other ↦ ground (arith, h k a, more a, count-add_to_index a p (key p) k m)
  ]

  stands :
      (p : Pointer) (m : List (K × List Pointer)) (n n' : Pointer → ℕ)
      → Holds m n
      → ((a : Pointer) → n' a + hits p a ≡ n a)
      → takes p ≡ true
      → 0 < count p (slice_of (key p) m)
  stands p m n n' h less t = ground (arith, h (key p) p, less p, beq_refl (key p))

  Holds-remove :
      (p : Pointer) (m : List (K × List Pointer)) (n n' : Pointer → ℕ)
      → Holds m n
      → ((a : Pointer) → n' a + hits p a ≡ n a)
      → Holds (if takes p then remove_timing_from_slice (key p) p m else m) n'
  Holds-remove p m n n' h less k a = elim (Bool-cases (p == a)) [
    | inl e' ↦
        let same : p ≡ a = ground arith in
        ground (
          arith,
          h k a,
          less a,
          stands p m n n' h less,
          count-remove_timing a p (key p) k m,
          ap takes same,
          ap (λ q. e.beq (key q) k) same,
        )
    | inr other ↦
        ground (arith, h k a, less a, stands p m n n' h less, count-remove_timing a p (key p) k m)
  ]

module _ (at : Pointer → TimingData) where
  abbrev has_category : Pointer → Bool
  has_category p = named at (at p).category

  abbrev has_check : Pointer → Bool
  has_check p = named at (at p).check_name

  abbrev has_worker : Pointer → Bool
  has_worker p = counted at (at p).worker_id

  -- Each index holds each pointer of its keys as often as `n` says.
  pub record AllHold (ts : TimingStorage) (n : Pointer → ℕ) : Type 0 where
    pub categories : Holds has_category (λ p. (at p).category) ts.by_category n
    pub checks : Holds has_check (λ p. (at p).check_name) ts.by_check n
    pub workers : Holds has_worker (λ p. (at p).worker_id) ts.by_worker n

  abbrev pub IsIndexed : TimingStorage → Type 0
  IsIndexed ts = AllHold ts (λ a. count a ts.measurements)

  AllHold-add :
      (p : Pointer) (ts : TimingStorage) (n n' : Pointer → ℕ)
      → AllHold ts n
      → ((a : Pointer) → n' a ≡ n a + hits p a)
      → AllHold (add_to_indexes at p ts) n'
  unfolding add_to_indexes
  AllHold-add p ts n n' h more = record {
    categories =
        Holds-add has_category (λ q. (at q).category) p ts.by_category n n' h.categories more;
    checks = Holds-add has_check (λ q. (at q).check_name) p ts.by_check n n' h.checks more;
    workers = Holds-add has_worker (λ q. (at q).worker_id) p ts.by_worker n n' h.workers more;
  }

  AllHold-remove :
      (p : Pointer) (ts : TimingStorage) (n n' : Pointer → ℕ)
      → AllHold ts n
      → ((a : Pointer) → n' a + hits p a ≡ n a)
      → AllHold (remove_from_indexes at p ts) n'
  unfolding remove_from_indexes
  AllHold-remove p ts n n' h less = record {
    categories =
        Holds-remove has_category (λ q. (at q).category) p ts.by_category n n' h.categories less;
    checks = Holds-remove has_check (λ q. (at q).check_name) p ts.by_check n n' h.checks less;
    workers = Holds-remove has_worker (λ q. (at q).worker_id) p ts.by_worker n n' h.workers less;
  }

  append-IsIndexed :
      (p : Pointer) (ts : TimingStorage)
      → IsIndexed ts
      → IsIndexed (add_to_indexes at p (append at p ts))
  unfolding add_to_indexes append
  append-IsIndexed p ts h =
      AllHold-add p (append at p ts) (λ a. count a ts.measurements)
        (λ a. count a (ts.measurements ++ p ∷ []))
        (record { categories = h.categories; checks = h.checks; workers = h.workers })
        (λ a. count-append a p ts.measurements)

  -- The indexes that an overwriting Store works on.
  overwrite_indexes :
      (p old : Pointer) (ts : TimingStorage)
      → get_or ts.measurements ((ts.current_index + 1) % ts.max_size) 0 ≡ old
      → old ≢ 0
      → let t = remove_from_indexes at old ts in
        let u = overwrite at p ts in
        (u.by_category ≡ t.by_category) × (u.by_check ≡ t.by_check) × (u.by_worker ≡ t.by_worker)
  unfolding overwrite
  overwrite_indexes p old ts e h = ground arith

  AllHold-of :
      (t u : TimingStorage) (n : Pointer → ℕ)
      → (u.by_category ≡ t.by_category) × (u.by_check ≡ t.by_check) × (u.by_worker ≡ t.by_worker)
      → AllHold t n
      → AllHold u n
  AllHold-of t u n (c, k, w) h = record {
    categories = subst (λ m. Holds has_category (λ q. (at q).category) m n) (sym c) h.categories;
    checks = subst (λ m. Holds has_check (λ q. (at q).check_name) m n) (sym k) h.checks;
    workers = subst (λ m. Holds has_worker (λ q. (at q).worker_id) m n) (sym w) h.workers;
  }

  overwrite-IsIndexed :
      (p : Pointer) (ts : TimingStorage)
      → Inv ts
      → IsIndexed ts
      → length ts.measurements ≡ ts.max_size
      → IsIndexed (add_to_indexes at p (overwrite at p ts))
  overwrite-IsIndexed p ts v h full =
      let ms = ts.measurements in
      let i = (ts.current_index + 1) % ts.max_size in
      let old = get_or ms i 0 in
      let lt : i < length ms = rw full (mod-lt (ts.current_index + 1) v.positive) in
      let left = λ (a : Pointer). count a ms - hits old a in
      let removed =
        AllHold-remove old ts (λ a. count a ms) left h (λ a. omega (arith, hits-le a i ms lt)) in
      let indexes = overwrite_indexes p old ts refl (get_or-ne ms i v.no_nil lt) in
      subst (λ t. AllHold (add_to_indexes at p (overwrite at p ts)) (λ a. count a t))
        (sym (overwritten at p ts).0)
        (AllHold-add p (overwrite at p ts) left (λ a. count a (set ms i p))
          (AllHold-of (remove_from_indexes at old ts) (overwrite at p ts) left indexes removed)
          (λ a. omega (arith, hits-le a i ms lt, count-set a p i ms lt)))

  -- Store keeps every index in step with the buffer, also where it overwrites a measurement.
  store-IsIndexed :
      (p : Pointer) (ts : TimingStorage) → Inv ts → IsIndexed ts → IsIndexed (store at p ts)
  unfolding store
  store-IsIndexed p ts v h = elim (Bool-cases (is_nil p)) [
    | inl nil ↦ rw nil h
    | inr there ↦ elim (Bool-cases (ltb (length ts.measurements) ts.max_size)) [
      | inl room ↦ rw (there, room) (append-IsIndexed p ts h)
      | inr full ↦ rw (there, full) (overwrite-IsIndexed p ts v h (ground (arith, v.bounded)))
    ]
  ]

  store_all-IsIndexed :
      (ps : List Pointer) (ts : TimingStorage)
      → Inv ts
      → IsIndexed ts
      → IsIndexed (store_all at ps ts)
  unfolding store_all
  store_all-IsIndexed [] ts v h = h
  store_all-IsIndexed (p ∷ ps) ts v h = elim (Bool-cases (is_nil p)) [
    | inl nil ↦
        subst (λ t. IsIndexed (store_all at ps t)) (sym (skip_nil at p ts nil))
          (store_all-IsIndexed ps ts v h)
    | inr there ↦
        store_all-IsIndexed ps (store at p ts) (store-Inv at p ts (ground arith) v).0
          (store-IsIndexed p ts v h)
  ]

  -- After any calls of Store on a new storage each index holds exactly the measurements of the buffer
  -- that have a category, a check name, or a worker that is not negative: each under its own key, as
  -- often as it stands in the buffer.
  pub indexes-store_all :
      (max_size : ℤ) (ps : List Pointer) → IsIndexed (store_all at ps (new_timing_storage max_size))
  unfolding new_timing_storage count slice_of lookup
  indexes-store_all max_size ps =
      store_all-IsIndexed ps (new_timing_storage max_size) (new-Inv at max_size) (record {
        categories = λ k a. sym (if_same _ 0);
        checks = λ k a. sym (if_same _ 0);
        workers = λ k a. sym (if_same _ 0);
      })
