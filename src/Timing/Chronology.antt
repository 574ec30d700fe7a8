-- ===== src/Timing/Chronology.antt =====
-- The circular buffer of internal/diagnostics/timing_storage.go in the order of time,
-- oldest first.
use mathlib.Core.List.{append-nil, append_assoc}
use native.Mathlib.Nat.{add-zero, suc-add, zero-add, mod-eq_of_lt, add-mod_right, mod-lt}
use native.Mathlib.Numerals.{add-one}
use docker_net_doctor.Prelude.{
  ℕ, zero, suc, ◌+◌, ◌-◌, ◌%◌, ◌≤◌, ◌<◌, ◌≡◌, refl, sym, ap, ap₂, ◌∙◌, ◌≢◌, ◌⊎◌, inl, inr, true,
  false, List, [], ◌∷◌, ◌++◌, arith, ltb, if◌then◌else◌, length, take, drop, set, get_or, keep, All,
  Bool-cases, ltb→lt, length-drop,
}
use docker_net_doctor.Timing.{Pointer, TimingStorage}
use docker_net_doctor.Timing.Buffer.{not_nil, collect, get_all}

abbrev pub NoNil : List Pointer → Type 0
NoNil ms = All (λ p. p ≢ 0) ms

pub record Inv (ts : TimingStorage) : Type 0 where
  pub no_nil : NoNil ts.measurements
  pub positive : 0 < ts.max_size
  pub bounded : length ts.measurements ≤ ts.max_size
  pub at_end :
      ts.wrapped ≡ false
      → 0 < length ts.measurements
      → ts.current_index + 1 ≡ length ts.measurements
  pub inside : ts.wrapped ≡ true → ts.current_index < length ts.measurements
  pub wrapped_full : ts.wrapped ≡ true → length ts.measurements ≡ ts.max_size

pub get_or-ne : (ms : List Pointer) (i : ℕ) → NoNil ms → i < length ms → get_or ms i 0 ≢ 0
get_or-ne [] i n h = elim h [ ]
get_or-ne (p ∷ ms) zero n h = n.0
get_or-ne (p ∷ ms) (suc i) n h = get_or-ne ms i n.1 (omega arith)

take-drop-suc :
    (ms : List Pointer) (r i : ℕ)
    → i < length ms
    → take (suc r) (drop i ms) ≡ get_or ms i 0 ∷ take r (drop (suc i) ms)
take-drop-suc [] r i h = elim h [ ]
take-drop-suc (p ∷ ms) r zero h = refl
take-drop-suc (p ∷ ms) r (suc i) h = take-drop-suc ms r i (omega arith)

mod_enters : (n k max : ℕ) → k < max → (n ≡ k) ⊎ (n ≡ k + max) → n % max ≡ k
mod_enters n k max h (inl e) = rw e (mod-eq_of_lt h)
mod_enters n k max h (inr e) = rw (e, add-mod_right k max, mod-eq_of_lt h)

-- The loop reads a run of the buffer that it enters at index `k`, before or after the wrap, and
-- leaves within the buffer.
collect_run :
    (ms : List Pointer) (max start r i k : ℕ)
    → NoNil ms
    → length ms ≡ max
    → (start + i ≡ k) ⊎ (start + i ≡ k + max)
    → k + r ≤ max
    → collect ms max start r i ≡ take r (drop k ms)
unfolding collect
collect_run ms max start zero i k n len at h = refl
collect_run ms max start (suc r) i k n len at h = rw (take-drop-suc ms r k (omega arith)) (
    ground (
      arith,
      mod_enters (start + i) k max (omega arith) at,
      get_or-ne ms k n,
      collect_run ms max start r (i + 1) (suc k) n len (onwards at),
    ))
  where
    onwards :
        (start + i ≡ k) ⊎ (start + i ≡ k + max)
        → (start + (i + 1) ≡ suc k) ⊎ (start + (i + 1) ≡ suc k + max)
    onwards (inl e) = inl (omega arith)
    onwards (inr e) = inr (omega arith)

collect-add :
    (ms : List Pointer) (max start r s i : ℕ)
    → collect ms max start (r + s) i ≡ collect ms max start r i ++ collect ms max start s (i + r)
unfolding collect
collect-add ms max start zero s i = rw (zero-add, add-zero)
collect-add ms max start (suc r) s i =
    rw (suc-add, collect) (ground (arith, collect-add ms max start r s (i + 1), shift))
  where
    shift : i + 1 + r ≡ i + suc r
    shift = omega arith

take_all : (ms : List Pointer) (n : ℕ) → length ms ≤ n → take n ms ≡ ms
take_all [] zero h = refl
take_all [] (suc n) h = refl
take_all (p ∷ ms) zero h = elim h [ ]
take_all (p ∷ ms) (suc n) h = ap (◌∷◌ p) (take_all ms n (omega arith))

keep_all : (ms : List Pointer) → NoNil ms → keep not_nil ms ≡ ms
keep_all [] n = refl
keep_all (p ∷ ms) (n, ns) = ground (arith, keep_all ms ns)

-- The buffer read from index `k` on, round to it again.
abbrev pub rotate : ℕ → List Pointer → List Pointer
rotate k ms = drop k ms ++ take k ms

drop_all : (ms : List Pointer) (n : ℕ) → length ms ≤ n → drop n ms ≡ []
drop_all [] zero h = refl
drop_all [] (suc n) h = refl
drop_all (p ∷ ms) zero h = elim h [ ]
drop_all (p ∷ ms) (suc n) h = drop_all ms n (omega arith)

rotate-length : (ms : List Pointer) (n : ℕ) → n ≡ length ms → rotate n ms ≡ ms
rotate-length ms n e = rw (drop_all ms n (omega arith), take_all ms n (omega arith))

-- The measurements of a storage, oldest first.
unfoldable pub chronological : TimingStorage → List Pointer
chronological ts =
    if ts.wrapped then rotate (ts.current_index + 1) ts.measurements else ts.measurements

collect_all :
    (ms : List Pointer) (max start : ℕ)
    → NoNil ms
    → length ms ≡ max
    → start < max
    → collect ms max start max 0 ≡ rotate start ms
collect_all ms max start n len h =
    ap (λ r. collect ms max start r 0) split
    ∙ collect-add ms max start (max - start) start 0
    ∙ ap₂ ◌++◌
        (collect_run ms max start (max - start) 0 start n len (inl (omega arith)) (omega arith)
          ∙ take_all (drop start ms) (max - start) (omega (arith, length-drop start ms)))
        (collect_run ms max start start (0 + (max - start)) 0 n len (inr (omega arith))
          (omega arith))
  where
    split : max ≡ max - start + start
    split = omega arith

rotate_next :
    (ms : List Pointer) (c max : ℕ)
    → length ms ≡ max
    → c < max
    → rotate (c + 1) ms ≡ rotate ((c + 1) % max) ms
rotate_next ms c max len h = elim (Bool-cases (ltb (c + 1) max)) [
  | inl less ↦ ap (λ k. rotate k ms) (sym (mod-eq_of_lt (ltb→lt (c + 1) max less)))
  | inr last ↦
      rotate-length ms (c + 1) (ground arith)
      ∙ sym (append-nil ms)
      ∙ ap (λ k. rotate k ms) (sym (mod_enters (c + 1) 0 max (omega arith) (inr (ground arith))))
]

-- The index that a full storage overwrites next is where its oldest measurement stands.
pub next_index :
    (ts : TimingStorage)
    → Inv ts
    → length ts.measurements ≡ ts.max_size
    → chronological ts ≡ rotate ((ts.current_index + 1) % ts.max_size) ts.measurements
unfolding chronological
next_index ts v full = elim (Bool-cases ts.wrapped) [
  | inl w ↦ ground (
    arith,
    rotate_next ts.measurements ts.current_index ts.max_size full (rw (← full) (v.inside w)),
  )
  | inr w ↦ ground (
    arith,
    rotate_next ts.measurements ts.current_index ts.max_size full
        (let e = v.at_end w (rw full v.positive) in omega arith),
    rotate-length ts.measurements (ts.current_index + 1) (v.at_end w (rw full v.positive)),
  )
]

-- What GetAll returns is the chronological list.
pub get_all-chronological : (ts : TimingStorage) → Inv ts → get_all ts ≡ chronological ts
unfolding get_all
get_all-chronological ts v = elim (Bool-cases ts.wrapped) [
  | inl w ↦ rw (next_index ts v (v.wrapped_full w)) (
      ground (
        arith,
        collect_all ts.measurements ts.max_size ((ts.current_index + 1) % ts.max_size) v.no_nil
            (v.wrapped_full w) (mod-lt (ts.current_index + 1) v.positive),
      ))
  | inr w ↦ unfold chronological in ground (arith, keep_all ts.measurements v.no_nil)
]

drop-set : (ms : List Pointer) (i : ℕ) (p : Pointer) → drop (suc i) (set ms i p) ≡ drop (suc i) ms
drop-set [] i p = refl
drop-set (q ∷ ms) zero p = refl
drop-set (q ∷ ms) (suc i) p = drop-set ms i p

take-set :
    (ms : List Pointer) (i : ℕ) (p : Pointer)
    → i < length ms
    → take (suc i) (set ms i p) ≡ take i ms ++ p ∷ []
take-set [] i p h = elim h [ ]
take-set (q ∷ ms) zero p h = refl
take-set (q ∷ ms) (suc i) p h = ap (◌∷◌ q) (take-set ms i p (omega arith))

drop_one :
    (ms ys : List Pointer) (i : ℕ)
    → i < length ms
    → drop 1 (drop i ms ++ ys) ≡ drop (suc i) ms ++ ys
drop_one [] ys i h = elim h [ ]
drop_one (q ∷ ms) ys zero h = refl
drop_one (q ∷ ms) ys (suc i) h = drop_one ms ys i (omega arith)

-- Overwriting the entry where the reading starts drops it and puts the new one at the end.
pub rotate-set :
    (ms : List Pointer) (i : ℕ) (p : Pointer)
    → i < length ms
    → rotate (i + 1) (set ms i p) ≡ drop 1 (rotate i ms) ++ p ∷ []
rotate-set ms i p h =
    ap (λ k. rotate k (set ms i p)) (add-one i)
    ∙ ap₂ ◌++◌ (drop-set ms i p) (take-set ms i p h)
    ∙ sym (append_assoc (drop (suc i) ms) (take i ms) (p ∷ []))
    ∙ ap (λ t. t ++ p ∷ []) (sym (drop_one ms (take i ms) i h))
