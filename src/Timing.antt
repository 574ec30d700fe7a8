-- ===== src/Timing.antt =====
-- internal/diagnostics/timing_storage.go: the bounded store of timing measurements, a circular buffer
-- with three indexes. A `*TimingData` is its address, with 0 for nil; the section's `at` reads the
-- record at an address, which does not change once it is stored. Each method holds the lock.
pub mod Buffer
pub mod Chronology
pub mod Steps
pub mod Window
pub mod Counts
pub mod Indexes
mod Tests
use docker_net_doctor.Prelude.{
  ℕ, zero, suc, ◌+◌, ◌-◌, ◌%◌, Bool, true, false, not, ◌&&◌, Option, none, some, List, [], ◌∷◌,
  ◌++◌, ◌==◌, ltb, leb, if◌then◌else◌, length, take, set, get_or, map, keep, ◌↔◌, ◌≡◌,
}
use docker_net_doctor.Prelude.Int.{ℤ, pos, leb_ℤ, ltb_ℤ, pos_part, eqb_ℤ, eqb_ℤ_iff}
use docker_net_doctor.Prelude.Dict.{Eq, lookup, insert}
use docker_net_doctor.Prelude.Text.{Text, text_eq, Text-eq}

instance abbrev pub ℤ-eq : Eq ℤ
ℤ-eq = record { beq = eqb_ℤ; beq_iff = eqb_ℤ_iff }

-- The fields that the store reads.
pub record TimingData : Type 0 where
  pub name : Text
  pub start_time : ℕ
  pub end_time : ℕ
  pub duration : ℤ
  pub category : Text
  pub check_name : Text
  pub worker_id : ℤ
  pub success : Bool

abbrev pub Pointer : Type 0
Pointer = ℕ

abbrev pub is_nil : Pointer → Bool
is_nil p = p == 0

-- MaxProfileDataPoints.
abbrev pub max_profile_data_points : ℕ
max_profile_data_points = 10000

pub record TimingStorage : Type 0 where
  pub measurements : List Pointer
  pub max_size : ℕ
  pub current_index : ℕ
  pub wrapped : Bool
  pub by_category : List (Text × List Pointer)
  pub by_check : List (Text × List Pointer)
  pub by_worker : List (ℤ × List Pointer)

pub new_timing_storage : ℤ → TimingStorage
new_timing_storage max_size = record {
  measurements = [];
  max_size = if leb_ℤ max_size (pos 0) then max_profile_data_points else pos_part max_size;
  current_index = 0;
  wrapped = false;
  by_category = [];
  by_check = [];
  by_worker = [];
}

-- The index at which removeTimingFromSlice finds a pointer.
index_of : Pointer → List Pointer → Option ℕ
index_of p [] = none
index_of p (q ∷ qs) =
    let later : Option ℕ = elim (index_of p qs) [ none ↦ none | some i ↦ some (suc i) ] in
    if q == p then some 0 else later

-- slice[i] = slice[len(slice)-1]; slice = slice[:len(slice)-1].
swap_remove : ℕ → List Pointer → List Pointer
swap_remove i qs = take (length qs - 1) (set qs i (get_or qs (length qs - 1) 0))

module _ {ℓ} {K : Type ℓ} ⦃e : Eq K⦄ where
  -- The slice of a key, nil where there is none.
  pub slice_of : K → List (K × List Pointer) → List Pointer
  slice_of k m = elim (lookup k m) [ none ↦ [] | some qs ↦ qs ]

  pub add_to_index : K → Pointer → List (K × List Pointer) → List (K × List Pointer)
  unfolding slice_of
  add_to_index k p m = insert k (slice_of k m ++ p ∷ []) m

  pub remove_timing_from_slice : K → Pointer → List (K × List Pointer) → List (K × List Pointer)
  unfolding slice_of index_of swap_remove
  remove_timing_from_slice k p m = elim (index_of p (slice_of k m)) [
    | none ↦ m
    | some i ↦ insert k (swap_remove i (slice_of k m)) m
  ]

module _ (at : Pointer → TimingData) where
  abbrev pub named : Text → Bool
  named t = not (text_eq t [])

  abbrev pub counted : ℤ → Bool
  counted w = leb_ℤ (pos 0) w

  pub add_to_indexes : Pointer → TimingStorage → TimingStorage
  unfolding add_to_index
  add_to_indexes p ts = record ts {
    by_category =
        if named (at p).category
        then add_to_index (at p).category p ts.by_category
        else ts.by_category;
    by_check =
        if named (at p).check_name
        then add_to_index (at p).check_name p ts.by_check
        else ts.by_check;
    by_worker =
        if counted (at p).worker_id
        then add_to_index (at p).worker_id p ts.by_worker
        else ts.by_worker;
  }

  pub remove_from_indexes : Pointer → TimingStorage → TimingStorage
  unfolding remove_timing_from_slice
  remove_from_indexes p ts = record ts {
    by_category =
        if named (at p).category
        then remove_timing_from_slice (at p).category p ts.by_category
        else ts.by_category;
    by_check =
        if named (at p).check_name
        then remove_timing_from_slice (at p).check_name p ts.by_check
        else ts.by_check;
    by_worker =
        if counted (at p).worker_id
        then remove_timing_from_slice (at p).worker_id p ts.by_worker
        else ts.by_worker;
  }

  -- The branch of Store that overwrites the oldest entry.
  pub overwrite : Pointer → TimingStorage → TimingStorage
  overwrite p ts =
      let i = (ts.current_index + 1) % ts.max_size in
      let old = get_or ts.measurements i 0 in
      let t = if is_nil old then ts else remove_from_indexes old ts in
      record t { current_index = i; measurements = set t.measurements i p; wrapped = true }

  pub append : Pointer → TimingStorage → TimingStorage
  append p ts = record ts {
    measurements = ts.measurements ++ p ∷ [];
    current_index = length ts.measurements;
  }

  pub store : Pointer → TimingStorage → TimingStorage
  store p ts =
      if is_nil p
      then ts
      else add_to_indexes p
          (if ltb (length ts.measurements) ts.max_size then append p ts else overwrite p ts)

  pub clear : TimingStorage → TimingStorage
  clear ts = record ts {
    measurements = [];
    current_index = 0;
    wrapped = false;
    by_category = [];
    by_check = [];
    by_worker = [];
  }
