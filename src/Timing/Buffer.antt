-- ===== src/Timing/Buffer.antt =====
-- The readers of internal/diagnostics/timing_storage.go.
use docker_net_doctor.Prelude.{
  ℕ, zero, suc, ◌+◌, ◌%◌, Bool, not, ◌&&◌, Option, none, some, List, [], ◌∷◌, ◌==◌, ltb, leb,
  if◌then◌else◌, length, get_or, map, keep,
}
use docker_net_doctor.Prelude.Int.{ℤ}
use docker_net_doctor.Prelude.Dict.{lookup}
use docker_net_doctor.Prelude.Text.{Text, Text-eq}
use docker_net_doctor.Timing.{Pointer, is_nil, TimingData, TimingStorage, ℤ-eq}

-- `none` is a nil pointer.
unfoldable pub get_latest : TimingStorage → Option Pointer
get_latest ts =
    if length ts.measurements == 0 then none else some (get_or ts.measurements ts.current_index 0)

abbrev pub not_nil : Pointer → Bool
not_nil p = not (is_nil p)

-- The loop of GetAll after a wrap, with the rounds that are left and the offset from the start.
unfoldable pub collect : List Pointer → ℕ → ℕ → ℕ → ℕ → List Pointer
collect ms max start zero i = []
collect ms max start (suc rounds) i =
    let p = get_or ms ((start + i) % max) 0 in
    let rest = collect ms max start rounds (i + 1) in if is_nil p then rest else p ∷ rest

unfoldable pub get_all : TimingStorage → List Pointer
unfolding collect
get_all ts =
    if ts.wrapped
    then collect ts.measurements ts.max_size ((ts.current_index + 1) % ts.max_size) ts.max_size 0
    else keep not_nil ts.measurements

-- `none` is a nil slice: the key has never been stored.
unfoldable pub get_by_category : Text → TimingStorage → Option (List Pointer)
get_by_category c ts = lookup c ts.by_category

unfoldable pub get_by_check : Text → TimingStorage → Option (List Pointer)
get_by_check c ts = lookup c ts.by_check

unfoldable pub get_by_worker : ℤ → TimingStorage → Option (List Pointer)
get_by_worker w ts = lookup w ts.by_worker

unfoldable pub size : TimingStorage → ℕ
size ts = length ts.measurements

unfoldable pub capacity : TimingStorage → ℕ
capacity ts = ts.max_size

unfoldable pub is_full : TimingStorage → Bool
is_full ts = leb ts.max_size (length ts.measurements)

module _ (at : Pointer → TimingData) where
  durations_of : List Pointer → List ℤ
  durations_of ms = map (λ p. (at p).duration) (keep not_nil ms)

  pub get_all_durations : TimingStorage → List ℤ
  get_all_durations ts = durations_of ts.measurements

  abbrev indexed_durations : Option (List Pointer) → Option (List ℤ)
  indexed_durations none = none
  indexed_durations (some ms) = some (durations_of ms)

  pub get_check_durations : Text → TimingStorage → Option (List ℤ)
  get_check_durations c ts = indexed_durations (lookup c ts.by_check)

  pub get_category_durations : Text → TimingStorage → Option (List ℤ)
  get_category_durations c ts = indexed_durations (lookup c ts.by_category)

  -- The two times bound the start and the end of a measurement, both included.
  pub get_time_range : ℕ → ℕ → TimingStorage → List Pointer
  get_time_range start end ts =
      keep (λ p. not_nil p && not (ltb (at p).start_time start) && not (ltb end (at p).end_time))
        ts.measurements
