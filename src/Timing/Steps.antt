-- ===== src/Timing/Steps.antt =====
-- What one Store of internal/diagnostics/timing_storage.go does to the buffer in the order of time.
use native.Mathlib.Nat.{mod-lt}
use docker_net_doctor.Prelude.{
  ℕ, zero, suc, ◌+◌, ◌%◌, ◌<◌, ◌≡◌, refl, sym, ap, subst, ◌∙◌, ◌≢◌, inl, inr, true, List, [], ◌∷◌,
  ◌++◌, arith, ltb, if◌then◌else◌, length, take, drop, set, Bool-cases, length-append, length-set,
  length-drop, length-take, ltb→lt,
}
use docker_net_doctor.Timing.{
  Pointer, TimingData, TimingStorage, add_to_indexes, remove_from_indexes, overwrite, append, store,
}
use docker_net_doctor.Timing.Chronology.{NoNil, Inv, rotate, chronological, next_index, rotate-set}

NoNil-append : (ms : List Pointer) (p : Pointer) → NoNil ms → p ≢ 0 → NoNil (ms ++ p ∷ [])
NoNil-append [] p n h = (h, tt)
NoNil-append (q ∷ ms) p (n, ns) h = (n, NoNil-append ms p ns h)

NoNil-set : (ms : List Pointer) (i : ℕ) (p : Pointer) → NoNil ms → p ≢ 0 → NoNil (set ms i p)
NoNil-set [] i p n h = tt
NoNil-set (q ∷ ms) zero p (n, ns) h = (h, ns)
NoNil-set (q ∷ ms) (suc i) p (n, ns) h = (n, NoNil-set ms i p ns h)

module _ (at : Pointer → TimingData) where
  append-max :
      (p : Pointer) (ts : TimingStorage)
      → (add_to_indexes at p (append at p ts)).max_size ≡ ts.max_size
  unfolding add_to_indexes append
  append-max p ts = refl

  append-Inv :
      (p : Pointer) (ts : TimingStorage)
      → p ≢ 0
      → Inv ts
      → length ts.measurements < ts.max_size
      → Inv (add_to_indexes at p (append at p ts))
        × (chronological (add_to_indexes at p (append at p ts)) ≡ chronological ts ++ p ∷ [])
  unfolding add_to_indexes append chronological
  append-Inv p ts h v room =
      ground
        (arith, NoNil-append ts.measurements p v.no_nil h, length-append ts.measurements (p ∷ []))

  pub overwritten :
      (p : Pointer) (ts : TimingStorage)
      → let t = add_to_indexes at p (overwrite at p ts) in
        let i = (ts.current_index + 1) % ts.max_size in
        (t.measurements ≡ set ts.measurements i p)
        × (t.current_index ≡ i)
        × (t.wrapped ≡ true)
        × (t.max_size ≡ ts.max_size)
  unfolding add_to_indexes overwrite remove_from_indexes
  overwritten p ts = ground arith

  -- What a storage of these fields reads as.
  of_fields :
      (t : TimingStorage) (ms : List Pointer) (i : ℕ)
      → t.measurements ≡ ms
      → t.current_index ≡ i
      → t.wrapped ≡ true
      → chronological t ≡ rotate (i + 1) ms
  unfolding chronological
  of_fields t ms i m c w = ground arith

  overwrite-Inv :
      (p : Pointer) (ts : TimingStorage)
      → p ≢ 0
      → Inv ts
      → length ts.measurements ≡ ts.max_size
      → Inv (add_to_indexes at p (overwrite at p ts))
        × (chronological (add_to_indexes at p (overwrite at p ts))
            ≡ drop 1 (chronological ts) ++ p ∷ [])
  overwrite-Inv p ts h v full =
      let i = (ts.current_index + 1) % ts.max_size in
      let (m, c, w, x) = overwritten p ts in
      let lt = mod-lt (ts.current_index + 1) v.positive in
      (
        record {
          no_nil = subst NoNil (sym m) (NoNil-set ts.measurements i p v.no_nil h);
          positive = rw x v.positive;
          bounded = omega (arith, ap length m, length-set ts.measurements i p, x);
          at_end = λ e. cc;
          inside = λ e. omega (arith, ap length m, length-set ts.measurements i p, c, lt);
          wrapped_full = λ e. omega (arith, ap length m, length-set ts.measurements i p, x);
        },
        of_fields (add_to_indexes at p (overwrite at p ts)) (set ts.measurements i p) i m c w
            ∙ rotate-set ts.measurements i p (rw full lt)
            ∙ ap (λ t. drop 1 t ++ p ∷ []) (sym (next_index ts v full)),
      )

  pub length-chronological :
      (ts : TimingStorage) → Inv ts → length (chronological ts) ≡ length ts.measurements
  unfolding chronological
  length-chronological ts v = ground (
    arith,
    length-append (drop (ts.current_index + 1) ts.measurements)
        (take (ts.current_index + 1) ts.measurements),
    length-drop (ts.current_index + 1) ts.measurements,
    length-take (ts.current_index + 1) ts.measurements,
  )

  -- Storing a pointer that is not nil appends it, and drops the oldest measurement of a full storage.
  pub store-Inv :
      (p : Pointer) (ts : TimingStorage)
      → p ≢ 0
      → Inv ts
      → Inv (store at p ts)
        × (chronological (store at p ts)
            ≡ (if ltb (length ts.measurements) ts.max_size
                then chronological ts
                else drop 1 (chronological ts))
              ++ p ∷ [])
        × ((store at p ts).max_size ≡ ts.max_size)
  unfolding store
  store-Inv p ts h v = elim (Bool-cases (ltb (length ts.measurements) ts.max_size)) [
    | inl room ↦ ground (arith, append-Inv p ts h v (ltb→lt _ _ room), append-max p ts)
    | inr full ↦
        let e : length ts.measurements ≡ ts.max_size = ground (arith, v.bounded) in
        ground (arith, overwrite-Inv p ts h v e, overwritten p ts)
  ]
