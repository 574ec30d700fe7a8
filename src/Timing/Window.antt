-- ===== src/Timing/Window.antt =====
-- Store of internal/diagnostics/timing_storage.go against a bounded window on the history of all
-- that was stored.
use mathlib.Core.List.{append-nil, append_assoc}
use docker_net_doctor.Prelude.{
  ℕ, zero, suc, ◌-◌, ◌≤◌, ◌<◌, ◌≡◌, refl, sym, ap, subst, ◌∙◌, ◌≢◌, inl, inr, true, false, List, [],
  ◌∷◌, ◌++◌, arith, ltb, if◌then◌else◌, length, drop, keep, Bool-cases, length-append, length-drop,
}
use docker_net_doctor.Prelude.Int.{ℤ}
use docker_net_doctor.Timing.{Pointer, is_nil, TimingData, TimingStorage, new_timing_storage, store}
use docker_net_doctor.Timing.Buffer.{not_nil, get_all, size, capacity}
use docker_net_doctor.Timing.Chronology.{Inv, chronological, get_all-chronological}
use docker_net_doctor.Timing.Steps.{store-Inv, length-chronological}

-- The latest `n` of a list.
abbrev pub latest : ℕ → List Pointer → List Pointer
latest n xs = drop (length xs - n) xs

drop-append_le :
    (k : ℕ) (xs ys : List Pointer) → k ≤ length xs → drop k (xs ++ ys) ≡ drop k xs ++ ys
drop-append_le zero xs ys h = refl
drop-append_le (suc k) [] ys h = elim h [ ]
drop-append_le (suc k) (x ∷ xs) ys h = drop-append_le k xs ys (omega arith)

drop_one-drop : (k : ℕ) (xs : List Pointer) → drop 1 (drop k xs) ≡ drop (suc k) xs
drop_one-drop zero [] = refl
drop_one-drop zero (x ∷ xs) = refl
drop_one-drop (suc k) [] = refl
drop_one-drop (suc k) (x ∷ xs) = drop_one-drop k xs

latest-append :
    (n : ℕ) (xs : List Pointer) (p : Pointer)
    → 0 < n
    → (if ltb (length (latest n xs)) n then latest n xs else drop 1 (latest n xs)) ++ p ∷ []
      ≡ latest n (xs ++ p ∷ [])
latest-append n xs p h = elim (Bool-cases (ltb (length xs) n)) [
  | inl short ↦
      let none_dropped : length xs - n ≡ 0 = ground arith in
      let none_dropped' : length (xs ++ p ∷ []) - n ≡ 0 =
        ground (arith, length-append xs (p ∷ [])) in
      rw (none_dropped, none_dropped', short)
  | inr long ↦
      let full : ltb (length (latest n xs)) n ≡ false =
        ground (arith, length-drop (length xs - n) xs) in
      let one_more : length (xs ++ p ∷ []) - n ≡ suc (length xs - n) =
        ground (arith, length-append xs (p ∷ [])) in
      rw (one_more, full)
        (ap (λ t. t ++ p ∷ []) (drop_one-drop (length xs - n) xs)
          ∙ sym (drop-append_le (suc (length xs - n)) xs (p ∷ []) (ground arith)))
]

module _ (at : Pointer → TimingData) where
  -- The calls of Store with a list of pointers, in order.
  unfoldable pub store_all : List Pointer → TimingStorage → TimingStorage
  store_all [] ts = ts
  store_all (p ∷ ps) ts = store_all ps (store at p ts)

  pub skip_nil : (p : Pointer) (ts : TimingStorage) → is_nil p ≡ true → store at p ts ≡ ts
  unfolding store
  skip_nil p ts nil = rw nil

  pub new-Inv : (max_size : ℤ) → Inv (new_timing_storage max_size)
  unfolding new_timing_storage
  new-Inv max_size = ground arith

  new-chronological :
      (max_size : ℤ)
      → chronological (new_timing_storage max_size)
        ≡ latest (new_timing_storage max_size).max_size []
  unfolding new_timing_storage chronological
  new-chronological max_size = ground arith

  -- One more pointer takes the window from one history to the next.
  store-latest :
      (p : Pointer) (ts : TimingStorage) (hist : List Pointer)
      → p ≢ 0
      → Inv ts
      → chronological ts ≡ latest ts.max_size hist
      → chronological (store at p ts) ≡ latest ts.max_size (hist ++ p ∷ [])
  store-latest p ts hist h v e =
      (store-Inv at p ts h v).1
      ∙ ground (
        arith,
        latest-append ts.max_size hist p v.positive,
        e,
        ap length e,
        length-chronological at ts v,
      )

  keep_nil :
      (p : Pointer) (ps : List Pointer) → is_nil p ≡ true → keep not_nil (p ∷ ps) ≡ keep not_nil ps
  keep_nil p ps nil = ground arith

  keep_there :
      (p : Pointer) (ps hist : List Pointer)
      → is_nil p ≡ false
      → (hist ++ p ∷ []) ++ keep not_nil ps ≡ hist ++ keep not_nil (p ∷ ps)
  keep_there p ps hist there =
      append_assoc hist (p ∷ []) (keep not_nil ps) ∙ ap (◌++◌ hist) (ground arith)

  Window : List Pointer → TimingStorage → TimingStorage → Type 0
  Window hist ts t =
      Inv t × (chronological t ≡ latest ts.max_size hist) × (t.max_size ≡ ts.max_size)

  store_all-latest :
      (ps : List Pointer) (ts : TimingStorage) (hist : List Pointer)
      → Inv ts
      → chronological ts ≡ latest ts.max_size hist
      → Window (hist ++ keep not_nil ps) ts (store_all ps ts)
  unfolding store_all Window
  store_all-latest [] ts hist v e = (v, rw (append-nil hist) e, refl)
  store_all-latest (p ∷ ps) ts hist v e = elim (Bool-cases (is_nil p)) [
    | inl nil ↦
        subst (λ t. Window (hist ++ keep not_nil (p ∷ ps)) ts (store_all ps t))
          (sym (skip_nil p ts nil))
          (subst (λ k. Window (hist ++ k) ts (store_all ps ts)) (sym (keep_nil p ps nil))
            (store_all-latest ps ts hist v e))
    | inr there ↦
        let ne : p ≢ 0 = ground arith in
        let (v', _, x) = store-Inv at p ts ne v in
        let (w, out, y) =
          store_all-latest ps (store at p ts) (hist ++ p ∷ []) v'
            (store-latest p ts hist ne v e ∙ ap (λ n. latest n (hist ++ p ∷ [])) (sym x)) in
        (
          w,
          out
              ∙ ap (λ n. latest n ((hist ++ p ∷ []) ++ keep not_nil ps)) x
              ∙ ap (latest ts.max_size) (keep_there p ps hist there),
          y ∙ x,
        )
  ]

  stored :
      (max_size : ℤ) (ps : List Pointer)
      → let ts = new_timing_storage max_size in Window (keep not_nil ps) ts (store_all ps ts)
  stored max_size ps =
      store_all-latest ps (new_timing_storage max_size) [] (new-Inv max_size)
        (new-chronological max_size)

  -- GetAll after any calls of Store on a new storage returns the latest of the pointers that are not
  -- nil, in the order of the calls, as many as the capacity allows.
  pub get_all-store_all :
      (max_size : ℤ) (ps : List Pointer)
      → let ts = new_timing_storage max_size in
        get_all (store_all ps ts) ≡ latest (capacity ts) (keep not_nil ps)
  unfolding capacity Window
  get_all-store_all max_size ps =
      let (v, e, _) = stored max_size ps in
      get_all-chronological (store_all ps (new_timing_storage max_size)) v ∙ e

  -- The number of measurements never passes the capacity, which no Store changes.
  pub size-store_all :
      (max_size : ℤ) (ps : List Pointer)
      → let ts = store_all ps (new_timing_storage max_size) in
        (size ts ≤ capacity ts) × (capacity ts ≡ capacity (new_timing_storage max_size))
  unfolding size capacity Window
  size-store_all max_size ps = let (v, _, x) = stored max_size ps in (v.bounded, x)
