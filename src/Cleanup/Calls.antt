-- ===== src/Cleanup/Calls.antt =====
-- Sequences of calls of a cleanup manager (internal/diagnostics/resource_cleanup.go), and what the steps of
-- its cleanups keep.
use docker_net_doctor.Prelude.{
  ℕ, zero, suc, ◌+◌, ◌≡◌, ◌≢◌, refl, subst, inl, inr, Bool, true, false, not, ◌&&◌, Option, none,
  some, List, [], ◌∷◌, All, length, take, drop, ltb, arith, Option-cases, if-cases, elim-cases,
  All-append,
}
use docker_net_doctor.Prelude.Int.{ℤ, pos}
use docker_net_doctor.Prelude.Schedule.{All-arrange}
use docker_net_doctor.Prelude.Text.{Text, Text-eq}
use docker_net_doctor.Errors.{DiagnosticError, Error, ErrorCode-eq}
use docker_net_doctor.Cleanup.{
  TrackedResource, CleanupTrigger, CleanupOperation, ResourceCleanupManager, ResourceCleanupResult,
  track_resource, untrack_resource,
}
use docker_net_doctor.Cleanup.Operations.{
  Surroundings, result_of, cleanup_resource, cleanup_all, process_batch, after_batch, panics,
  batch_size, no_progress, Progress, run_batches, update_cleanup_metrics, execute_cleanup,
  record_cleanup_operation, clean_and_record, cleanup_after_error, perform_cleanup,
  perform_aggressive_cleanup, perform_final_cleanup, shutdown,
}

pub data Call : Type 0 where
  track : TrackedResource → Call
  untrack : Text → ℤ → Call
  after_error : DiagnosticError → Surroundings → Call
  manually : Surroundings → Call
  aggressively : Surroundings → Call
  finally : Surroundings → Call
  stop : Surroundings → Call

abbrev pub is_tracking : Call → Bool
is_tracking (track r) = true
is_tracking (untrack id t) = true
is_tracking _ = false

-- A predicate of the outcome, unless it is a panic.
abbrev pub Every {ℓ} : {A : Type ℓ} → (A → Type 0) → Option A → Type 0
Every P none = Unit
Every P (some a) = P a

-- No result says that a size was freed.
abbrev pub IsSizeless : ResourceCleanupResult → Type 0
IsSizeless r = r.size_freed ≡ pos 0

module _ (show_int : ℤ → Text) where
  abbrev manager_of : Option (ResourceCleanupManager × Option Error) → Option ResourceCleanupManager
  manager_of none = none
  manager_of (some (m, e)) = some m

  unfoldable pub call : Call → ResourceCleanupManager → Option ResourceCleanupManager
  call (track r) m = some (track_resource r m)
  call (untrack id t) m = some (untrack_resource id t m)
  call (after_error d env) m = manager_of (cleanup_after_error show_int d env m)
  call (manually env) m = manager_of (perform_cleanup show_int env m)
  call (aggressively env) m = manager_of (perform_aggressive_cleanup show_int env m)
  call (finally env) m = manager_of (perform_final_cleanup show_int env m)
  call (stop env) m = manager_of (shutdown show_int env m)

  -- The calls up to a panic, if there is one.
  unfoldable pub run : List Call → ResourceCleanupManager → Option ResourceCleanupManager
  unfolding call
  run [] m = some m
  run (c ∷ cs) m = elim (call c m) [ none ↦ none | some t ↦ run cs t ]

  -- What the steps of a cleanup keep.
  pub record Keeps (P : ResourceCleanupManager → Type 0) : Type 0 where
    pub cleaned :
        (r : TrackedResource) (m : ResourceCleanupManager) → P m → P (cleanup_resource r m).0
    pub counted_up :
        (now : ℕ) (results : List ResourceCleanupResult) (m : ResourceCleanupManager)
        → All IsSizeless results
        → P m
        → P (update_cleanup_metrics now results m)
    pub recorded :
        (o : CleanupOperation) (m : ResourceCleanupManager)
        → P m
        → P (record_cleanup_operation show_int o m)
    pub stopped_now : (m : ResourceCleanupManager) → P m → P (record m { stopped = true })

  result_of-IsSizeless :
      (r : TrackedResource) (m : ResourceCleanupManager) → IsSizeless (result_of m r)
  unfolding result_of
  result_of-IsSizeless r m = ground arith

  cleanup_resource-IsSizeless :
      (r : TrackedResource) (m : ResourceCleanupManager) → IsSizeless (cleanup_resource r m).1
  unfolding cleanup_resource
  cleanup_resource-IsSizeless r m = result_of-IsSizeless r m

  module _ (P : ResourceCleanupManager → Type 0) (k : Keeps P) where
    cleanup_all-keeps :
        (rs : List TrackedResource) (m : ResourceCleanupManager)
        → P m
        → P (cleanup_all rs m).0 × All IsSizeless (cleanup_all rs m).1
    unfolding cleanup_all
    cleanup_all-keeps [] m h = (h, tt)
    cleanup_all-keeps (r ∷ rs) m h =
        let (t, a) = cleanup_all-keeps rs (cleanup_resource r m).0 (k.cleaned r m h) in
        (t, (cleanup_resource-IsSizeless r m, a))

    after_batch-keeps :
        (env : Surroundings) (i : ℕ) (batch : List TrackedResource) (p : Progress)
        → P p.manager × All IsSizeless p.results
        → let q = after_batch env i batch p in P q.manager × All IsSizeless q.results
    unfolding process_batch
    after_batch-keeps env i batch p (h, a) =
        let (t, b) = cleanup_all-keeps batch p.manager h in
        (
          t,
          All-append IsSizeless p.results _ a
              (All-arrange IsSizeless (env.results_order i) (cleanup_all batch p.manager).1 b),
        )

    run_batches-keeps :
        (env : Surroundings) (size rounds i : ℕ) (rs : List TrackedResource) (p : Progress)
        → P p.manager × All IsSizeless p.results
        → let q = run_batches env size rounds i rs p in P q.manager × All IsSizeless q.results
    unfolding run_batches
    run_batches-keeps env size rounds i [] p h = h
    run_batches-keeps env size zero i (r ∷ rs) p h = h
    run_batches-keeps env size (suc rounds) i (r ∷ rs) p h =
        let q = after_batch env i (take size (r ∷ rs)) p in
        let kept : P q.manager × All IsSizeless q.results =
          after_batch-keeps env i (take size (r ∷ rs)) p h in
        elim-cases {B = Progress} (λ x. P x.manager × All IsSizeless x.results) (env.done i)
          (λ e. run_batches-keeps env size rounds (i + 1) (drop size (r ∷ rs)) q kept) (λ a e. kept)

    execute_cleanup-keeps :
        (env : Surroundings) (rs : List TrackedResource) (m : ResourceCleanupManager)
        → P m
        → Every (λ x. P x.0) (execute_cleanup show_int env rs m)
    unfolding execute_cleanup
    execute_cleanup-keeps env rs m h =
        let q = run_batches env (batch_size m) (length rs) 0 rs (no_progress show_int m) in
        let (t, a) =
          run_batches-keeps env (batch_size m) (length rs) 0 rs (no_progress show_int m) (h, tt) in
        if-cases {A = Option (ResourceCleanupManager × List ResourceCleanupResult × Option Error)}
          (Every (λ x. P x.0)) (ltb 0 (length rs) && panics m) (λ e. tt)
          (λ e.
            elim-cases {B = ResourceCleanupManager × List ResourceCleanupResult × Option Error}
              (λ x. P x.0) q.interrupted (λ n. k.counted_up env.now q.results q.manager a t)
              (λ f n. t))

    pub clean_and_record-keeps :
        (trigger : CleanupTrigger) (dry : Bool) (env : Surroundings) (rs : List TrackedResource)
        (m : ResourceCleanupManager)
        → P m
        → Every (λ x. P x.0) (clean_and_record show_int trigger dry env rs m)
    unfolding clean_and_record
    clean_and_record-keeps trigger dry env rs m h =
        let kept = execute_cleanup-keeps env rs m h in
        elim (Option-cases (execute_cleanup show_int env rs m)) [
          | inl n ↦ rw (clean_and_record, n) tt
          | inr (x, y) ↦
              rw (clean_and_record, y) (k.recorded _ x.0 (subst (Every (λ z. P z.0)) y kept))
        ]

    manager_of-keeps :
        (o : Option (ResourceCleanupManager × Option Error))
        → Every (λ x. P x.0) o
        → Every P (manager_of o)
    manager_of-keeps none h = tt
    manager_of-keeps (some (t, e)) h = h

    pub call-keeps :
        (c : Call) (m : ResourceCleanupManager) → is_tracking c ≡ false → P m → Every P (call c m)
    unfolding call cleanup_after_error perform_cleanup perform_aggressive_cleanup
        perform_final_cleanup shutdown
    call-keeps (track r) m n h = absurd (cc)
    call-keeps (untrack id t) m n h = absurd (cc)
    call-keeps (after_error d env) m n h = manager_of-keeps _ (
        if-cases (Every (λ x. P x.0)) (not m.config.auto_cleanup) (λ e. h)
          (λ e. clean_and_record-keeps _ _ env _ m h))
    call-keeps (manually env) m n h = manager_of-keeps _ (clean_and_record-keeps _ _ env _ m h)
    call-keeps (aggressively env) m n h = manager_of-keeps _ (clean_and_record-keeps _ _ env _ m h)
    call-keeps (finally env) m n h = manager_of-keeps _ (clean_and_record-keeps _ _ env _ m h)
    call-keeps (stop env) m n h = manager_of-keeps _ (
        if-cases (Every (λ x. P x.0)) m.stopped (λ e. h)
          (λ e. clean_and_record-keeps _ _ env _ (record m { stopped = true }) (k.stopped_now m h)))

  -- With settings under which no cleanup panics, every call returns.
  clean_and_record-total :
      (trigger : CleanupTrigger) (dry : Bool) (env : Surroundings) (rs : List TrackedResource)
      (m : ResourceCleanupManager)
      → panics m ≡ false
      → manager_of (clean_and_record show_int trigger dry env rs m) ≢ none
  unfolding clean_and_record execute_cleanup
  clean_and_record-total trigger dry env rs m sound = ground (arith, sound)

  pub call-total : (c : Call) (m : ResourceCleanupManager) → panics m ≡ false → call c m ≢ none
  unfolding call cleanup_after_error perform_cleanup perform_aggressive_cleanup
      perform_final_cleanup shutdown
  call-total (track r) m s = ground arith
  call-total (untrack id t) m s = ground arith
  call-total (after_error d env) m s =
      if-cases (λ o. manager_of o ≢ none) (not m.config.auto_cleanup) (λ e. ground arith)
        (λ e. clean_and_record-total _ _ env _ m s)
  call-total (manually env) m s = clean_and_record-total _ _ env _ m s
  call-total (aggressively env) m s = clean_and_record-total _ _ env _ m s
  call-total (finally env) m s = clean_and_record-total _ _ env _ m s
  call-total (stop env) m s =
      if-cases (λ o. manager_of o ≢ none) m.stopped (λ e. ground arith)
        (λ e. clean_and_record-total _ _ env _ (record m { stopped = true }) s)

  sound-keeps : Keeps (λ m. panics m ≡ false)
  unfolding cleanup_resource update_cleanup_metrics record_cleanup_operation untrack_resource
  sound-keeps = record {
    cleaned = λ r m h. ground (arith, h);
    counted_up = λ now results m a h. h;
    recorded = λ o m h. h;
    stopped_now = λ m h. h;
  }

  pub call_sound :
      (c : Call) (m : ResourceCleanupManager)
      → panics m ≡ false
      → Every (λ t. panics t ≡ false) (call c m)
  unfolding call track_resource untrack_resource
  call_sound (track r) m h = ground (arith, h)
  call_sound (untrack id t) m h = ground (arith, h)
  call_sound (after_error d env) m h = call-keeps _ sound-keeps (after_error d env) m refl h
  call_sound (manually env) m h = call-keeps _ sound-keeps (manually env) m refl h
  call_sound (aggressively env) m h = call-keeps _ sound-keeps (aggressively env) m refl h
  call_sound (finally env) m h = call-keeps _ sound-keeps (finally env) m refl h
  call_sound (stop env) m h = call-keeps _ sound-keeps (stop env) m refl h

  -- An invariant of every call holds after all calls, none of which panics.
  pub run-keeps :
      (P : ResourceCleanupManager → Type 0)
      → ((c : Call) (m : ResourceCleanupManager) → P m → Every P (call c m))
      → (calls : List Call) (m : ResourceCleanupManager) → panics m ≡ false
      → P m
      → (t : ResourceCleanupManager) × ((run calls m ≡ some t) × P t)
  unfolding run
  run-keeps P keeps [] m s h = (m, (refl, h))
  run-keeps P keeps (c ∷ cs) m s h =
      let kept = keeps c m h in
      let sound = call_sound c m s in
      elim (Option-cases (call c m)) [
        | inl n ↦ absurd (call-total c m s n)
        | inr (t, y) ↦
            rw (run, y)
              (run-keeps P keeps cs t (subst (Every (λ u. panics u ≡ false)) y sound)
                (subst (Every P) y kept))
      ]
