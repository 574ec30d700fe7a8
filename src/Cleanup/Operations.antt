-- ===== src/Cleanup/Operations.antt =====
-- The operations of internal/diagnostics/resource_cleanup.go that run a cleanup. `none` as the outcome of
-- a call is a panic in its goroutine: a batch size or a number of concurrent cleanups below zero, when
-- there is something to clean. A call is one step: what others track or untrack while it runs is left out.
use docker_net_doctor.Prelude.{
  ℕ, zero, suc, ◌+◌, ◌-◌, Bool, true, false, not, ◌&&◌, ◌||◌, Option, none, some, List, [], ◌∷◌,
  ◌++◌, map, length, take, drop, keep, ltb, ◌==◌, if◌then◌else◌,
}
use docker_net_doctor.Prelude.Int.{ℤ, pos, pos_part, ltb_ℤ, eqb_ℤ, quot, scale, ◌+ℤ◌}
use docker_net_doctor.Prelude.Clock.{time_sub}
use docker_net_doctor.Prelude.Dict.{lookup, insert}
use docker_net_doctor.Prelude.Schedule.{arrange}
use docker_net_doctor.Prelude.Text.{Text, codes, text_eq}
use docker_net_doctor.Prelude.Float.{Float64}
use docker_net_doctor.Errors.{ErrorCode-eq, DiagnosticError, Error, plain, error_text}
use docker_net_doctor.Cleanup.{
  container_type, network_type, volume_type, type_string, TrackedResource, CleanupTrigger,
  error_recovery, manual, emergency, on_shutdown, removed, skipped, failed, is_removed,
  ResourceCleanupResult, CleanupOperation, CleanupMetrics, ResourceCleanupManager, manual_strategy,
  select_cleanup_strategy, Clocks, get_resources_for_cleanup, get_all_tracked_resources,
  get_temporary_resources, untrack_resource,
}

-- What one cleanup meets: the clock, the context after each batch, and for each batch the orders in
-- which its goroutines send their results and their errors.
pub record Surroundings : Type 0 where
  pub started : ℕ
  pub clocks : Clocks
  pub ended : ℕ
  pub now : ℕ  -- in updateCleanupMetrics
  pub done : ℕ → Option Error
  pub results_order : ℕ → List ℕ
  pub errors_order : ℕ → List ℕ

-- The placeholders behind the switch of cleanupResource. The strategy of a container is not used.
abbrev pub cleanup_container : ResourceCleanupManager → TrackedResource → Option Text
cleanup_container m r = if m.has_client then none else some (codes "docker client not available")

abbrev pub cleanup_network : ResourceCleanupManager → TrackedResource → Option Text
cleanup_network m r = if m.has_client then none else some (codes "docker client not available")

abbrev pub cleanup_volume : ResourceCleanupManager → TrackedResource → Option Text
cleanup_volume m r = if m.has_client then none else some (codes "docker client not available")

abbrev pub backup_resource : TrackedResource → Option Text
backup_resource r = none

-- The time is measured by a deferred function after the result has been copied: what is returned has 0.
abbrev base_result : TrackedResource → ResourceCleanupResult
base_result r = record {
  resource = r;
  success = false;
  error = [];
  action = removed;
  time_taken = pos 0;
  size_freed = pos 0;
}

abbrev pub concluded : TrackedResource → Option Text → ResourceCleanupResult
concluded r none = record (base_result r) { success = true; action = removed }
concluded r (some e) = record (base_result r) { success = false; error = e; action = failed }

-- cleanupResource up to the untracking.
unfoldable pub result_of : ResourceCleanupManager → TrackedResource → ResourceCleanupResult
result_of m r =
    let by_type : ResourceCleanupResult =
      if eqb_ℤ (r.type) container_type
      then concluded r (cleanup_container m r)
      else if eqb_ℤ (r.type) network_type
      then concluded r (cleanup_network m r)
      else if eqb_ℤ (r.type) volume_type
      then concluded r (cleanup_volume m r)
      else record (base_result r) { error = codes "unsupported resource type"; action = skipped } in
    let backed : ResourceCleanupResult =
      if m.config.backup_before_cleanup
      then (elim (backup_resource r) [
        | some e ↦ record (base_result r) { error = codes "backup failed: " ++ e; action = failed }
        | none ↦ by_type
      ])
      else by_type in
    if m.config.dry_run then record (base_result r) { success = true; action = skipped } else backed

unfoldable pub cleanup_resource :
    TrackedResource → ResourceCleanupManager → ResourceCleanupManager × ResourceCleanupResult
unfolding result_of
cleanup_resource r m =
    let result = result_of m r in
    (
      if result.success && is_removed result.action then untrack_resource r.id r.type m else m,
      result,
    )

-- The goroutines of a batch, each with its result. They only read the settings and untrack resources.
unfoldable pub cleanup_all :
    List TrackedResource
    → ResourceCleanupManager
    → ResourceCleanupManager × List ResourceCleanupResult
unfolding cleanup_resource
cleanup_all [] m = (m, [])
cleanup_all (r ∷ rs) m =
    let (t, result) = cleanup_resource r m in
    let (u, results) = cleanup_all rs t in (u, result ∷ results)

abbrev pub is_error : ResourceCleanupResult → Bool
is_error r = not r.success && not (text_eq r.error [])

abbrev pub cleanup_error : ResourceCleanupResult → Text
cleanup_error r =
    codes "failed to cleanup "
    ++ type_string (r.resource).type
    ++ codes " "
    ++ (r.resource).id
    ++ codes ": "
    ++ r.error

unfoldable pub process_batch :
    Surroundings
    → ℕ
    → List TrackedResource
    → ResourceCleanupManager
    → ResourceCleanupManager × List ResourceCleanupResult × List Text
unfolding cleanup_all
process_batch env i batch m =
    let (t, results) = cleanup_all batch m in
    (
      t,
      arrange (env.results_order i) results,
      arrange (env.errors_order i) (map cleanup_error (keep is_error results)),
    )

abbrev pub increment : ℤ → List (ℤ × ℕ) → List (ℤ × ℕ)
increment k m = insert k (elim (lookup k m) [ none ↦ 1 | some n ↦ n + 1 ]) m

abbrev pub counted : ResourceCleanupResult → CleanupMetrics → CleanupMetrics
counted r s =
    if r.success
    then record s {
      resources_cleaned_up = s.resources_cleaned_up + 1;
      cleanups_by_type = increment (r.resource).type s.cleanups_by_type;
      storage_freed = s.storage_freed +ℤ r.size_freed;
    }
    else record s { resources_skipped = s.resources_skipped + 1 }

unfoldable pub count_results : List ResourceCleanupResult → CleanupMetrics → CleanupMetrics
count_results [] s = s
count_results (r ∷ rs) s = count_results rs (counted r s)

unfoldable pub update_cleanup_metrics :
    ℕ → List ResourceCleanupResult → ResourceCleanupManager → ResourceCleanupManager
unfolding count_results
update_cleanup_metrics now results m =
    let s : CleanupMetrics =
      count_results results
        (record (m.metrics) { total_cleanups = (m.metrics).total_cleanups + 1 }) in
    record m {
      metrics =
          if length (keep (λ r. r.success) results) == length results
          then record s {
            successful_cleanups = s.successful_cleanups + 1;
            last_successful_cleanup = now;
          }
          else record s { failed_cleanups = s.failed_cleanups + 1 };
    }

-- A setting of 0 stands for the default.
abbrev pub or_default : ℤ → ℕ → ℕ
or_default setting default = if eqb_ℤ setting (pos 0) then default else pos_part setting

abbrev pub batch_size : ResourceCleanupManager → ℕ
batch_size m = or_default m.config.cleanup_batch_size 10

-- resources[0:negative] and make(chan struct{}, negative), both met in the first round of the loop.
abbrev pub panics : ResourceCleanupManager → Bool
panics m =
    ltb_ℤ m.config.cleanup_batch_size (pos 0) || ltb_ℤ m.config.max_concurrent_cleanups (pos 0)

-- What the loop over the batches has: the manager, the results, the errors, and the error of a context
-- that is done.
pub record Progress : Type 0 where
  pub manager : ResourceCleanupManager
  pub results : List ResourceCleanupResult
  pub errors : List Text
  pub interrupted : Option Error

abbrev pub after_batch : Surroundings → ℕ → List TrackedResource → Progress → Progress
after_batch env i batch p =
    let (m, results, errors) = process_batch env i batch p.manager in
    record {
      manager = m;
      results = p.results ++ results;
      errors = p.errors ++ errors;
      interrupted = env.done i;
    }

-- The loop of executeCleanup from batch `i` on, with the rounds and the resources that are left.
unfoldable pub run_batches : Surroundings → ℕ → ℕ → ℕ → List TrackedResource → Progress → Progress
unfolding process_batch
run_batches env size rounds i [] p = p
run_batches env size zero i (r ∷ rs) p = p
run_batches env size (suc rounds) i (r ∷ rs) p =
    let q = after_batch env i (take size (r ∷ rs)) p in
    let more = run_batches env size rounds (i + 1) (drop size (r ∷ rs)) q in
    elim (q.interrupted) [ some e ↦ q | none ↦ more ]

module _ (show_int : ℤ → Text) where
  abbrev pub errors_error : List Text → Option Error
  errors_error [] = none
  errors_error (e ∷ es) = some (
      plain (
        codes "cleanup completed with "
        ++ show_int (pos (length (e ∷ es)))
        ++ codes " errors: "
        ++ e))

  abbrev pub completed :
      Surroundings → Progress → ResourceCleanupManager × List ResourceCleanupResult × Option Error
  completed env p = elim (p.interrupted) [
    | some e ↦ (p.manager, p.results, some e)
    | none ↦ (update_cleanup_metrics env.now p.results p.manager, p.results, errors_error p.errors)
  ]

  abbrev pub no_progress : ResourceCleanupManager → Progress
  no_progress m = record { manager = m; results = []; errors = []; interrupted = none }

  unfoldable pub execute_cleanup :
      Surroundings
      → List TrackedResource
      → ResourceCleanupManager
      → Option (ResourceCleanupManager × List ResourceCleanupResult × Option Error)
  unfolding run_batches update_cleanup_metrics
  execute_cleanup env resources m =
      let run =
        completed env
          (run_batches env (batch_size m) (length resources) 0 resources (no_progress m)) in
      if ltb 0 (length resources) && panics m then none else some run

  abbrev pub max_history : ℕ
  max_history = 100

  abbrev pub latest {ℓ} : {A : Type ℓ} → List A → List A
  latest h = if ltb max_history (length h) then drop (length h - max_history) h else h

  abbrev pub error_of : Option Error → Text
  error_of none = []
  error_of (some e) = error_text show_int e

  abbrev pub is_nil : Option Error → Bool
  is_nil none = true
  is_nil (some e) = false

  unfoldable pub record_cleanup_operation :
      CleanupOperation → ResourceCleanupManager → ResourceCleanupManager
  record_cleanup_operation o m = record m {
    cleanup_history = latest (m.cleanup_history ++ (o ∷ []));
  }

  -- What the four cleanups do with the resources that they have chosen.
  unfoldable pub clean_and_record :
      CleanupTrigger
      → Bool
      → Surroundings
      → List TrackedResource
      → ResourceCleanupManager
      → Option (ResourceCleanupManager × Option Error)
  unfolding execute_cleanup record_cleanup_operation
  clean_and_record trigger dry env resources m =
      let operation : List ResourceCleanupResult → Option Error → CleanupOperation = λ results e.
        record {
          start_time = env.started;
          end_time = env.ended;
          duration = time_sub env.ended env.started;
          trigger = trigger;
          resources = resources;
          results = results;
          success = is_nil e;
          error = error_of e;
          dry_run = dry;
        } in
      elim (execute_cleanup env resources m) [
        | none ↦ none
        | some (t, results, e) ↦ some (record_cleanup_operation (operation results e) t, e)
      ]

  unfoldable pub cleanup_after_error :
      DiagnosticError
      → Surroundings
      → ResourceCleanupManager
      → Option (ResourceCleanupManager × Option Error)
  unfolding clean_and_record
  cleanup_after_error d env m =
      let strategy = select_cleanup_strategy d m.config in
      if not m.config.auto_cleanup
      then some (m, none)
      else clean_and_record error_recovery m.config.dry_run env
          (get_resources_for_cleanup env.clocks strategy m) m

  unfoldable pub perform_cleanup :
      Surroundings → ResourceCleanupManager → Option (ResourceCleanupManager × Option Error)
  unfolding clean_and_record
  perform_cleanup env m =
      clean_and_record manual m.config.dry_run env
        (get_resources_for_cleanup env.clocks (manual_strategy m.config) m) m

  -- The next two choose without a strategy: theirs only reaches cleanupContainer, which does not use it.
  unfoldable pub perform_aggressive_cleanup :
      Surroundings → ResourceCleanupManager → Option (ResourceCleanupManager × Option Error)
  unfolding clean_and_record
  perform_aggressive_cleanup env m =
      clean_and_record emergency m.config.dry_run env (get_all_tracked_resources m) m

  unfoldable pub perform_final_cleanup :
      Surroundings → ResourceCleanupManager → Option (ResourceCleanupManager × Option Error)
  unfolding clean_and_record
  perform_final_cleanup env m = clean_and_record on_shutdown false env (get_temporary_resources m) m

  unfoldable pub shutdown :
      Surroundings → ResourceCleanupManager → Option (ResourceCleanupManager × Option Error)
  unfolding perform_final_cleanup
  shutdown env m =
      let final = perform_final_cleanup env (record m { stopped = true }) in
      if m.stopped then some (m, none) else final

module _ (fl : Float64) where
  unfoldable pub is_healthy : ℕ → ResourceCleanupManager → Bool
  is_healthy now m =
      let s = m.metrics in
      let rate =
        fl.div (fl.of_int (pos s.successful_cleanups)) (fl.of_int (pos s.total_cleanups)) in
      if s.total_cleanups == 0
      then true
      else if fl.lt rate (fl.decimal 7 1)
      then false
      else not (
          m.config.enable_periodic_cleanup
          && ltb_ℤ (scale m.config.periodic_cleanup_interval 2)
              (time_sub now s.last_successful_cleanup))

  pub record MetricsReport : Type 0 where
    pub counts : CleanupMetrics
    pub average_cleanup_time : ℤ
    pub cleanup_efficiency : fl.Float
    pub healthy : Bool

  unfoldable pub get_metrics : ℕ → ResourceCleanupManager → MetricsReport
  unfolding is_healthy
  get_metrics now m =
      let s = m.metrics in
      let n = s.total_cleanups in
      record {
        counts = s;
        average_cleanup_time = if ltb 0 n then quot s.total_cleanup_time n else pos 0;
        cleanup_efficiency =
            if ltb 0 n
            then fl.div (fl.of_int (pos s.successful_cleanups)) (fl.of_int (pos n))
            else fl.decimal 0 0;
        healthy = is_healthy now m;
      }
