-- ===== src/Cleanup/Accounts.antt =====
-- The counters, the history and the maps of a cleanup manager (internal/diagnostics/resource_cleanup.go)
-- after any calls.
use docker_net_doctor.Prelude.{
  ℕ, ◌+◌, ◌-◌, ◌≤◌, ◌≡◌, refl, ◌∙◌, true, false, ◌&&◌, Option, none, some, List, [], ◌∷◌, ◌++◌, All,
  length, arith, length-append, length-drop, if-cases,
}
use docker_net_doctor.Prelude.Int.{ℤ, pos, negsuc, eqb_ℤ, eqb_ℤ_iff, ◌+ℤ◌}
use docker_net_doctor.Prelude.Dict.{lookup, insert, delete, Unique-insert, Unique-delete}
use docker_net_doctor.Prelude.Text.{Text, text_eq, Text-eq}
use docker_net_doctor.Errors.{ErrorCode-eq}
use docker_net_doctor.Cleanup.{
  container_type, network_type, volume_type, TrackedResource, CleanupConfig, CleanupMetrics,
  CleanupOperation, ResourceCleanupManager, ResourceCleanupResult, new_resource_cleanup_manager,
  track_resource, untrack_resource, is_removed, in_map,
}
use docker_net_doctor.Cleanup.Operations.{
  result_of, cleanup_resource, increment, counted, count_results, panics, update_cleanup_metrics,
  record_cleanup_operation, latest,
}
use docker_net_doctor.Cleanup.Single.{Same, untrack_resource-Same}
use docker_net_doctor.Cleanup.Keys.{Keyed, IsKeyed}
use docker_net_doctor.Cleanup.Calls.{
  Call, track, untrack, after_error, manually, aggressively, finally, stop, call, run, Keeps, Every,
  IsSizeless, call-keeps, run-keeps,
}

abbrev pub total_of : List (ℤ × ℕ) → ℕ
total_of [] = 0
total_of ((k, n) ∷ m) = n + total_of m

total_of-insert :
    (k : ℤ) (v : ℕ) (m : List (ℤ × ℕ))
    → total_of (insert k v m) + (elim (lookup k m) [ none ↦ 0 | some n ↦ n ]) ≡ total_of m + v
unfolding lookup insert
total_of-insert k v [] = omega arith
total_of-insert k v ((j, n) ∷ m) = ground (arith, total_of-insert k v m)

total_of-increment : (k : ℤ) (m : List (ℤ × ℕ)) → total_of (increment k m) ≡ total_of m + 1
total_of-increment k m =
    let old : ℕ = elim (lookup k m) [ none ↦ 1 | some n ↦ n + 1 ] in
    ground (arith, total_of-insert k old m)

pub record IsAccounted (m : ResourceCleanupManager) : Type 0 where
  pub cleanups :
      m.metrics.total_cleanups ≡ m.metrics.successful_cleanups + m.metrics.failed_cleanups
  pub by_type : total_of m.metrics.cleanups_by_type ≡ m.metrics.resources_cleaned_up
  pub history : length m.cleanup_history ≤ 100
  pub untimed : m.metrics.total_cleanup_time ≡ pos 0
  pub unfreed : m.metrics.storage_freed ≡ pos 0
  pub keyed : IsKeyed m

+ℤ_zero : (a : ℤ) → a +ℤ pos 0 ≡ a
+ℤ_zero (pos n) = ground arith
+ℤ_zero (negsuc n) = ground arith

-- What counting results changes.
record Counted (s t : CleanupMetrics) : Type 0 where
  totals : t.total_cleanups ≡ s.total_cleanups
  successes : t.successful_cleanups ≡ s.successful_cleanups
  failures : t.failed_cleanups ≡ s.failed_cleanups
  times : t.total_cleanup_time ≡ s.total_cleanup_time
  sizes : t.storage_freed ≡ s.storage_freed
  types :
      total_of t.cleanups_by_type + s.resources_cleaned_up
      ≡ total_of s.cleanups_by_type + t.resources_cleaned_up

counted-Counted :
    (r : ResourceCleanupResult) (s : CleanupMetrics) → IsSizeless r → Counted s (counted r s)
counted-Counted r s h = record {
  totals = ground arith;
  successes = ground arith;
  failures = ground arith;
  times = ground arith;
  sizes =
      if-cases {A = CleanupMetrics} (λ (x : CleanupMetrics). x.storage_freed ≡ s.storage_freed)
        r.success (λ e. rw h (+ℤ_zero s.storage_freed)) (λ e. refl);
  types = ground (arith, total_of-increment (r.resource).type s.cleanups_by_type);
}

count_results-Counted :
    (rs : List ResourceCleanupResult) (s : CleanupMetrics)
    → All IsSizeless rs
    → Counted s (count_results rs s)
unfolding count_results
count_results-Counted [] s h = record {
  totals = refl;
  successes = refl;
  failures = refl;
  times = refl;
  sizes = refl;
  types = refl;
}
count_results-Counted (r ∷ rs) s h =
    let a = counted-Counted r s h.0 in
    let b = count_results-Counted rs (counted r s) h.1 in
    record {
      totals = b.totals ∙ a.totals;
      successes = b.successes ∙ a.successes;
      failures = b.failures ∙ a.failures;
      times = b.times ∙ a.times;
      sizes = b.sizes ∙ a.sizes;
      types = omega (arith, a.types, b.types);
    }

-- An entry stands under the identifier of its resource, of the given type.
abbrev IsEntry : ℤ → Text × TrackedResource → Type 0
IsEntry ty e = (e.1.id ≡ e.0) × (e.1.type ≡ ty)

All-insert :
    (r : TrackedResource) (ty : ℤ) (l : List (Text × TrackedResource))
    → r.type ≡ ty
    → All (IsEntry ty) l
    → All (IsEntry ty) (insert r.id r l)
unfolding insert
All-insert r ty [] t a = ((refl, t), tt)
All-insert r ty ((k, u) ∷ l) t (e, more) =
    if-cases (All (IsEntry ty)) (text_eq k r.id) (λ x. ((refl, t), more))
      (λ x. (e, All-insert r ty l t more))

All-delete :
    (id : Text) (ty : ℤ) (l : List (Text × TrackedResource))
    → All (IsEntry ty) l
    → All (IsEntry ty) (delete id l)
unfolding delete
All-delete id ty [] a = tt
All-delete id ty ((k, u) ∷ l) (e, more) =
    if-cases (All (IsEntry ty)) (text_eq k id) (λ x. All-delete id ty l more)
      (λ x. (e, All-delete id ty l more))

-- The change of one map by a function that keeps its entries in order.
in_map-IsKeyed :
    (ty : ℤ) (f : List (Text × TrackedResource) → List (Text × TrackedResource))
    (m : ResourceCleanupManager)
    → ((t : ℤ) (l : List (Text × TrackedResource)) → ty ≡ t → Keyed t l → Keyed t (f l))
    → IsKeyed m
    → IsKeyed (in_map ty f m)
in_map-IsKeyed ty f m keeps k =
    let at : (t : ℤ) (l : List (Text × TrackedResource))
        → eqb_ℤ ty t ≡ true
        → Keyed t l
        → Keyed t (f l) =
      λ t l e h. keeps t l ((eqb_ℤ_iff ty t).0 e) h in
    if-cases IsKeyed (eqb_ℤ ty container_type)
      (λ e. record {
        containers = at container_type _ e k.containers;
        networks = k.networks;
        volumes = k.volumes;
      })
      (λ e.
        if-cases IsKeyed (eqb_ℤ ty network_type)
          (λ g. record {
            containers = k.containers;
            networks = at network_type _ g k.networks;
            volumes = k.volumes;
          })
          (λ g.
            if-cases IsKeyed (eqb_ℤ ty volume_type)
              (λ h. record {
                containers = k.containers;
                networks = k.networks;
                volumes = at volume_type _ h k.volumes;
              })
              (λ h. k)))

track_resource-IsKeyed :
    (r : TrackedResource) (m : ResourceCleanupManager) → IsKeyed m → IsKeyed (track_resource r m)
unfolding track_resource
track_resource-IsKeyed r m k =
    let h =
      in_map-IsKeyed r.type (insert r.id r) m
        (λ t l e (a, u). (All-insert r t l e a, Unique-insert r.id r l u)) k in
    record { containers = h.containers; networks = h.networks; volumes = h.volumes }

untrack_resource-IsKeyed :
    (id : Text) (ty : ℤ) (m : ResourceCleanupManager)
    → IsKeyed m
    → IsKeyed (untrack_resource id ty m)
unfolding untrack_resource
untrack_resource-IsKeyed id ty m =
    in_map-IsKeyed ty (delete id) m (λ t l e (a, u). (All-delete id t l a, Unique-delete id l u))

track_resource-IsAccounted :
    (r : TrackedResource) (m : ResourceCleanupManager)
    → IsAccounted m
    → IsAccounted (track_resource r m)
unfolding track_resource
track_resource-IsAccounted r m h = record {
  cleanups = ground (arith, h.cleanups);
  by_type = ground (arith, h.by_type);
  history = ground (arith, h.history);
  untimed = ground (arith, h.untimed);
  unfreed = ground (arith, h.unfreed);
  keyed = track_resource-IsKeyed r m h.keyed;
}

IsAccounted-Same :
    {m t : ResourceCleanupManager} → Same m t → IsKeyed t → IsAccounted m → IsAccounted t
IsAccounted-Same e k h = record {
  cleanups = rw (e.same_metrics) h.cleanups;
  by_type = rw (e.same_metrics) h.by_type;
  history = rw (e.same_history) h.history;
  untimed = rw (e.same_metrics) h.untimed;
  unfreed = rw (e.same_metrics) h.unfreed;
  keyed = k;
}

update_cleanup_metrics-IsAccounted :
    (now : ℕ) (results : List ResourceCleanupResult) (m : ResourceCleanupManager)
    → All IsSizeless results
    → IsAccounted m
    → IsAccounted (update_cleanup_metrics now results m)
unfolding update_cleanup_metrics
update_cleanup_metrics-IsAccounted now results m a h =
    let start : CleanupMetrics = record (m.metrics) {
      total_cleanups = (m.metrics).total_cleanups + 1;
    } in
    let c = count_results-Counted results start a in
    record {
      cleanups = ground (arith, c.totals, c.successes, c.failures, h.cleanups);
      by_type = ground (arith, c.types, h.by_type);
      history = h.history;
      untimed = ground (arith, c.times, h.untimed);
      unfreed = ground (arith, c.sizes, h.unfreed);
      keyed = record {
        containers = h.keyed.containers;
        networks = h.keyed.networks;
        volumes = h.keyed.volumes;
      };
    }

module _ (show_int : ℤ → Text) where
  latest_bounded :
      (h : List CleanupOperation) (o : CleanupOperation)
      → length h ≤ 100
      → length (latest show_int (h ++ (o ∷ []))) ≤ 100
  latest_bounded h o b =
      let n = length-append h (o ∷ []) in
      let d = length-drop (length (h ++ (o ∷ [])) - 100) (h ++ (o ∷ [])) in ground (arith, d, n)

  IsAccounted-keeps : Keeps show_int IsAccounted
  unfolding cleanup_resource record_cleanup_operation
  IsAccounted-keeps = record {
    cleaned = λ r m h.
        if-cases IsAccounted ((result_of m r).success && is_removed (result_of m r).action)
          (λ e.
            IsAccounted-Same (untrack_resource-Same r.id r.type m)
              (untrack_resource-IsKeyed r.id r.type m h.keyed) h)
          (λ e. h);
    counted_up = update_cleanup_metrics-IsAccounted;
    recorded = λ o m h. record {
      cleanups = h.cleanups;
      by_type = h.by_type;
      history = latest_bounded (m.cleanup_history) o h.history;
      untimed = h.untimed;
      unfreed = h.unfreed;
      keyed = record {
        containers = h.keyed.containers;
        networks = h.keyed.networks;
        volumes = h.keyed.volumes;
      };
    };
    stopped_now = λ m h. record {
      cleanups = h.cleanups;
      by_type = h.by_type;
      history = h.history;
      untimed = h.untimed;
      unfreed = h.unfreed;
      keyed = record {
        containers = h.keyed.containers;
        networks = h.keyed.networks;
        volumes = h.keyed.volumes;
      };
    };
  }

  call-IsAccounted :
      (c : Call) (m : ResourceCleanupManager)
      → IsAccounted m
      → Every IsAccounted (call show_int c m)
  unfolding call
  call-IsAccounted (track r) m h = track_resource-IsAccounted r m h
  call-IsAccounted (untrack id t) m h =
      IsAccounted-Same (untrack_resource-Same id t m) (untrack_resource-IsKeyed id t m h.keyed) h
  call-IsAccounted (after_error d env) m h =
      call-keeps show_int IsAccounted IsAccounted-keeps (after_error d env) m refl h
  call-IsAccounted (manually env) m h =
      call-keeps show_int IsAccounted IsAccounted-keeps (manually env) m refl h
  call-IsAccounted (aggressively env) m h =
      call-keeps show_int IsAccounted IsAccounted-keeps (aggressively env) m refl h
  call-IsAccounted (finally env) m h =
      call-keeps show_int IsAccounted IsAccounted-keeps (finally env) m refl h
  call-IsAccounted (stop env) m h =
      call-keeps show_int IsAccounted IsAccounted-keeps (stop env) m refl h

  -- With settings under which no cleanup panics, any calls of a new manager return, and then: every
  -- cleanup that is counted is counted once, as successful or failed; the resources cleaned up by type
  -- add up to those cleaned up; the history has at most a hundred operations; every resource is tracked
  -- under its identifier and its type, none twice; and the times and the storage freed that are reported
  -- are still zero.
  pub calls-IsAccounted :
      (config : Option CleanupConfig) (calls : List Call)
      → panics (new_resource_cleanup_manager config) ≡ false
      → (t : ResourceCleanupManager) × ((run show_int calls (new_resource_cleanup_manager config)
            ≡ some t)
          × IsAccounted t)
  unfolding new_resource_cleanup_manager
  calls-IsAccounted config calls sound =
      run-keeps show_int IsAccounted call-IsAccounted calls (new_resource_cleanup_manager config)
        sound
        (record {
          cleanups = refl;
          by_type = refl;
          history = omega arith;
          untimed = refl;
          unfreed = refl;
          keyed = record { containers = (tt, tt); networks = (tt, tt); volumes = (tt, tt) };
        })
