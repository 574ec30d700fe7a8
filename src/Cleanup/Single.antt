-- ===== src/Cleanup/Single.antt =====
-- What the cleanups of single resources in internal/diagnostics/resource_cleanup.go leave tracked.
use docker_net_doctor.Prelude.{
  ◌≡◌, refl, ◌∙◌, inl, inr, Bool, ◌&&◌, none, List, [], ◌∷◌, ◌++◌, map, any, keep, if◌then◌else◌,
  arith, Bool-cases, if-cases,
}
use docker_net_doctor.Prelude.Int.{ℤ, eqb_ℤ, eqb_ℤ_iff}
use docker_net_doctor.Prelude.Dict.{lookup, lookup-delete}
use docker_net_doctor.Prelude.Text.{Text, text_eq, Text-eq}
use docker_net_doctor.Cleanup.{
  container_type, network_type, volume_type, TrackedResource, is_removed, ResourceCleanupManager,
  untrack_resource,
}
use docker_net_doctor.Cleanup.Operations.{
  result_of, cleanup_resource, cleanup_all, cleanup_error, is_error, Progress,
}
use mathlib.Core.List.{Perm}
use mathlib.Core.Path.{fun_ext}

-- The map in which a type of resource is tracked.
abbrev pub map_of : ℤ → ResourceCleanupManager → List (Text × TrackedResource)
map_of t m =
    if eqb_ℤ t container_type
    then m.tracked_containers
    else if eqb_ℤ t network_type
    then m.tracked_networks
    else if eqb_ℤ t volume_type
    then m.tracked_volumes
    else []

-- The cleanup of `r` ends the tracking of the resource with the type `t` and the identifier `id`.
abbrev pub ends_tracking : ResourceCleanupManager → ℤ → Text → TrackedResource → Bool
ends_tracking m t id r =
    let result = result_of m r in
    result.success && is_removed result.action && eqb_ℤ r.type t && text_eq r.id id

-- What a cleanup leaves alone until it counts its results.
pub record Same (m t : ResourceCleanupManager) : Type 0 where
  pub same_client : t.has_client ≡ m.has_client
  pub same_config : t.config ≡ m.config
  pub same_history : t.cleanup_history ≡ m.cleanup_history
  pub same_metrics : t.metrics ≡ m.metrics
  pub same_stopped : t.stopped ≡ m.stopped

pub untrack_resource-Same :
    (id : Text) (ty : ℤ) (m : ResourceCleanupManager) → Same m (untrack_resource id ty m)
unfolding untrack_resource
untrack_resource-Same id ty m = record {
  same_client = ground arith;
  same_config = ground arith;
  same_history = ground arith;
  same_metrics = ground arith;
  same_stopped = ground arith;
}

pub Same-trans : {m t u : ResourceCleanupManager} → Same m t → Same t u → Same m u
Same-trans s u = record {
  same_client = u.same_client ∙ s.same_client;
  same_config = u.same_config ∙ s.same_config;
  same_history = u.same_history ∙ s.same_history;
  same_metrics = u.same_metrics ∙ s.same_metrics;
  same_stopped = u.same_stopped ∙ s.same_stopped;
}

pub Same-refl : (m : ResourceCleanupManager) → Same m m
Same-refl m = record {
  same_client = refl;
  same_config = refl;
  same_history = refl;
  same_metrics = refl;
  same_stopped = refl;
}

pub result_of-Same :
    {m t : ResourceCleanupManager} (r : TrackedResource) → Same m t → result_of t r ≡ result_of m r
unfolding result_of
result_of-Same r s = rw (s.same_client, s.same_config) refl

pub lookup-nil : (k : Text) → lookup {V = TrackedResource} k [] ≡ none
unfolding lookup
lookup-nil k = refl

lookup-untrack_resource :
    (id : Text) (ty : ℤ) (m : ResourceCleanupManager) (t : ℤ) (k : Text)
    → lookup k (map_of t (untrack_resource id ty m))
      ≡ (if eqb_ℤ ty t && text_eq id k then none else lookup k (map_of t m))
unfolding untrack_resource
lookup-untrack_resource id ty m t k = ground (
  arith,
  eqb_ℤ_iff ty t,
  lookup-nil k,
  lookup-delete id k m.tracked_containers,
  lookup-delete id k m.tracked_networks,
  lookup-delete id k m.tracked_volumes,
)

cleanup_resource-Same :
    (r : TrackedResource) (m : ResourceCleanupManager) → Same m (cleanup_resource r m).0
unfolding cleanup_resource
cleanup_resource-Same r m =
    if-cases (Same m) ((result_of m r).success && is_removed (result_of m r).action)
      (λ h. untrack_resource-Same r.id r.type m) (λ h. Same-refl m)

cleanup_resource-lookup :
    (r : TrackedResource) (m : ResourceCleanupManager) (t : ℤ) (id : Text)
    → lookup id (map_of t (cleanup_resource r m).0)
      ≡ (if ends_tracking m t id r then none else lookup id (map_of t m))
unfolding cleanup_resource
cleanup_resource-lookup r m t id =
    elim (Bool-cases ((result_of m r).success && is_removed (result_of m r).action)) [
      | inl y ↦ rw y (lookup-untrack_resource r.id r.type m t id ∙ ground arith)
      | inr n ↦ rw n (ground arith)
    ]

pub ends_tracking-Same :
    {m u : ResourceCleanupManager} (t : ℤ) (id : Text) (r : TrackedResource)
    → Same m u
    → ends_tracking u t id r ≡ ends_tracking m t id r
ends_tracking-Same t id r s = rw (result_of-Same r s)

-- What the cleanup of some resources has done, from `p` to `q`.
pub record Cleaned (rs : List TrackedResource) (p q : Progress) : Type 0 where
  pub same : Same p.manager q.manager
  pub answered : Perm q.results (p.results ++ map (result_of p.manager) rs)
  pub reported :
      Perm q.errors (p.errors ++ map cleanup_error (keep is_error (map (result_of p.manager) rs)))
  pub tracked :
      (t : ℤ) (id : Text)
      → lookup id (map_of t q.manager)
        ≡ (if any (ends_tracking p.manager t id) rs then none else lookup id (map_of t p.manager))

pub cleanup_all-results :
    (rs : List TrackedResource) (m : ResourceCleanupManager)
    → Same m (cleanup_all rs m).0 × ((cleanup_all rs m).1 ≡ map (result_of m) rs)
unfolding cleanup_all cleanup_resource
cleanup_all-results [] m = (Same-refl m, refl)
cleanup_all-results (r ∷ rs) m =
    let s = cleanup_resource-Same r m in
    let (t, e) = cleanup_all-results rs (cleanup_resource r m).0 in
    (Same-trans s t, rw (e, fun_ext (λ x. result_of-Same x s)) refl)

pub cleanup_all-lookup :
    (rs : List TrackedResource) (m : ResourceCleanupManager) (t : ℤ) (id : Text)
    → lookup id (map_of t (cleanup_all rs m).0)
      ≡ (if any (ends_tracking m t id) rs then none else lookup id (map_of t m))
unfolding cleanup_all
cleanup_all-lookup [] m t id = refl
cleanup_all-lookup (r ∷ rs) m t id =
    let s = cleanup_resource-Same r m in
    cleanup_all-lookup rs (cleanup_resource r m).0 t id
    ∙ rw (fun_ext (λ x. ends_tracking-Same t id x s))
        (rw (cleanup_resource-lookup r m t id) (ground arith))
