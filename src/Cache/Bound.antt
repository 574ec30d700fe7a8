-- ===== src/Cache/Bound.antt =====
-- Histories of calls of internal/docker/response_cache.go, and the bound on the entries over them.
use docker_net_doctor.Prelude.{ℕ, ◌+◌, ◌≤◌, ◌≢◌, Option, none, some, List, [], ◌∷◌, arith, length}
use docker_net_doctor.Prelude.Int.{ℤ, pos, ◌<ℤ◌}
use docker_net_doctor.Prelude.Dict.{delete, length-delete-le, Unique, Unique-delete}
use docker_net_doctor.Prelude.Text.{Text, Text-eq}
use docker_net_doctor.Cache.{
  Api, Payload, Entries, ResponseCache, new_response_cache, get, get_container_list,
  get_network_list, get_network_inspect, get_container_inspect, set_container_list,
  set_network_list, set_network_inspect, set_container_inspect, network_inspect_key,
  container_inspect_key, invalidate, invalidate_all, keys_to_delete, delete_all, cleanup_expired,
  store_computed, get_or_compute,
}
use docker_net_doctor.Cache.Eviction.{Named, Inv, set-Inv, Named-delete}

module _ (api : Api) where
  -- A call with its readings of the clock; the keys that a caller chooses are not empty. A
  -- computation of GetOrCompute that fails has no value; nothing else runs meanwhile.
  pub data Call : Type 0 where
    gets_containers gets_networks inspects_network inspects_container : Text → ℕ → Call
    sets_containers : (key : Text) → key ≢ [] → List api.Container → ℤ → ℕ → Call
    sets_networks : (key : Text) → key ≢ [] → List api.Summary → ℤ → ℕ → Call
    sets_network : Text → api.Inspect → ℤ → ℕ → Call
    sets_container : Text → api.ContainerJson → ℤ → ℕ → Call
    invalidates : Text → Call
    invalidates_all : Call
    cleans_up : ℕ → Call
    computes : (key : Text) → key ≢ [] → Option (Unit {0}) → Payload api → ℤ → ℕ → ℕ → Call

  pub step : ResponseCache api → Call → ResponseCache api
  step c (gets_containers key now) = (get_container_list api key now c).0
  step c (gets_networks key now) = (get_network_list api key now c).0
  step c (inspects_network id now) = (get_network_inspect api id now c).0
  step c (inspects_container id now) = (get_container_inspect api id now c).0
  step c (sets_containers key _ l ttl now) = set_container_list api key l ttl now c
  step c (sets_networks key _ l ttl now) = set_network_list api key l ttl now c
  step c (sets_network id n ttl now) = set_network_inspect api id n ttl now c
  step c (sets_container id j ttl now) = set_container_inspect api id j ttl now c
  step c (invalidates key) = invalidate api key c
  step c invalidates_all = invalidate_all api c
  step c (cleans_up now) = cleanup_expired api now c
  step c (computes key _ failed value ttl now later) =
      (get_or_compute api key failed value ttl now later (λ t. t) c).0

  pub run : ResponseCache api → List Call → ResponseCache api
  run c [] = c
  run c (a ∷ rest) = run (step c a) rest

  pub get-Inv :
      {A : Type 0} (assert : Payload api → Option A) (key : Text) (now : ℕ) (c : ResponseCache api)
      → Inv api c
      → Inv api (get api assert key now c).0
  unfolding get
  get-Inv assert key now c v = ground arith

  delete_all-Named :
      (ks : List Text) (m : Entries api) → Named api m → Named api (delete_all api ks m)
  unfolding delete_all
  delete_all-Named [] m n = n
  delete_all-Named (k ∷ ks) m n = delete_all-Named ks (delete k m) (Named-delete api k m n)

  delete_all-Unique : (ks : List Text) (m : Entries api) → Unique m → Unique (delete_all api ks m)
  unfolding delete_all
  delete_all-Unique [] m u = u
  delete_all-Unique (k ∷ ks) m u = delete_all-Unique ks (delete k m) (Unique-delete k m u)

  length-delete_all-le :
      (ks : List Text) (m : Entries api) → length (delete_all api ks m) ≤ length m
  unfolding delete_all
  length-delete_all-le [] m = omega arith
  length-delete_all-le (k ∷ ks) m =
      omega (arith, length-delete_all-le ks (delete k m), length-delete-le k m)

  store_computed-Inv :
      {Err : Type 0} (key : Text) (failed : Option Err) (value : Payload api) (ttl : ℤ) (later : ℕ)
      (c : ResponseCache api)
      → key ≢ []
      → Inv api c
      → Inv api (store_computed api key failed value ttl later c).0
  unfolding store_computed
  store_computed-Inv key none value ttl later c h v = set-Inv api key value ttl later c h v
  store_computed-Inv key (some x) value ttl later c h v = v

  get_or_compute-Inv :
      (key : Text) (failed : Option (Unit {0})) (value : Payload api) (ttl : ℤ) (now later : ℕ)
      (c : ResponseCache api)
      → key ≢ []
      → Inv api c
      → Inv api (get_or_compute api key failed value ttl now later (λ t. t) c).0
  unfolding get_or_compute
  get_or_compute-Inv key failed value ttl now later c h v =
      ground (
        arith,
        store_computed-Inv key failed value ttl later (record c { misses = c.misses + 1 }) h,
      )

  -- Every call keeps the number of entries within the maximum, and the keys not empty and
  -- distinct.
  pub step-Inv : (c : ResponseCache api) (a : Call) → Inv api c → Inv api (step c a)
  unfolding step get_container_list get_network_list get_network_inspect get_container_inspect
      set_container_list set_network_list set_network_inspect set_container_inspect invalidate
      invalidate_all cleanup_expired
  step-Inv c (gets_containers key now) v = get-Inv _ key now c v
  step-Inv c (gets_networks key now) v = get-Inv _ key now c v
  step-Inv c (inspects_network id now) v = get-Inv _ (network_inspect_key api id) now c v
  step-Inv c (inspects_container id now) v = get-Inv _ (container_inspect_key api id) now c v
  step-Inv c (sets_containers key h l ttl now) v = set-Inv api key _ ttl now c h v
  step-Inv c (sets_networks key h l ttl now) v = set-Inv api key _ ttl now c h v
  step-Inv c (sets_network id n ttl now) v =
      set-Inv api (network_inspect_key api id) _ ttl now c (λ e. cc) v
  step-Inv c (sets_container id j ttl now) v =
      set-Inv api (container_inspect_key api id) _ ttl now c (λ e. cc) v
  step-Inv c (invalidates key) v = ground (
    arith,
    Named-delete api key c.entries v.named,
    Unique-delete key c.entries v.unique,
    length-delete-le key c.entries,
  )
  step-Inv c invalidates_all v = ground arith
  step-Inv c (cleans_up now) v = ground (
    arith,
    delete_all-Named (keys_to_delete api now c.entries) c.entries v.named,
    delete_all-Unique (keys_to_delete api now c.entries) c.entries v.unique,
    length-delete_all-le (keys_to_delete api now c.entries) c.entries,
  )
  step-Inv c (computes key h failed value ttl now later) v =
      get_or_compute-Inv key failed value ttl now later c h v

  run-Inv : (c : ResponseCache api) (calls : List Call) → Inv api c → Inv api (run c calls)
  unfolding run
  run-Inv c [] v = v
  run-Inv c (a ∷ rest) v = run-Inv (step c a) rest (step-Inv c a v)

  -- From a new cache with a positive maximum, no history of calls with keys that are not empty ever
  -- leaves more entries than the maximum.
  pub entries_bounded :
      (default_ttl max : ℤ) (calls : List Call)
      → pos 0 <ℤ max
      → Inv api (run (new_response_cache api default_ttl max) calls)
  unfolding new_response_cache
  entries_bounded default_ttl max calls h =
      run-Inv _ calls (record { named = tt; unique = tt; bounded = omega arith; room = h })
