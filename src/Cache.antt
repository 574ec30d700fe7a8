-- ===== src/Cache.antt =====
-- internal/docker/response_cache.go: the cache of Docker API responses. Each method takes the clock's
-- reading; the lock makes each one step. The entries are a list in the order of Go's next `range`
-- over the map. The Docker library's response types are parameters.
pub mod Eviction
pub mod Bound
pub mod Expiry
pub mod Lookups
mod Tests
use docker_net_doctor.Prelude.{
  ℕ, ◌+◌, Bool, true, false, ◌||◌, Option, none, some, List, [], ◌∷◌, ◌++◌, ◌==◌, ltb,
  if◌then◌else◌, length,
}
use docker_net_doctor.Prelude.Int.{ℤ, pos, leb_ℤ, ltb_ℤ, eqb_ℤ}
use docker_net_doctor.Prelude.Dict.{lookup, insert, delete}
use docker_net_doctor.Prelude.Text.{Text, codes, text_eq, Text-eq}
use docker_net_doctor.Prelude.Clock.{time_sub}
use docker_net_doctor.Prelude.Float.{Float64}

-- The types of the Docker library, and of what else a caller of GetOrCompute may store.
pub record Api : Type 1 where
  pub Container : Type 0
  pub Summary : Type 0
  pub Inspect : Type 0
  pub ContainerJson : Type 0
  pub Other : Type 0

module _ (api : Api) where
  -- The dynamic types that CacheEntry.Data may hold.
  pub data Payload : Type 0 where
    container_list : List api.Container → Payload
    network_list : List api.Summary → Payload
    network_inspect : api.Inspect → Payload
    container_inspect : api.ContainerJson → Payload
    other : api.Other → Payload

  pub record CacheEntry : Type 0 where
    pub payload : Payload
    pub timestamp : ℕ
    pub ttl : ℤ

  abbrev pub Entries : Type 0
  Entries = List (Text × CacheEntry)

  -- `stopped` says that the stopCleanup channel is closed.
  pub record ResponseCache : Type 0 where
    pub entries : Entries
    pub default_ttl : ℤ
    pub max_entries : ℤ
    pub hits : ℕ
    pub misses : ℕ
    pub evictions : ℕ
    pub stopped : Bool

  pub new_response_cache : ℤ → ℤ → ResponseCache
  new_response_cache default_ttl max_entries = record {
    entries = [];
    default_ttl = default_ttl;
    max_entries = max_entries;
    hits = 0;
    misses = 0;
    evictions = 0;
    stopped = false;
  }

  -- The type assertions of the four getters.
  abbrev pub as_container_list : Payload → Option (List api.Container)
  as_container_list (container_list l) = some l
  as_container_list _ = none

  abbrev pub as_network_list : Payload → Option (List api.Summary)
  as_network_list (network_list l) = some l
  as_network_list _ = none

  abbrev pub as_network_inspect : Payload → Option api.Inspect
  as_network_inspect (network_inspect n) = some n
  as_network_inspect _ = none

  abbrev pub as_container_inspect : Payload → Option api.ContainerJson
  as_container_inspect (container_inspect j) = some j
  as_container_inspect _ = none

  -- time.Since(entry.Timestamp) > entry.TTL.
  pub is_expired : ℕ → CacheEntry → Bool
  is_expired now e = ltb_ℤ e.ttl (time_sub now e.timestamp)

  abbrev miss : ResponseCache → ResponseCache
  miss c = record c { misses = c.misses + 1 }

  abbrev hit : ResponseCache → ResponseCache
  hit c = record c { hits = c.hits + 1 }

  -- The body that the four getters share, for the type that each asserts.
  pub get :
      {A : Type 0} → (Payload → Option A) → Text → ℕ → ResponseCache → ResponseCache × Option A
  get assert key now c = elim (lookup key c.entries) [
    | none ↦ (miss c, none)
    | some e ↦
        if is_expired now e
        then (miss c, none)
        else (elim (assert e.payload) [ none ↦ (miss c, none) | some a ↦ (hit c, some a) ])
  ]

  -- The loop of evictOldest, with the oldest key and time so far.
  scan_oldest : Entries → Text → ℕ → Text
  scan_oldest [] key time = key
  scan_oldest ((k, e) ∷ rest) key time =
      let older = text_eq key [] || ltb e.timestamp time in
      scan_oldest rest (if older then k else key) (if older then e.timestamp else time)

  pub evict_oldest : ResponseCache → ResponseCache
  unfolding scan_oldest
  evict_oldest c =
      let oldest = scan_oldest c.entries [] 0 in
      if text_eq oldest []
      then c
      else record c { entries = delete oldest c.entries; evictions = c.evictions + 1 }

  -- The body that the four setters and the end of GetOrCompute share.
  pub set : Text → Payload → ℤ → ℕ → ResponseCache → ResponseCache
  set key value ttl now c =
      let t = if leb_ℤ c.max_entries (pos (length c.entries)) then evict_oldest c else c in
      record t {
        entries =
            insert key
              (record {
                payload = value;
                timestamp = now;
                ttl = if eqb_ℤ ttl (pos 0) then t.default_ttl else ttl;
              })
              t.entries;
      }

  abbrev network_inspect_key : Text → Text
  network_inspect_key id = codes "network_inspect:" ++ id

  abbrev container_inspect_key : Text → Text
  container_inspect_key id = codes "container_inspect:" ++ id

  pub get_container_list : Text → ℕ → ResponseCache → ResponseCache × Option (List api.Container)
  get_container_list = get as_container_list

  pub get_network_list : Text → ℕ → ResponseCache → ResponseCache × Option (List api.Summary)
  get_network_list = get as_network_list

  pub get_network_inspect : Text → ℕ → ResponseCache → ResponseCache × Option api.Inspect
  get_network_inspect id = get as_network_inspect (network_inspect_key id)

  pub get_container_inspect : Text → ℕ → ResponseCache → ResponseCache × Option api.ContainerJson
  get_container_inspect id = get as_container_inspect (container_inspect_key id)

  pub set_container_list : Text → List api.Container → ℤ → ℕ → ResponseCache → ResponseCache
  set_container_list key l = set key (container_list l)

  pub set_network_list : Text → List api.Summary → ℤ → ℕ → ResponseCache → ResponseCache
  set_network_list key l = set key (network_list l)

  pub set_network_inspect : Text → api.Inspect → ℤ → ℕ → ResponseCache → ResponseCache
  set_network_inspect id n = set (network_inspect_key id) (network_inspect n)

  pub set_container_inspect : Text → api.ContainerJson → ℤ → ℕ → ResponseCache → ResponseCache
  set_container_inspect id j = set (container_inspect_key id) (container_inspect j)

  pub invalidate : Text → ResponseCache → ResponseCache
  invalidate key c = record c { entries = delete key c.entries }

  pub invalidate_all : ResponseCache → ResponseCache
  invalidate_all c = record c { entries = [] }

  -- `none` is the panic of a second close.
  pub close : ResponseCache → Option ResponseCache
  close c = if c.stopped then none else some (record c { stopped = true })

  -- The two loops of cleanupExpired.
  keys_to_delete : ℕ → Entries → List Text
  keys_to_delete now [] = []
  keys_to_delete now ((k, e) ∷ rest) =
      let more = keys_to_delete now rest in if is_expired now e then k ∷ more else more

  delete_all : List Text → Entries → Entries
  delete_all [] m = m
  delete_all (k ∷ ks) m = delete_all ks (delete k m)

  pub cleanup_expired : ℕ → ResponseCache → ResponseCache
  unfolding keys_to_delete delete_all
  cleanup_expired now c = record c { entries = delete_all (keys_to_delete now c.entries) c.entries }

  -- GetOrCompute after the computation: an error is returned, a value is stored too.
  store_computed :
      {Err : Type 0}
      → Text
      → Option Err
      → Payload
      → ℤ
      → ℕ
      → ResponseCache
      → ResponseCache × Option Err × Option Payload
  store_computed key none value ttl later c = (set key value ttl later c, none, some value)
  store_computed key (some x) value ttl later c = (c, some x, none)

  -- GetOrCompute holds no lock while it computes: `meanwhile` is what other callers do to the cache.
  -- `failed` and `value` are what `compute` returns.
  pub get_or_compute :
      {Err : Type 0}
      → Text
      → Option Err
      → Payload
      → ℤ
      → ℕ
      → ℕ
      → (ResponseCache → ResponseCache)
      → ResponseCache
      → ResponseCache × Option Err × Option Payload
  unfolding store_computed
  get_or_compute key failed value ttl now later meanwhile c = elim (lookup key c.entries) [
    | none ↦ store_computed key failed value ttl later (meanwhile (miss c))
    | some e ↦
        if leb_ℤ (time_sub now e.timestamp) e.ttl
        then (hit c, none, some e.payload)
        else store_computed key failed value ttl later (meanwhile (miss c))
  ]

  module _ (fl : Float64) where
    pub record CacheStats : Type 0 where
      pub hits : ℕ
      pub misses : ℕ
      pub evictions : ℕ
      pub size : ℕ
      pub hit_rate : fl.Float

    calculate_hit_rate : ResponseCache → fl.Float
    calculate_hit_rate c =
        if c.hits + c.misses == 0
        then fl.of_int (pos 0)
        else fl.div (fl.of_int (pos c.hits)) (fl.of_int (pos (c.hits + c.misses)))

    pub get_stats : ResponseCache → CacheStats
    get_stats c = record {
      hits = c.hits;
      misses = c.misses;
      evictions = c.evictions;
      size = length c.entries;
      hit_rate = calculate_hit_rate c;
    }
