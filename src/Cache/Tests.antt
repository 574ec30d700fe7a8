-- ===== src/Cache/Tests.antt =====
-- The cache's theorems at concrete caches, with numbers for the Docker library's types.
use docker_net_doctor.Prelude.{
  ℕ, ◌≡◌, refl, ◌≢◌, false, none, some, List, [], ◌∷◌, arith, if◌then◌else◌,
}
use docker_net_doctor.Prelude.Int.{pos, ltb_ℤ}
use docker_net_doctor.Prelude.Clock.{time_sub, seconds}
use docker_net_doctor.Prelude.Dict.{delete}
use docker_net_doctor.Prelude.Text.{codes, text_eq, Text-eq}
use docker_net_doctor.Cache.{
  Api, CacheEntry, container_list, ResponseCache, new_response_cache, as_container_list, get,
  evict_oldest, scan_oldest, set,
}
use docker_net_doctor.Cache.Eviction.{Inv}
use docker_net_doctor.Cache.Bound.{
  Call, sets_containers, gets_containers, cleans_up, run, entries_bounded,
}
use docker_net_doctor.Cache.Lookups.{get-set, effective_ttl, answer}

abbrev numbers : Api
numbers = record { Container = ℕ; Summary = ℕ; Inspect = ℕ; ContainerJson = ℕ; Other = ℕ }

abbrev entry : ℕ → ℕ → CacheEntry numbers
entry n time = record {
  payload = container_list (n ∷ []);
  timestamp = time;
  ttl = pos (seconds 10);
}

abbrev two_keys : ResponseCache numbers
two_keys = record {
  entries = (codes "a", entry 1 500) ∷ (codes "b", entry 2 300) ∷ [];
  default_ttl = pos (seconds 30);
  max_entries = pos 2;
  hits = 0;
  misses = 0;
  evictions = 0;
  stopped = false;
}

abbrev roomy : ResponseCache numbers
roomy = record two_keys { max_entries = pos 9 }

evicts_b :
    evict_oldest numbers two_keys
    ≡ record two_keys { entries = (codes "a", entry 1 500) ∷ []; evictions = 1 }
unfolding evict_oldest scan_oldest delete text_eq
evicts_b = refl

a-named : codes "a" ≢ []
a-named e = cc

b-named : codes "b" ≢ []
b-named e = cc

abbrev history : List (Call numbers)
history =
    sets_containers (codes "a") a-named (1 ∷ []) (pos 0) 10
    ∷ sets_containers (codes "b") b-named (2 ∷ []) (pos 5) 20
    ∷ gets_containers (codes "a") 30
    ∷ cleans_up 40
    ∷ []

entries_bounded_example :
    Inv numbers (run numbers (new_response_cache numbers (pos 9) (pos 1)) history)
entries_bounded_example = entries_bounded numbers (pos 9) (pos 1) history (omega arith)

get-set_example :
    let t = set numbers (codes "c") (container_list (7 ∷ [])) (pos 0) 900 two_keys in
    get numbers (as_container_list numbers) (codes "c") 950 t ≡ (
      if ltb_ℤ (effective_ttl numbers two_keys (pos 0)) (time_sub 950 900)
      then answer numbers t none
      else answer numbers t (some (7 ∷ [])))
get-set_example =
    get-set numbers (as_container_list numbers) (codes "c") (container_list (7 ∷ [])) (pos 0) 900
      950 two_keys
