-- ===== src/ClientMetrics.antt =====
-- internal/docker/client_metrics.go: the counters of API calls, the last errors, and for each operation a
-- tracker of durations with percentiles. A call is one step: its atomic additions and its locked parts
-- are not interleaved with those of other calls.
pub mod Sorting
pub mod Percentiles
pub mod Trackers
pub mod Accounts
mod Tests
use docker_net_doctor.Prelude.{
  ℕ, zero, suc, ◌+◌, ◌-◌, ◌*◌, ◌/◌, Bool, true, false, not, ◌||◌, Option, none, some, List, [], ◌∷◌,
  ◌++◌, map, any, length, get_elem?, ltb, leb, ◌==◌, if◌then◌else◌,
}
use docker_net_doctor.Prelude.Int.{ℤ, pos, ltb_ℤ, eqb_ℤ, quot, ◌+ℤ◌}
use docker_net_doctor.Prelude.Clock.{time_sub}
use docker_net_doctor.Prelude.Dict.{lookup, insert}
use docker_net_doctor.Prelude.Latest.{push_latest}
use docker_net_doctor.Prelude.Text.{Text, codes, text_eq, Text-eq}
use docker_net_doctor.Prelude.Float.{Float64}
use docker_net_doctor.Retry.{contains}

pub record DurationTracker : Type 0 where
  pub count : ℕ
  pub total : ℤ
  pub min_duration : ℤ
  pub max_duration : ℤ
  pub average : ℤ
  pub p50 : ℤ
  pub p95 : ℤ
  pub p99 : ℤ
  pub samples : List ℤ

abbrev pub new_duration_tracker : DurationTracker
new_duration_tracker = record {
  count = 0;
  total = pos 0;
  min_duration = pos 0;
  max_duration = pos 0;
  average = pos 0;
  p50 = pos 0;
  p95 = pos 0;
  p99 = pos 0;
  samples = [];
}

-- One pass of the inner loop over what stands after place `i`: `x` is the element at the place, which is
-- exchanged with each that is smaller. It gives the element that the place has in the end.
unfoldable pub pass : ℤ → List ℤ → ℤ × List ℤ
pass x [] = (x, [])
pass x (y ∷ ys) =
    let (least, rest) = pass (if ltb_ℤ y x then y else x) ys in
    (least, (if ltb_ℤ y x then x else y) ∷ rest)

-- The outer loop from a place on, with the places that are left.
unfoldable pub exchange_sort : ℕ → List ℤ → List ℤ
unfolding pass
exchange_sort zero xs = xs
exchange_sort (suc n) [] = []
exchange_sort (suc n) (x ∷ xs) = let (least, rest) = pass x xs in least ∷ exchange_sort n rest

unfoldable pub sort : List ℤ → List ℤ
unfolding exchange_sort
sort xs = exchange_sort (length xs) xs

-- sorted[len(sorted) * n / 100], if it is in range, and else the old value.
abbrev pub index_of : ℕ → List ℤ → ℕ
index_of n xs = length xs * n / 100

abbrev pub percentile : ℕ → List ℤ → ℤ → ℤ
percentile n sorted old =
    if ltb (index_of n sorted) (length sorted)
    then (elim (get_elem? sorted (index_of n sorted)) [ none ↦ old | some d ↦ d ])
    else old

unfoldable pub update_percentiles : DurationTracker → DurationTracker
unfolding sort
update_percentiles t =
    let sorted = sort t.samples in
    if length t.samples == 0 then t else record t {
      p50 = percentile 50 sorted t.p50;
      p95 = percentile 95 sorted t.p95;
      p99 = percentile 99 sorted t.p99;
    }

abbrev pub max_samples : ℕ
max_samples = 1000

-- Record up to the percentiles.
unfoldable pub add_duration : ℤ → DurationTracker → DurationTracker
add_duration d t =
    let least = t.min_duration in
    record t {
      count = t.count + 1;
      total = t.total +ℤ d;
      min_duration = if eqb_ℤ least (pos 0) || ltb_ℤ d least then d else least;
      max_duration = if ltb_ℤ t.max_duration d then d else t.max_duration;
      average = quot (t.total +ℤ d) (t.count + 1);
      samples = push_latest max_samples d t.samples;
    }

unfoldable pub record_duration_in : ℤ → DurationTracker → DurationTracker
record_duration_in d t = update_percentiles (add_duration d t)

-- GetStats copies the fields but the samples.
pub record OperationStats : Type 0 where
  pub count : ℕ
  pub total : ℤ
  pub min_duration : ℤ
  pub max_duration : ℤ
  pub average : ℤ
  pub p50 : ℤ
  pub p95 : ℤ
  pub p99 : ℤ

unfoldable pub get_stats : DurationTracker → OperationStats
get_stats t = record {
  count = t.count;
  total = t.total;
  min_duration = t.min_duration;
  max_duration = t.max_duration;
  average = t.average;
  p50 = t.p50;
  p95 = t.p95;
  p99 = t.p99;
}

pub record ErrorRecord : Type 0 where
  pub timestamp : ℕ
  pub operation : Text
  pub error : Text
  pub retryable : Bool

pub record ClientMetrics : Type 0 where
  pub total_api_calls : ℕ
  pub successful_calls : ℕ
  pub failed_calls : ℕ
  pub retry_count : ℕ
  pub rate_limit_hits : ℕ
  pub container_list_calls : ℕ
  pub network_list_calls : ℕ
  pub container_inspect_calls : ℕ
  pub network_inspect_calls : ℕ
  pub exec_calls : ℕ
  pub ping_calls : ℕ
  pub operation_durations : List (Text × DurationTracker)
  pub active_connections : ℤ
  pub peak_connections : ℤ
  pub cache_hits : ℕ
  pub cache_misses : ℕ
  pub last_errors : List ErrorRecord
  pub start_time : ℕ

abbrev pub operations : List Text
operations =
    codes "container_list"
    ∷ codes "network_list"
    ∷ codes "container_inspect"
    ∷ codes "network_inspect"
    ∷ codes "container_exec"
    ∷ codes "ping"
    ∷ []

unfoldable pub new_client_metrics : ℕ → ClientMetrics
new_client_metrics now = record {
  total_api_calls = 0;
  successful_calls = 0;
  failed_calls = 0;
  retry_count = 0;
  rate_limit_hits = 0;
  container_list_calls = 0;
  network_list_calls = 0;
  container_inspect_calls = 0;
  network_inspect_calls = 0;
  exec_calls = 0;
  ping_calls = 0;
  operation_durations = map (λ o. (o, new_duration_tracker)) operations;
  active_connections = pos 0;
  peak_connections = pos 0;
  cache_hits = 0;
  cache_misses = 0;
  last_errors = [];
  start_time = now;
}

abbrev retryable_patterns : List Text
retryable_patterns =
    codes "connection refused"
    ∷ codes "connection reset"
    ∷ codes "timeout"
    ∷ codes "EOF"
    ∷ codes "broken pipe"
    ∷ codes "service unavailable"
    ∷ codes "too many requests"
    ∷ []

-- isRetryableError of an error that is not nil, by its text.
unfoldable pub is_retryable_error : Text → Bool
is_retryable_error message = any (contains message) retryable_patterns

abbrev pub max_errors : ℕ
max_errors = 100

unfoldable pub record_error : Text → Text → ℕ → ClientMetrics → ClientMetrics
unfolding is_retryable_error
record_error operation message now m =
    let e : ErrorRecord = record {
      timestamp = now;
      operation = operation;
      error = message;
      retryable = is_retryable_error message;
    } in
    record m { last_errors = push_latest max_errors e m.last_errors }

unfoldable pub record_duration : Text → ℤ → ClientMetrics → ClientMetrics
record_duration operation d m = elim (lookup operation m.operation_durations) [
  | none ↦ m
  | some t ↦ record m {
    operation_durations = insert operation (record_duration_in d t) m.operation_durations;
  }
]

-- The switch over the operation.
abbrev pub count_operation : Text → ClientMetrics → ClientMetrics
count_operation o m =
    if text_eq o (codes "container_list")
    then record m { container_list_calls = m.container_list_calls + 1 }
    else if text_eq o (codes "network_list")
    then record m { network_list_calls = m.network_list_calls + 1 }
    else if text_eq o (codes "container_inspect")
    then record m { container_inspect_calls = m.container_inspect_calls + 1 }
    else if text_eq o (codes "network_inspect")
    then record m { network_inspect_calls = m.network_inspect_calls + 1 }
    else if text_eq o (codes "container_exec")
    then record m { exec_calls = m.exec_calls + 1 }
    else if text_eq o (codes "ping")
    then record m { ping_calls = m.ping_calls + 1 }
    else m

abbrev pub count_outcome : Text → Option Text → ℕ → ClientMetrics → ClientMetrics
count_outcome operation none now m = record m { successful_calls = m.successful_calls + 1 }
count_outcome operation (some message) now m =
    record_error operation message now (record m { failed_calls = m.failed_calls + 1 })

-- `message` is the text of the error, if there is one.
unfoldable pub record_api_call : Text → ℤ → Option Text → ℕ → ClientMetrics → ClientMetrics
record_api_call operation d message now m =
    let called = record m { total_api_calls = m.total_api_calls + 1 } in
    count_operation operation
      (record_duration operation d (count_outcome operation message now called))

unfoldable pub record_retry : ClientMetrics → ClientMetrics
record_retry m = record m { retry_count = m.retry_count + 1 }

unfoldable pub record_rate_limit_hit : ClientMetrics → ClientMetrics
record_rate_limit_hit m = record m { rate_limit_hits = m.rate_limit_hits + 1 }

unfoldable pub record_cache_hit : ClientMetrics → ClientMetrics
record_cache_hit m = record m { cache_hits = m.cache_hits + 1 }

unfoldable pub record_cache_miss : ClientMetrics → ClientMetrics
record_cache_miss m = record m { cache_misses = m.cache_misses + 1 }

unfoldable pub update_active_connections : ℤ → ClientMetrics → ClientMetrics
update_active_connections delta m =
    let active = m.active_connections +ℤ delta in
    record m {
      active_connections = active;
      peak_connections = if ltb_ℤ m.peak_connections active then active else m.peak_connections;
    }

unfoldable pub reset : ℕ → ClientMetrics → ClientMetrics
reset now m = record {
  total_api_calls = 0;
  successful_calls = 0;
  failed_calls = 0;
  retry_count = 0;
  rate_limit_hits = 0;
  container_list_calls = 0;
  network_list_calls = 0;
  container_inspect_calls = 0;
  network_inspect_calls = 0;
  exec_calls = 0;
  ping_calls = 0;
  operation_durations = map (λ e. (e.0, new_duration_tracker)) m.operation_durations;
  active_connections = pos 0;
  peak_connections = pos 0;
  cache_hits = 0;
  cache_misses = 0;
  last_errors = [];
  start_time = now;
}

-- A snapshot is the counters with the rates, the uptime, and the statistics of the trackers.
module _ (fl : Float64) where
  pub record MetricsSnapshot : Type 0 where
    pub timestamp : ℕ
    pub uptime : ℤ
    pub success_rate : fl.Float
    pub cache_hit_rate : fl.Float
    pub counters : ClientMetrics
    pub operation_stats : List (Text × OperationStats)
    pub recent_errors : List ErrorRecord

  unfoldable pub get_snapshot : ℕ → ClientMetrics → MetricsSnapshot
  unfolding get_stats
  get_snapshot now m =
      let rate : ℕ → ℕ → fl.Float = λ part whole.
        if ltb 0 whole
        then fl.div (fl.of_int (pos part)) (fl.of_int (pos whole))
        else fl.decimal 0 0 in
      record {
        timestamp = now;
        uptime = time_sub now m.start_time;
        success_rate = rate m.successful_calls m.total_api_calls;
        cache_hit_rate = rate m.cache_hits (m.cache_hits + m.cache_misses);
        counters = m;
        operation_stats = map (λ e. (e.0, get_stats e.1)) m.operation_durations;
        recent_errors = m.last_errors;
      }
