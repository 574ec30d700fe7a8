-- ===== src/Collector.antt =====
-- internal/diagnostics/metrics_collector.go: the life cycle of the collector with its goroutine, the buffer
-- of samples, averages, trends and health. What is measured, and what the profiler and the pool answer, is
-- given.
pub mod Lifecycle
pub mod Buffer
mod Tests
use docker_net_doctor.Prelude.{
  ℕ, zero, suc, ◌+◌, ◌-◌, ◌/◌, Bool, true, false, not, ◌&&◌, ◌||◌, Option, none, some, List, [],
  ◌∷◌, ◌++◌, map, keep, length, drop, ltb, leb, ◌==◌, if◌then◌else◌,
}
use docker_net_doctor.Prelude.Int.{ℤ, pos, pos_part, neg_part, diff, ltb_ℤ, leb_ℤ, quot, ◌+ℤ◌}
use docker_net_doctor.Prelude.Clock.{time_sub, time_add}
use docker_net_doctor.Prelude.Latest.{push_latest}
use docker_net_doctor.Prelude.Text.{Text, codes, text_eq}
use docker_net_doctor.Prelude.Float.{Float64}

-- SamplingInterval of performance_profiler.go.
abbrev pub sampling_interval : ℤ
sampling_interval = pos 100000

abbrev pub sample_bound : ℕ
sample_bound = 1000

abbrev get_last {ℓ} : {A : Type ℓ} → List A → Option A
get_last [] = none
get_last (x ∷ xs) = elim (get_last xs) [ none ↦ some x | some y ↦ some y ]

pub data TrendDirection : Type 0 where
  stable increasing decreasing : TrendDirection

module _ (fl : Float64) where
  pub record MetricsSample : Type 0 where
    pub timestamp : ℕ
    pub cpu_percent : fl.Float
    pub memory_mb : fl.Float
    pub goroutines : ℕ
    pub active_jobs : ℤ
    pub completed_jobs : ℤ
    pub error_rate : fl.Float
    pub avg_duration : ℤ

  -- `stop_closed` says that stopChan is closed, `collecting` that a goroutine is in collect.
  pub record MetricsCollector : Type 0 where
    pub interval : ℤ
    pub running : Bool
    pub stop_closed : Bool
    pub collecting : Bool
    pub last_cpu_time : ℕ
    pub last_cpu_usage : fl.Float
    pub samples : List MetricsSample
    pub max_samples : ℕ

  unfoldable pub new_metrics_collector : ℤ → MetricsCollector
  new_metrics_collector interval = record {
    interval = if leb_ℤ interval (pos 0) then sampling_interval else interval;
    running = false;
    stop_closed = false;
    collecting = false;
    last_cpu_time = 0;
    last_cpu_usage = fl.decimal 0 0;
    samples = [];
    max_samples = sample_bound;
  }

  unfoldable pub start : MetricsCollector → MetricsCollector
  start mc = if mc.running then mc else record mc { running = true; collecting = true }

  -- What the profiler answers, and the counters of its pool if it has one.
  pub record Profile : Type 0 where
    pub average_duration : ℤ
    pub total_operations : ℤ
    pub jobs : Option (ℤ × ℤ)

  pub record Measured : Type 0 where
    pub now : ℕ
    pub cpu_now : ℕ
    pub allocated : ℤ
    pub goroutines : ℕ
    pub profile : Option Profile

  unfoldable pub collect_cpu_usage : ℕ → MetricsCollector → MetricsCollector × fl.Float
  collect_cpu_usage now mc =
      let elapsed = fl.to_seconds (time_sub now mc.last_cpu_time) in
      let usage =
        if not (mc.last_cpu_time == 0) && fl.lt (fl.decimal 0 0) elapsed
        then fl.decimal 0 0
        else mc.last_cpu_usage in
      (record mc { last_cpu_time = now; last_cpu_usage = usage }, usage)

  unfoldable pub collect_memory_usage : ℤ → fl.Float
  collect_memory_usage allocated = fl.div (fl.of_int allocated) (fl.decimal 1048576 0)

  unfoldable pub store_sample : MetricsSample → MetricsCollector → MetricsCollector
  store_sample s mc = record mc { samples = push_latest mc.max_samples s mc.samples }

  abbrev profiled : Option Profile → MetricsSample → MetricsSample
  profiled none s = s
  profiled (some p) s =
      let t : MetricsSample = record s {
        avg_duration = p.average_duration;
        error_rate =
            if ltb_ℤ (pos 0) p.total_operations
            then fl.div (fl.decimal 0 0) (fl.of_int p.total_operations)
            else s.error_rate;
      } in
      elim (p.jobs) [
        | none ↦ t
        | some (active, completed) ↦ record t { active_jobs = active; completed_jobs = completed }
      ]

  unfoldable pub collect_sample : Measured → MetricsCollector → MetricsCollector
  unfolding collect_cpu_usage collect_memory_usage store_sample
  collect_sample e mc =
      let (t, cpu) = collect_cpu_usage e.cpu_now mc in
      store_sample
        (profiled e.profile (record {
          timestamp = e.now;
          cpu_percent = cpu;
          memory_mb = collect_memory_usage e.allocated;
          goroutines = e.goroutines;
          active_jobs = pos 0;
          completed_jobs = pos 0;
          error_rate = fl.decimal 0 0;
          avg_duration = pos 0;
        }))
        t

  unfoldable pub collect_all : List Measured → MetricsCollector → MetricsCollector
  collect_all [] mc = mc
  collect_all (e ∷ es) mc = collect_all es (collect_sample e mc)

  -- `none` is a panic, for the close of a closed channel. Stop waits for the goroutine, which ends once its
  -- `select` takes the closed channel; `late` is what it measures at the ticks that it still takes before.
  unfoldable pub stop : List Measured → MetricsCollector → Option MetricsCollector
  unfolding collect_all
  stop late mc =
      let t = if mc.collecting then collect_all late mc else mc in
      if not mc.running
      then some mc
      else if mc.stop_closed
      then none
      else some (record t { running = false; stop_closed = true; collecting = false })

  -- One turn of the loop of collect at a tick: where the channel is closed too, `done_first` says whether
  -- the `select` takes it, which ends the goroutine.
  unfoldable pub tick : Bool → Measured → MetricsCollector → MetricsCollector
  unfolding collect_sample
  tick done_first e mc =
      if not mc.collecting
      then mc
      else if mc.stop_closed && done_first
      then record mc { collecting = false }
      else collect_sample e mc

  unfoldable pub get_samples : ℤ → MetricsCollector → List MetricsSample
  get_samples count mc =
      let n = length mc.samples in
      let asked = if leb_ℤ count (pos 0) || ltb_ℤ (pos n) count then n else pos_part count in
      drop (n - asked) mc.samples

  unfoldable pub get_latest_sample : MetricsCollector → Option MetricsSample
  get_latest_sample mc = get_last mc.samples

  -- now.Add(-window)
  abbrev pub cutoff : ℕ → ℤ → ℕ
  cutoff now window = time_add now (diff (neg_part window) (pos_part window))

  abbrev pub recent : ℕ → ℤ → MetricsCollector → List MetricsSample
  recent now window mc = keep (λ s. ltb (cutoff now window) s.timestamp) mc.samples

  pub record AverageMetrics : Type 0 where
    pub window : ℤ
    pub sample_count : ℕ
    pub avg_cpu : fl.Float
    pub avg_memory_mb : fl.Float
    pub avg_goroutines : ℕ
    pub avg_duration : ℤ

  -- The loop of GetAverageMetrics over the samples after the cutoff.
  pub record Sums : Type 0 where
    pub count : ℕ
    pub total_cpu : fl.Float
    pub total_memory : fl.Float
    pub total_goroutines : ℕ
    pub total_duration : ℤ

  unfoldable pub sum_samples : List MetricsSample → Sums → Sums
  sum_samples [] t = t
  sum_samples (s ∷ ss) t = sum_samples ss (record {
    count = t.count + 1;
    total_cpu = fl.add t.total_cpu s.cpu_percent;
    total_memory = fl.add t.total_memory s.memory_mb;
    total_goroutines = t.total_goroutines + s.goroutines;
    total_duration = t.total_duration +ℤ s.avg_duration;
  })

  unfoldable pub get_average_metrics : ℕ → ℤ → MetricsCollector → Option AverageMetrics
  unfolding sum_samples
  get_average_metrics now window mc =
      let t = sum_samples (recent now window mc) (record {
        count = 0;
        total_cpu = fl.decimal 0 0;
        total_memory = fl.decimal 0 0;
        total_goroutines = 0;
        total_duration = pos 0;
      }) in
      let n = fl.of_int (pos t.count) in
      if t.count == 0
      then none
      else some (record {
        window = window;
        sample_count = t.count;
        avg_cpu = fl.div t.total_cpu n;
        avg_memory_mb = fl.div t.total_memory n;
        avg_goroutines = t.total_goroutines / t.count;
        avg_duration = quot t.total_duration t.count;
      })

  -- The switch over the metric; `none` is its default.
  unfoldable pub value_of : Text → MetricsSample → Option fl.Float
  value_of metric s =
      if text_eq metric (codes "cpu")
      then some s.cpu_percent
      else if text_eq metric (codes "memory")
      then some s.memory_mb
      else if text_eq metric (codes "goroutines")
      then some (fl.of_int (pos s.goroutines))
      else if text_eq metric (codes "duration")
      then some (fl.of_int (quot s.avg_duration 1000))
      else if text_eq metric (codes "error_rate")
      then some s.error_rate
      else none

  unfoldable pub points : Text → List MetricsSample → List (ℕ × fl.Float)
  unfolding value_of
  points metric [] = []
  points metric (s ∷ ss) =
      let rest = points metric ss in
      elim (value_of metric s) [ none ↦ rest | some v ↦ (s.timestamp, v) ∷ rest ]

  unfoldable pub find_min_from : fl.Float → List fl.Float → fl.Float
  find_min_from least [] = least
  find_min_from least (v ∷ vs) = find_min_from (if fl.lt v least then v else least) vs

  unfoldable pub find_min : List fl.Float → fl.Float
  unfolding find_min_from
  find_min [] = fl.decimal 0 0
  find_min (v ∷ vs) = find_min_from v vs

  unfoldable pub find_max_from : fl.Float → List fl.Float → fl.Float
  find_max_from greatest [] = greatest
  find_max_from greatest (v ∷ vs) = find_max_from (if fl.lt greatest v then v else greatest) vs

  unfoldable pub find_max : List fl.Float → fl.Float
  unfolding find_max_from
  find_max [] = fl.decimal 0 0
  find_max (v ∷ vs) = find_max_from v vs

  -- The sums of the linear regression.
  pub record Regression : Type 0 where
    pub sum_x : fl.Float
    pub sum_y : fl.Float
    pub sum_xy : fl.Float
    pub sum_x2 : fl.Float

  unfoldable pub regress : ℕ → List (ℕ × fl.Float) → Regression → Regression
  regress first [] r = r
  regress first ((t, y) ∷ ps) r =
      let x = fl.to_seconds (time_sub t first) in
      regress first ps (record {
        sum_x = fl.add r.sum_x x;
        sum_y = fl.add r.sum_y y;
        sum_xy = fl.add r.sum_xy (fl.mul x y);
        sum_x2 = fl.add r.sum_x2 (fl.mul x x);
      })

  pub record TrendAnalysis : Type 0 where
    pub slope : fl.Float
    pub direction : TrendDirection

  -- The times and the values have one length, as they are those of points.
  unfoldable pub calculate_linear_trend : List (ℕ × fl.Float) → TrendAnalysis
  unfolding regress
  calculate_linear_trend ps =
      let zero_float = fl.decimal 0 0 in
      let first : ℕ = elim ps [ [] ↦ 0 | p ∷ rest ↦ p.0 ] in
      let r = regress first ps (record {
        sum_x = zero_float;
        sum_y = zero_float;
        sum_xy = zero_float;
        sum_x2 = zero_float;
      }) in
      let n = fl.of_int (pos (length ps)) in
      let slope =
        fl.div (fl.sub (fl.mul n r.sum_xy) (fl.mul r.sum_x r.sum_y))
          (fl.sub (fl.mul n r.sum_x2) (fl.mul r.sum_x r.sum_x)) in
      let threshold = fl.decimal 1 2 in
      if ltb (length ps) 2 then record { slope = zero_float; direction = stable } else record {
        slope = slope;
        direction =
            if fl.lt threshold slope
            then increasing
            else if fl.lt slope (fl.sub zero_float threshold)
            then decreasing
            else stable;
      }

  pub record MetricTrend : Type 0 where
    pub metric : Text
    pub window : ℤ
    pub data_points : ℕ
    pub slope : fl.Float
    pub direction : TrendDirection
    pub start_value : fl.Float
    pub end_value : fl.Float
    pub min_value : fl.Float
    pub max_value : fl.Float

  abbrev or_zero : Option fl.Float → fl.Float
  or_zero none = fl.decimal 0 0
  or_zero (some v) = v

  unfoldable pub get_trend : Text → ℕ → ℤ → MetricsCollector → Option MetricTrend
  unfolding points calculate_linear_trend find_min find_max
  get_trend metric now window mc =
      let ps = points metric (recent now window mc) in
      let values = map (λ p. p.1) ps in
      let trend = calculate_linear_trend ps in
      if ltb (length mc.samples) 2 || ltb (length values) 2
      then none
      else some (record {
        metric = metric;
        window = window;
        data_points = length values;
        slope = trend.slope;
        direction = trend.direction;
        start_value = elim values [ [] ↦ fl.decimal 0 0 | v ∷ rest ↦ v ];
        end_value = or_zero (get_last values);
        min_value = find_min values;
        max_value = find_max values;
      })

  unfoldable pub is_healthy : MetricsCollector → Bool
  unfolding get_latest_sample
  is_healthy mc = elim (get_latest_sample mc) [
    | none ↦ true
    | some s ↦
        fl.lt s.cpu_percent (fl.decimal 80 0)
        && fl.lt s.memory_mb (fl.decimal 500 0)
        && ltb s.goroutines 1000
        && fl.lt s.error_rate (fl.decimal 1 1)
  ]

  unfoldable pub reset : MetricsCollector → MetricsCollector
  reset mc = record mc { samples = []; last_cpu_time = 0; last_cpu_usage = fl.decimal 0 0 }
