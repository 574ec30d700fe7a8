-- ===== src/Engine.antt =====
-- internal/diagnostics/engine.go: the checks' results, their summary, metrics and recommendations. What
-- a check's Run does is given with each visit of a check; durations come from the monotonic clock and
-- are not negative. Details, suggestions and timestamps of a result are left out, as is the printing.
pub mod Runs
pub mod Summaries
pub mod Sequence
pub mod Collecting
mod Tests
use docker_net_doctor.Prelude.{
  ℕ, ◌+◌, ◌/◌, Bool, true, false, not, ◌&&◌, Option, none, some, List, [], ◌∷◌, ◌++◌, any, ltb,
  ◌==◌, if◌then◌else◌, length,
}
use docker_net_doctor.Prelude.Int.{ℤ, pos, ltb_ℤ, leb_ℤ, eqb_ℤ}
use docker_net_doctor.Prelude.Text.{Text, codes, text_eq}
use docker_net_doctor.Prelude.Float.{Float64}
use docker_net_doctor.Security.{Check}

-- SeverityWarning and SeverityCritical, as the validator reads a severity.
abbrev pub severity_warning : ℤ
severity_warning = pos 1

abbrev pub severity_critical : ℤ
severity_critical = pos 3

abbrev pub max_workers : ℤ
max_workers = pos 10

pub record CheckResult : Type 0 where
  pub check_name : Text
  pub success : Bool
  pub message : Text
  pub duration : ℕ

pub record Summary : Type 0 where
  pub total_checks : ℕ
  pub passed_checks : ℕ
  pub failed_checks : ℕ
  pub warning_checks : ℕ
  pub critical_issues : List Text

-- The worker count of NewEngine, given runtime.NumCPU(); NewSecureWorkerPool bounds its own in the same
-- way.
unfoldable pub bounded_workers : ℤ → ℤ → ℤ
bounded_workers cpus count =
    let asked = if leb_ℤ count (pos 0) then cpus else count in
    if ltb_ℤ max_workers asked then max_workers else asked

abbrev default_check : Text → Text → ℤ → Check
default_check name description severity = record {
  name = name;
  description = description;
  severity = severity;
}

-- The checks of registerDefaultChecks, in their order.
abbrev pub default_checks : List Check
default_checks =
    default_check (codes "daemon_connectivity")
      (codes "Checking Docker daemon connectivity and API accessibility") severity_critical
    ∷ default_check (codes "bridge_network")
        (codes "Checking Docker bridge network configuration and health") severity_critical
    ∷ default_check (codes "ip_forwarding")
        (codes "Checking if IP forwarding is enabled on the host") severity_critical
    ∷ default_check (codes "iptables") (codes "Checking iptables rules for Docker networking")
        severity_critical
    ∷ default_check (codes "dns_resolution")
        (codes "Testing DNS resolution capabilities in containers") severity_warning
    ∷ default_check (codes "internal_dns") (codes "Checking container-to-container DNS resolution")
        severity_warning
    ∷ default_check (codes "container_connectivity")
        (codes "Checking connectivity between containers on the same network") severity_warning
    ∷ default_check (codes "port_binding")
        (codes "Checking container port bindings and accessibility") severity_warning
    ∷ default_check (codes "network_isolation")
        (codes "Checking Docker network isolation and security configuration") severity_warning
    ∷ default_check (codes "mtu_consistency")
        (codes "Checking MTU consistency across networks and host interfaces") severity_warning
    ∷ default_check (codes "subnet_overlap")
        (codes "Checking for overlapping subnets between Docker networks") severity_warning
    ∷ []

-- What the call of a check's Run does: it panics, or it returns an error with its text, no result or a
-- result.
pub data Outcome : Type 0 where
  panicked : Outcome
  failed : Text → Outcome
  no_result : Outcome
  returned : CheckResult → Outcome

-- The result of runCheckSafely; `none` is nil, which a recovered panic leaves.
unfoldable pub run_check_safely : Check → Outcome → ℕ → Option CheckResult
run_check_safely check panicked duration = none
run_check_safely check (failed e) duration = some (record {
  check_name = check.name;
  success = false;
  message = codes "Check failed with error: " ++ e;
  duration = duration;
})
run_check_safely check no_result duration = some (record {
  check_name = check.name;
  success = false;
  message = codes "Check returned no result";
  duration = duration;
})
run_check_safely check (returned r) duration = some (record r { duration = duration })

abbrev pub is_critical : Check → Bool
is_critical check = eqb_ℤ check.severity severity_critical

unfoldable pub should_stop_on_failure : Check → Bool
should_stop_on_failure check = is_critical check && text_eq check.name (codes "daemon_connectivity")

-- The inner loop of calculateSummary: a critical check of the result's name, whose search stops at the
-- first.
unfoldable pub issues_of : List Check → CheckResult → List Text → List Text
issues_of [] r issues = issues
issues_of (c ∷ cs) r issues =
    let later = issues_of cs r issues in
    if text_eq c.name r.check_name && is_critical c then issues ++ (r.message ∷ []) else later

-- The loop of calculateSummary at a result.
abbrev summarized : List Check → CheckResult → Summary → Summary
summarized checks r s =
    if r.success then record s { passed_checks = s.passed_checks + 1 } else record s {
      failed_checks = s.failed_checks + 1;
      critical_issues = issues_of checks r s.critical_issues;
    }

summarize : List Check → List CheckResult → Summary → Summary
unfolding issues_of
summarize checks [] s = s
summarize checks (r ∷ rs) s = summarize checks rs (summarized checks r s)

abbrev pub no_summary : ℕ → Summary
no_summary total = record {
  total_checks = total;
  passed_checks = 0;
  failed_checks = 0;
  warning_checks = 0;
  critical_issues = [];
}

unfoldable pub calculate_summary : List Check → List CheckResult → Summary
unfolding summarize
calculate_summary checks results = summarize checks results (no_summary (length results))

-- The variables of the loop of calculateMetrics.
pub record Tally : Type 0 where
  pub total_duration : ℕ
  pub max_duration : ℕ
  pub min_duration : ℕ
  pub failed_count : ℕ

abbrev pub no_tally : Tally
no_tally = record {
  total_duration = 0;
  max_duration = 0;
  min_duration = 9223372036854775807;
  failed_count = 0;
}

unfoldable pub tally_one : CheckResult → Tally → Tally
tally_one r t =
    let timed =
      if ltb 0 r.duration
      then record t {
        total_duration = t.total_duration + r.duration;
        max_duration = if ltb t.max_duration r.duration then r.duration else t.max_duration;
        min_duration = if ltb r.duration t.min_duration then r.duration else t.min_duration;
      }
      else t in
    if r.success then timed else record timed { failed_count = timed.failed_count + 1 }

unfoldable pub tally : List CheckResult → Tally → Tally
unfolding tally_one
tally [] t = t
tally (r ∷ rs) t = tally rs (tally_one r t)

module _ (fl : Float64) where
  pub record ExecutionMetrics : Type 0 where
    pub parallel_execution : Bool
    pub worker_count : ℤ
    pub total_duration : ℕ
    pub average_check_time : ℕ
    pub max_check_time : ℕ
    pub min_check_time : ℕ
    pub memory_usage_mb : fl.Float
    pub api_calls_count : ℕ
    pub rate_limit_hits : ℕ
    pub error_rate : fl.Float

  -- calculateMetrics, given what the engine's rate limiter has counted.
  unfoldable pub calculate_metrics : List CheckResult → ℕ → ℕ → ExecutionMetrics → ExecutionMetrics
  unfolding tally
  calculate_metrics results requests throttled m =
      let t = tally results no_tally in
      let n = length results in
      if n == 0 then m else record m {
        average_check_time = t.total_duration / n;
        max_check_time = t.max_duration;
        min_check_time = t.min_duration;
        error_rate = fl.div (fl.of_int (pos t.failed_count)) (fl.of_int (pos n));
        api_calls_count = requests;
        rate_limit_hits = throttled;
      }

-- The recommendations, by what they are about.
pub data Recommendation : Type 0 where
  network_configuration dns_resolution : Recommendation
  excellent_performance : ℕ → ℤ → Recommendation

abbrev network_names : List Text
network_names = codes "bridge_network" ∷ codes "subnet_overlap" ∷ codes "mtu_consistency" ∷ []

abbrev dns_names : List Text
dns_names = codes "dns_resolution" ∷ codes "internal_dns" ∷ []

abbrev failures_among : List Text → List CheckResult → ℕ
failures_among names [] = 0
failures_among names (r ∷ rs) =
    (if not r.success && any (text_eq r.check_name) names then 1 else 0) + failures_among names rs

unfoldable pub get_recommendations : List CheckResult → Bool → ℕ → ℤ → List Recommendation
get_recommendations results parallel total workers =
    (if ltb 1 (failures_among network_names results) then network_configuration ∷ [] else [])
    ++ (if ltb 0 (failures_among dns_names results) then dns_resolution ∷ [] else [])
    ++ (if parallel && ltb total 500000000 then excellent_performance total workers ∷ [] else [])
