-- ===== src/ClientMetrics/Accounts.antt =====
-- The counters of internal/docker/client_metrics.go after any calls.
use docker_net_doctor.Prelude.{
  ℕ, ◌+◌, ◌≤◌, ◌≡◌, refl, sym, subst, ap, ◌∙◌, inl, inr, Bool, true, false, ◌&&◌, Option, none,
  some, List, [], ◌∷◌, map, length, any, if◌then◌else◌, if-cases, elim-cases, Bool-cases,
  Option-cases, arith,
}
use docker_net_doctor.Prelude.Int.{ℤ, pos, ltb_ℤ, ◌≤ℤ◌, ◌+ℤ◌}
use docker_net_doctor.Prelude.Dict.{lookup, lookup-insert}
use docker_net_doctor.Prelude.Latest.{length-push_latest}
use docker_net_doctor.Prelude.Text.{Text, codes, text_eq, text_eq_iff, Text-eq}
use docker_net_doctor.ClientMetrics.{
  DurationTracker, new_duration_tracker, add_duration, record_duration_in, ClientMetrics,
  operations, new_client_metrics, record_error, record_duration, count_operation, count_outcome,
  record_api_call, record_retry, record_rate_limit_hit, record_cache_hit, record_cache_miss,
  update_active_connections, reset, max_errors,
}
use docker_net_doctor.ClientMetrics.Trackers.{update_percentiles-same}

pub data Call : Type 0 where
  api_call : Text → ℤ → Option Text → ℕ → Call
  retry rate_limit_hit cache_hit cache_miss : Call
  connections : ℤ → Call
  reset_at : ℕ → Call

unfoldable pub call : Call → ClientMetrics → ClientMetrics
call (api_call operation d message now) m = record_api_call operation d message now m
call retry m = record_retry m
call rate_limit_hit m = record_rate_limit_hit m
call cache_hit m = record_cache_hit m
call cache_miss m = record_cache_miss m
call (connections delta) m = update_active_connections delta m
call (reset_at now) m = reset now m

unfoldable pub run : List Call → ClientMetrics → ClientMetrics
unfolding call
run [] m = m
run (c ∷ cs) m = run cs (call c m)

-- The counter of an operation.
abbrev pub calls_of : Text → ClientMetrics → ℕ
calls_of o m =
    if text_eq o (codes "container_list")
    then m.container_list_calls
    else if text_eq o (codes "network_list")
    then m.network_list_calls
    else if text_eq o (codes "container_inspect")
    then m.container_inspect_calls
    else if text_eq o (codes "network_inspect")
    then m.network_inspect_calls
    else if text_eq o (codes "container_exec")
    then m.exec_calls
    else if text_eq o (codes "ping")
    then m.ping_calls
    else 0

abbrev pub is_known : Text → Bool
is_known o = any (text_eq o) operations

calls_of-count_operation :
    (o k : Text) (m : ClientMetrics)
    → calls_of k (count_operation o m)
      ≡ (if text_eq o k && is_known k then calls_of k m + 1 else calls_of k m)
calls_of-count_operation o k m = elim (Bool-cases (text_eq o k)) [
  | inl y ↦ let same : o ≡ k = (text_eq_iff o k).0 y in rw (y, same) (ground arith)
  | inr n ↦ rw n (
      ground (
        arith,
        text_eq_iff o (codes "container_list"),
        text_eq_iff k (codes "container_list"),
        text_eq_iff o (codes "network_list"),
        text_eq_iff k (codes "network_list"),
        text_eq_iff o (codes "container_inspect"),
        text_eq_iff k (codes "container_inspect"),
        text_eq_iff o (codes "network_inspect"),
        text_eq_iff k (codes "network_inspect"),
        text_eq_iff o (codes "container_exec"),
        text_eq_iff k (codes "container_exec"),
        text_eq_iff o (codes "ping"),
        text_eq_iff k (codes "ping"),
        text_eq_iff o k,
      ))
]

-- What the tracker of an operation has counted, if there is one.
abbrev pub count_of : Option DurationTracker → Option ℕ
count_of none = none
count_of (some t) = some t.count

abbrev pub tracked : Text → ClientMetrics → Option ℕ
tracked o m = count_of (lookup o m.operation_durations)

abbrev one_more : Bool → Option ℕ → Option ℕ
one_more b none = none
one_more b (some n) = if b then some (n + 1) else some n

one_more-false : (o : Option ℕ) → o ≡ one_more false o
one_more-false none = refl
one_more-false (some n) = refl

-- A count that goes with a counter, if its operation is known.
counts_together :
    (b known : Bool) (n c : ℕ) (o : Option ℕ)
    → o ≡ (if known then some n else none)
    → c ≡ (if b && known then n + 1 else n)
    → one_more b o ≡ (if known then some c else none)
counts_together b true n c o h e = rw h (ground (arith, e))
counts_together b false n c o h e = rw h refl

renewed :
    (o : Option DurationTracker) (known : Bool) (n : ℕ)
    → count_of o ≡ (if known then some n else none)
    → count_of (elim o [ none ↦ none | some t ↦ some new_duration_tracker ])
      ≡ (if known then some 0 else none)
renewed none true n h = absurd (cc)
renewed none false n h = refl
renewed (some t) true n h = refl
renewed (some t) false n h = absurd (cc)

-- The counters agree with one another, the errors and the peak are bounds.
pub record IsCounted (m : ClientMetrics) : Type 0 where
  pub outcomes : m.total_api_calls ≡ m.successful_calls + m.failed_calls
  pub errors : length m.last_errors ≤ max_errors
  pub connected : m.active_connections ≤ℤ m.peak_connections
  pub peak : pos 0 ≤ℤ m.peak_connections
  pub trackers : (o : Text) → tracked o m ≡ (if is_known o then some (calls_of o m) else none)

record_duration_in-count :
    (d : ℤ) (t : DurationTracker) → (record_duration_in d t).count ≡ t.count + 1
unfolding record_duration_in add_duration
record_duration_in-count d t = (update_percentiles-same (add_duration d t)).0

tracked-record_duration :
    (o : Text) (d : ℤ) (k : Text) (m : ClientMetrics)
    → tracked k (record_duration o d m) ≡ one_more (text_eq o k) (tracked k m)
unfolding record_duration
tracked-record_duration o d k m = elim (Option-cases (lookup o m.operation_durations)) [
  | inl e ↦
      let unchanged : record_duration o d m ≡ m = rw (record_duration, e) refl in
      ap (tracked k) unchanged ∙ elim (Bool-cases (text_eq o k)) [
        | inl y ↦
            let none_there : tracked k m ≡ none =
              subst (λ x. tracked x m ≡ none) ((text_eq_iff o k).0 y) (ap count_of e) in
            none_there ∙ sym (ap (one_more (text_eq o k)) none_there)
        | inr n ↦ rw n (one_more-false (tracked k m))
      ]
  | inr (t, e) ↦
      rw (record_duration, e)
        (rw (lookup-insert o k (record_duration_in d t) m.operation_durations)
          (elim (Bool-cases (text_eq o k)) [
            | inl y ↦
                let same : o ≡ k = (text_eq_iff o k).0 y in
                rw (y, ← same, e, record_duration_in-count d t) refl
            | inr n ↦ rw n (ground arith)
          ]))
]

count_operation-same :
    (o : Text) (m : ClientMetrics)
    → let t = count_operation o m in
      (t.total_api_calls ≡ m.total_api_calls)
      × (t.successful_calls ≡ m.successful_calls)
      × (t.failed_calls ≡ m.failed_calls)
      × (t.last_errors ≡ m.last_errors)
      × (t.active_connections ≡ m.active_connections)
      × (t.peak_connections ≡ m.peak_connections)
      × (t.operation_durations ≡ m.operation_durations)
count_operation-same o m = (
  ground arith,
  ground arith,
  ground arith,
  ground arith,
  ground arith,
  ground arith,
  ground arith,
)

-- The trackers stand apart from the rest.
record_duration-same :
    (o : Text) (d : ℤ) (m : ClientMetrics)
    → let t = record_duration o d m in
      (t.total_api_calls ≡ m.total_api_calls)
      × (t.successful_calls ≡ m.successful_calls)
      × (t.failed_calls ≡ m.failed_calls)
      × (t.last_errors ≡ m.last_errors)
      × (t.active_connections ≡ m.active_connections)
      × (t.peak_connections ≡ m.peak_connections)
      × ((k : Text) → calls_of k t ≡ calls_of k m)
unfolding record_duration
record_duration-same o d m =
    elim-cases {B = ClientMetrics}
      (λ t.
        (t.total_api_calls ≡ m.total_api_calls)
        × (t.successful_calls ≡ m.successful_calls)
        × (t.failed_calls ≡ m.failed_calls)
        × (t.last_errors ≡ m.last_errors)
        × (t.active_connections ≡ m.active_connections)
        × (t.peak_connections ≡ m.peak_connections)
        × ((k : Text) → calls_of k t ≡ calls_of k m))
      (lookup o m.operation_durations) (λ e. (refl, refl, refl, refl, refl, refl, λ k. refl))
      (λ t e. (refl, refl, refl, refl, refl, refl, λ k. refl))

count_outcome-IsCounted :
    (o : Text) (message : Option Text) (now : ℕ) (m : ClientMetrics)
    → IsCounted m
    → IsCounted (count_outcome o message now (record m { total_api_calls = m.total_api_calls + 1 }))
unfolding record_error
count_outcome-IsCounted o none now m h = record {
  outcomes = omega (arith, h.outcomes);
  errors = h.errors;
  connected = h.connected;
  peak = h.peak;
  trackers = h.trackers;
}
count_outcome-IsCounted o (some e) now m h = record {
  outcomes = omega (arith, h.outcomes);
  errors = length-push_latest max_errors _ m.last_errors (omega arith) h.errors;
  connected = h.connected;
  peak = h.peak;
  trackers = h.trackers;
}

-- A duration and its operation are counted together.
IsCounted-together-IsCounted :
    (o : Text) (d : ℤ) (m : ClientMetrics)
    → IsCounted m
    → IsCounted (count_operation o (record_duration o d m))
IsCounted-together-IsCounted o d m h =
    let t = record_duration o d m in
    let (a, b, c, e, f, g, calls) = record_duration-same o d m in
    let (a', b', c', e', f', g', durations) = count_operation-same o t in
    record {
      outcomes = omega (arith, a, b, c, a', b', c', h.outcomes);
      errors = rw (e', e) h.errors;
      connected = rw (f', g', f, g) h.connected;
      peak = rw (g', g) h.peak;
      trackers = λ k.
          ap (λ l. count_of (lookup k l)) durations
          ∙ tracked-record_duration o d k m
          ∙ counts_together (text_eq o k) (is_known k) (calls_of k m) _ (tracked k m) (h.trackers k)
              (calls_of-count_operation o k t ∙ rw (calls k) refl);
    }

record_api_call-IsCounted :
    (o : Text) (d : ℤ) (message : Option Text) (now : ℕ) (m : ClientMetrics)
    → IsCounted m
    → IsCounted (record_api_call o d message now m)
unfolding record_api_call
record_api_call-IsCounted o d message now m h =
    IsCounted-together-IsCounted o d _ (count_outcome-IsCounted o message now m h)

update_active_connections-IsCounted :
    (delta : ℤ) (m : ClientMetrics) → IsCounted m → IsCounted (update_active_connections delta m)
unfolding update_active_connections
update_active_connections-IsCounted delta m h =
    let active = m.active_connections +ℤ delta in
    record {
      outcomes = h.outcomes;
      errors = h.errors;
      connected =
          if-cases (λ p. active ≤ℤ p) (ltb_ℤ m.peak_connections active) (λ e. omega arith)
            (λ e. ground (arith, e));
      peak =
          if-cases (λ p. pos 0 ≤ℤ p) (ltb_ℤ m.peak_connections active)
            (λ e. ground (arith, e, h.peak)) (λ e. h.peak);
      trackers = h.trackers;
    }

lookup-renewed :
    (o : Text) (l : List (Text × DurationTracker))
    → lookup o (map (λ e. (e.0, new_duration_tracker)) l)
      ≡ (elim (lookup o l) [ none ↦ none | some t ↦ some new_duration_tracker ])
unfolding lookup
lookup-renewed o [] = refl
lookup-renewed o ((k, t) ∷ l) = elim (Bool-cases (text_eq k o)) [
  | inl y ↦ rw y refl
  | inr n ↦ rw n (lookup-renewed o l)
]

calls_of-reset : (now : ℕ) (o : Text) (m : ClientMetrics) → calls_of o (reset now m) ≡ 0
unfolding reset
calls_of-reset now o m = ground arith

reset-IsCounted : (now : ℕ) (m : ClientMetrics) → IsCounted m → IsCounted (reset now m)
unfolding reset
reset-IsCounted now m h = record {
  outcomes = refl;
  errors = omega arith;
  connected = omega arith;
  peak = omega arith;
  trackers = λ o.
      ap count_of (lookup-renewed o m.operation_durations)
      ∙ renewed (lookup o m.operation_durations) (is_known o) (calls_of o m) (h.trackers o)
      ∙ ap (λ n. if is_known o then some n else none) (sym (calls_of-reset now o m));
}

call-IsCounted : (c : Call) (m : ClientMetrics) → IsCounted m → IsCounted (call c m)
unfolding call record_retry record_rate_limit_hit record_cache_hit record_cache_miss
call-IsCounted (api_call o d message now) m h = record_api_call-IsCounted o d message now m h
call-IsCounted retry m h = record {
  outcomes = h.outcomes;
  errors = h.errors;
  connected = h.connected;
  peak = h.peak;
  trackers = h.trackers;
}
call-IsCounted rate_limit_hit m h = record {
  outcomes = h.outcomes;
  errors = h.errors;
  connected = h.connected;
  peak = h.peak;
  trackers = h.trackers;
}
call-IsCounted cache_hit m h = record {
  outcomes = h.outcomes;
  errors = h.errors;
  connected = h.connected;
  peak = h.peak;
  trackers = h.trackers;
}
call-IsCounted cache_miss m h = record {
  outcomes = h.outcomes;
  errors = h.errors;
  connected = h.connected;
  peak = h.peak;
  trackers = h.trackers;
}
call-IsCounted (connections delta) m h = update_active_connections-IsCounted delta m h
call-IsCounted (reset_at now) m h = reset-IsCounted now m h

run_from-IsCounted : (calls : List Call) (m : ClientMetrics) → IsCounted m → IsCounted (run calls m)
unfolding run
run_from-IsCounted [] m h = h
run_from-IsCounted (c ∷ cs) m h = run_from-IsCounted cs (call c m) (call-IsCounted c m h)

new_trackers :
    (o : Text) (names : List Text)
    → count_of (lookup o (map (λ n. (n, new_duration_tracker)) names))
      ≡ (if any (text_eq o) names then some 0 else none)
unfolding lookup
new_trackers o [] = refl
new_trackers o (n ∷ names) = ground (arith, new_trackers o names, text_eq_iff n o, text_eq_iff o n)

new_calls : (now : ℕ) (o : Text) → calls_of o (new_client_metrics now) ≡ 0
unfolding new_client_metrics
new_calls now o = ground arith

new-IsCounted : (now : ℕ) → IsCounted (new_client_metrics now)
unfolding new_client_metrics
new-IsCounted now = record {
  outcomes = refl;
  errors = omega arith;
  connected = omega arith;
  peak = omega arith;
  trackers = λ o.
      new_trackers o operations
      ∙ ap (λ n. if is_known o then some n else none) (sym (new_calls now o));
}

-- After any calls of new metrics, resets included: every API call is counted once, as successful or
-- failed; for each of the six known operations the tracker of durations has counted as many calls as
-- the operation's counter, and there is no tracker of another; at most a hundred errors are kept; and
-- the active connections are never more than their peak.
pub run-IsCounted : (now : ℕ) (calls : List Call) → IsCounted (run calls (new_client_metrics now))
run-IsCounted now calls = run_from-IsCounted calls (new_client_metrics now) (new-IsCounted now)
