-- ===== src/Degradation.antt =====
-- internal/diagnostics/graceful_degradation.go: levels of degradation, the checks that each lets run, the
-- health indicators and the changes of level. A level is its number. The lock is part of the state: a
-- method that finds it held by a writer blocks. The texts of reasons, the copies of GetMetrics and the
-- fields that nothing reads are left out.
pub mod Laws
mod Tests
use docker_net_doctor.Prelude.{
  ℕ, ◌+◌, ◌-◌, Bool, true, false, not, ◌&&◌, ◌||◌, Option, none, some, List, [], ◌∷◌, ◌++◌, any,
  keep, length, drop, ltb, if◌then◌else◌,
}
use docker_net_doctor.Prelude.Int.{ℤ, pos, ltb_ℤ, leb_ℤ, eqb_ℤ}
use docker_net_doctor.Prelude.Dict.{Eq, lookup, insert}
use docker_net_doctor.Prelude.Clock.{time_sub, seconds}
use docker_net_doctor.Prelude.Text.{Text, codes, text_eq, Text-eq}
use docker_net_doctor.Prelude.Float.{Float64}
use docker_net_doctor.Security.{Check}
use docker_net_doctor.Engine.{severity_critical}

abbrev pub level_normal : ℤ
level_normal = pos 0

abbrev pub level_reduced : ℤ
level_reduced = pos 1

abbrev pub level_minimal : ℤ
level_minimal = pos 2

abbrev pub level_emergency : ℤ
level_emergency = pos 3

unfoldable pub level_string : ℤ → Text
level_string l =
    if eqb_ℤ l level_normal
    then codes "NORMAL"
    else if eqb_ℤ l level_reduced
    then codes "REDUCED"
    else if eqb_ℤ l level_minimal
    then codes "MINIMAL"
    else if eqb_ℤ l level_emergency
    then codes "EMERGENCY"
    else codes "UNKNOWN"

unfoldable pub is_low_priority_check : Text → Bool
is_low_priority_check name =
    any (text_eq name) (codes "subnet_overlap" ∷ codes "mtu_consistency" ∷ [])

unfoldable pub is_critical_check : Text → Bool
is_critical_check name =
    any (text_eq name)
      (codes "daemon_connectivity" ∷ codes "bridge_network" ∷ codes "dns_resolution" ∷ [])

unfoldable pub is_essential_check : Text → Bool
is_essential_check name = any (text_eq name) (codes "daemon_connectivity" ∷ [])

unfoldable pub should_execute_check : Check → ℤ → Bool
unfolding is_low_priority_check is_critical_check is_essential_check
should_execute_check check level =
    if eqb_ℤ level level_normal
    then true
    else if eqb_ℤ level level_reduced
    then not (is_low_priority_check check.name)
    else if eqb_ℤ level level_minimal
    then eqb_ℤ check.severity severity_critical || is_critical_check check.name
    else if eqb_ℤ level level_emergency
    then is_essential_check check.name
    else false

-- The loop of FilterChecks: the checks that are left, and how many are not.
unfoldable pub filtered : ℤ → List Check → List Check × ℕ
unfolding should_execute_check
filtered level [] = ([], 0)
filtered level (c ∷ cs) =
    let (run, skipped) = filtered level cs in
    if should_execute_check c level then (c ∷ run, skipped) else (run, skipped + 1)

pub data HealthTrend : Type 0 where
  stable improving degrading critical : HealthTrend

-- How a call of a method ends: with the new state and its value, or not at all.
pub data Ran {ℓ κ} (S : Type ℓ) (A : Type κ) : Type (ℓ ⊔ κ) where
  finished : S → A → Ran S A
  blocked : S → Ran S A

-- The capabilities at a level, in the order in which they are set; an unknown level has none.
unfoldable pub get_capabilities_description : ℤ → List (Text × Bool)
get_capabilities_description level =
    let four : Bool → Bool → Bool → Bool → List (Text × Bool) = λ full exec network performance.
      (codes "full_diagnostics", full)
      ∷ (codes "container_exec", exec)
      ∷ (codes "network_analysis", network)
      ∷ (codes "performance_tests", performance)
      ∷ [] in
    if eqb_ℤ level level_normal
    then four true true true true
    else if eqb_ℤ level level_reduced
    then four false true true false
    else if eqb_ℤ level level_minimal
    then four false false true false
    else if eqb_ℤ level level_emergency
    then four false false false false
    else []

module _ (fl : Float64) where
  pub record HealthIndicator : Type 0 where
    pub value : fl.Float
    pub threshold : fl.Float
    pub critical : Bool
    pub last_updated : ℕ
    pub trend : HealthTrend

  pub record LevelTransition : Type 0 where
    pub from_level : ℤ
    pub to_level : ℤ
    pub timestamp : ℕ
    pub automatic : Bool
    pub health_score : fl.Float

  pub record DegradationConfig : Type 0 where
    pub enable_auto_detection : Bool
    pub default_level : ℤ
    pub manual_override_allowed : Bool
    pub stability_period : ℤ

  pub record DegradationMetrics : Type 0 where
    pub transitions_count : List (Text × ℕ)
    pub checks_skipped : ℕ
    pub checks_executed : ℕ
    pub auto_recoveries : ℕ
    pub manual_overrides : ℕ

  -- `locked` says that a writer holds the lock; no method keeps it over its return.
  pub record GracefulDegradation : Type 0 where
    pub config : DegradationConfig
    pub current_level : ℤ
    pub last_level_change : ℕ
    pub health_indicators : List (Text × HealthIndicator)
    pub level_history : List LevelTransition
    pub metrics : DegradationMetrics
    pub manual_override : Option ℤ
    pub locked : Bool

  -- mu.Lock() with a deferred mu.Unlock(), and the same for a reader, around the body of a method.
  unfoldable pub with_lock {ℓ} :
      {A : Type ℓ}
      → (GracefulDegradation → Ran GracefulDegradation A)
      → GracefulDegradation
      → Ran GracefulDegradation A
  with_lock body gd = if gd.locked then blocked gd else (elim (body (record gd { locked = true })) [
    | finished t a ↦ finished (record t { locked = false }) a
    | blocked t ↦ blocked t
  ])

  unfoldable pub with_read_lock {ℓ} :
      {A : Type ℓ} → (GracefulDegradation → A) → GracefulDegradation → Ran GracefulDegradation A
  with_read_lock body gd = if gd.locked then blocked gd else finished gd (body gd)

  unfoldable pub get_current_level : GracefulDegradation → Ran GracefulDegradation ℤ
  unfolding with_read_lock
  get_current_level gd =
      with_read_lock (λ g. elim g.manual_override [ none ↦ g.current_level | some l ↦ l ]) gd

  -- The score of one indicator, and its weight.
  indicator_score : HealthIndicator → fl.Float
  indicator_score i =
      let overage = fl.sub i.value i.threshold in
      let max_overage = fl.mul i.threshold (fl.decimal 2 0) in
      let part = fl.div overage max_overage in
      let one = fl.decimal 1 0 in
      if fl.lt i.threshold i.value
      then (if fl.lt (fl.decimal 0 0) max_overage
          then fl.sub one (if fl.lt one part then one else part)
          else fl.decimal 0 0)
      else one

  abbrev weight : HealthIndicator → fl.Float
  weight i = if i.critical then fl.decimal 2 0 else fl.decimal 1 0

  score_from : fl.Float → fl.Float → List (Text × HealthIndicator) → fl.Float
  unfolding indicator_score
  score_from total weights [] =
      if fl.le weights (fl.decimal 0 0) && fl.le (fl.decimal 0 0) weights
      then fl.decimal 1 0
      else fl.div total weights
  score_from total weights ((n, i) ∷ rest) =
      score_from (fl.add total (fl.mul (indicator_score i) (weight i))) (fl.add weights (weight i))
        rest

  unfoldable pub calculate_health_score : GracefulDegradation → fl.Float
  unfolding score_from
  calculate_health_score gd =
      if ltb 0 (length gd.health_indicators)
      then score_from (fl.decimal 0 0) (fl.decimal 0 0) gd.health_indicators
      else fl.decimal 1 0

  abbrev is_unhealthy : HealthIndicator → Bool
  is_unhealthy i = i.critical || fl.le i.threshold i.value

  unfoldable pub all_indicators_healthy : GracefulDegradation → Bool
  all_indicators_healthy gd = not (any (λ t. is_unhealthy t.1) gd.health_indicators)

  unfoldable pub critical_indicators_healthy : GracefulDegradation → Bool
  critical_indicators_healthy gd =
      let ill : Text → Bool =
        λ n. elim (lookup n gd.health_indicators) [ none ↦ false | some i ↦ is_unhealthy i ] in
      not (any ill (codes "docker_connectivity" ∷ codes "error_rate" ∷ []))

  unfoldable pub determine_appropriate_level : GracefulDegradation → ℤ
  determine_appropriate_level gd =
      let score = calculate_health_score gd in
      if fl.le (fl.decimal 8 1) score && all_indicators_healthy gd
      then level_normal
      else if fl.le (fl.decimal 6 1) score && critical_indicators_healthy gd
      then level_reduced
      else if fl.le (fl.decimal 3 1) score
      then level_minimal
      else level_emergency

  -- The reason of the last change, a text, is left out.
  pub record DegradationStatus : Type 0 where
    pub level : ℤ
    pub health_score : fl.Float
    pub healthy : Bool
    pub automatic : Bool
    pub time_in_level : ℤ
    pub indicators : List (Text × HealthIndicator)
    pub capabilities : List (Text × Bool)

  -- It holds the read lock while it calls GetCurrentLevel, as a reader may unless a writer waits.
  unfoldable pub get_degradation_status :
      ℕ → GracefulDegradation → Ran GracefulDegradation DegradationStatus
  unfolding get_current_level get_capabilities_description
  get_degradation_status now gd = elim (get_current_level gd) [
    | blocked t ↦ blocked t
    | finished t level ↦
        let score = calculate_health_score t in
        finished t (record {
          level = level;
          health_score = score;
          healthy = fl.lt (fl.decimal 7 1) score;
          automatic = elim t.manual_override [ none ↦ true | some l ↦ false ];
          time_in_level = time_sub now t.last_level_change;
          indicators = t.health_indicators;
          capabilities = get_capabilities_description level;
        })
  ]

  abbrev transition_key : LevelTransition → Text
  transition_key t = level_string t.from_level ++ codes "->" ++ level_string t.to_level

  abbrev increment : Text → List (Text × ℕ) → List (Text × ℕ)
  increment k m = insert k (elim (lookup k m) [ none ↦ 1 | some n ↦ n + 1 ]) m

  abbrev pub max_history : ℕ
  max_history = 100

  abbrev pub latest : List LevelTransition → List LevelTransition
  latest h = if ltb max_history (length h) then drop (length h - max_history) h else h

  unfoldable pub record_transition : LevelTransition → GracefulDegradation → GracefulDegradation
  record_transition t gd = record gd {
    level_history = latest (gd.level_history ++ (t ∷ []));
    metrics = record (gd.metrics) {
      transitions_count = increment (transition_key t) (gd.metrics).transitions_count;
    };
  }

  -- SetManualLevel returns false for its error. Its own call of GetCurrentLevel takes the lock again.
  unfoldable pub set_manual_level : ℤ → ℕ → GracefulDegradation → Ran GracefulDegradation Bool
  unfolding get_current_level record_transition with_lock
  set_manual_level level now gd =
      if not gd.config.manual_override_allowed
      then finished gd false
      else with_lock
          (λ g. elim (get_current_level g) [
            | blocked t ↦ blocked t
            | finished t old ↦
                let set = record t { manual_override = some level } in
                let u =
                  record_transition
                    (record {
                      from_level = old;
                      to_level = level;
                      timestamp = now;
                      automatic = false;
                      health_score = calculate_health_score set;
                    })
                    set in
                finished
                  (record u {
                    metrics = record (u.metrics) {
                      manual_overrides = (u.metrics).manual_overrides + 1;
                    };
                  })
                  true
          ])
          gd

  cleared : ℕ → GracefulDegradation → GracefulDegradation
  unfolding record_transition
  cleared now g = elim g.manual_override [
    | none ↦ g
    | some old ↦
        let t = record g { manual_override = none } in
        let new = determine_appropriate_level t in
        if eqb_ℤ new old
        then t
        else record_transition
            (record {
              from_level = old;
              to_level = new;
              timestamp = now;
              automatic = true;
              health_score = calculate_health_score t;
            })
            (record t { current_level = new })
  ]

  unfoldable pub clear_manual_override :
      ℕ → GracefulDegradation → Ran GracefulDegradation (Unit {0})
  unfolding cleared with_lock
  clear_manual_override now gd = with_lock (λ g. finished (cleared now g) tt) gd

  -- FilterChecks changes its counters without the lock.
  unfoldable pub filter_checks :
      List Check → GracefulDegradation → Ran GracefulDegradation (List Check)
  unfolding get_current_level
  filter_checks checks gd = elim (get_current_level gd) [
    | blocked t ↦ blocked t
    | finished t level ↦
        let (run, skipped) = filtered level checks in
        finished
          (record t {
            metrics = record (t.metrics) {
              checks_skipped = (t.metrics).checks_skipped + skipped;
              checks_executed = (t.metrics).checks_executed + length run;
            };
          })
          run
  ]

  updated : fl.Float → ℕ → HealthIndicator → HealthIndicator
  updated value now i =
      if fl.le i.threshold value
      then record i {
        value = value;
        last_updated = now;
        critical = true;
        trend = HealthTrend.critical;
      }
      else record i {
        value = value;
        last_updated = now;
        critical = false;
        trend =
            if fl.lt (fl.mul i.value (fl.decimal 11 1)) value
            then degrading
            else if fl.lt value (fl.mul i.value (fl.decimal 9 1))
            then improving
            else stable;
      }

  unfoldable pub update_health_indicator :
      Text → fl.Float → ℕ → GracefulDegradation → Ran GracefulDegradation (Unit {0})
  unfolding with_lock updated
  update_health_indicator name value now gd =
      with_lock
        (λ g. elim (lookup name g.health_indicators) [
          | none ↦ finished g tt
          | some i ↦
              finished
                (record g {
                  health_indicators = insert name (updated value now i) g.health_indicators;
                })
                tt
        ])
        gd

  unfoldable pub change_degradation_level : ℤ → ℕ → GracefulDegradation → GracefulDegradation
  unfolding record_transition
  change_degradation_level new now gd =
      let t = record gd { current_level = new; last_level_change = now } in
      let u =
        record_transition
          (record {
            from_level = gd.current_level;
            to_level = new;
            timestamp = now;
            automatic = true;
            health_score = calculate_health_score t;
          })
          t in
      record u {
        metrics = record (u.metrics) {
          auto_recoveries =
              if ltb_ℤ gd.current_level new
              then (u.metrics).auto_recoveries + 1
              else (u.metrics).auto_recoveries;
        };
      }

  -- The body of performHealthCheck, which holds the lock.
  unfoldable pub health_checked : ℕ → GracefulDegradation → GracefulDegradation
  unfolding change_degradation_level
  health_checked now g = elim g.manual_override [
    | some l ↦ g
    | none ↦
        let level = determine_appropriate_level g in
        if eqb_ℤ level g.current_level
        then g
        else if ltb_ℤ (time_sub now g.last_level_change) g.config.stability_period
        then g
        else change_degradation_level level now g
  ]

  unfoldable pub perform_health_check : ℕ → GracefulDegradation → Ran GracefulDegradation (Unit {0})
  unfolding with_lock health_checked
  perform_health_check now gd = with_lock (λ g. finished (health_checked now g) tt) gd

  abbrev indicator : fl.Float → ℕ → HealthIndicator
  indicator threshold now = record {
    value = fl.decimal 0 0;
    threshold = threshold;
    critical = false;
    last_updated = now;
    trend = stable;
  }

  abbrev new_indicators : ℕ → List (Text × HealthIndicator)
  new_indicators now =
      (codes "error_rate", indicator (fl.decimal 10 2) now)
      ∷ (codes "response_time", indicator (fl.decimal 50 1) now)
      ∷ (codes "docker_connectivity", indicator (fl.decimal 5 1) now)
      ∷ (codes "resource_usage", indicator (fl.decimal 8 1) now)
      ∷ (codes "circuit_breaker_health", indicator (fl.decimal 5 1) now)
      ∷ []

  abbrev given : Option DegradationConfig → DegradationConfig
  given none = record {
    enable_auto_detection = true;
    default_level = level_normal;
    manual_override_allowed = true;
    stability_period = pos (seconds 300);
  }
  given (some c) = c

  unfoldable pub new_graceful_degradation : Option DegradationConfig → ℕ → GracefulDegradation
  new_graceful_degradation config now =
      let c = given config in
      record {
        config = record c {
          stability_period =
              if leb_ℤ c.stability_period (pos 0) then pos (seconds 300) else c.stability_period;
        };
        current_level = c.default_level;
        last_level_change = now;
        health_indicators = new_indicators now;
        level_history = [];
        metrics = record {
          transitions_count = [];
          checks_skipped = 0;
          checks_executed = 0;
          auto_recoveries = 0;
          manual_overrides = 0;
        };
        manual_override = none;
        locked = false;
      }
