-- ===== src/Breaker.antt =====
-- internal/diagnostics/circuit_breaker.go: the circuit breaker. A method takes the clock's readings
-- as arguments, `now` for the first and `later` for the one that a transition makes; the lock makes
-- each method one step. The methods stand in Breaker/Operations. Counters are unbounded numbers;
-- settings are integers, as in Go.
pub mod Operations
pub mod Invariant
pub mod Recovery
pub mod Outage
mod Tests
use docker_net_doctor.Prelude.{
  ℕ, ◌+◌, Bool, true, false, ◌&&◌, ◌||◌, Option, none, some, List, [], ◌∷◌, ◌==◌, ◌≡◌, ◌↔◌, refl,
  arith, if◌then◌else◌,
}
use docker_net_doctor.Prelude.Int.{ℤ, pos, ltb_ℤ, leb_ℤ, eqb_ℤ, scale, quot}
use docker_net_doctor.Prelude.Dict.{Eq, lookup, insert}
use docker_net_doctor.Prelude.Text.{Text, codes}
use docker_net_doctor.Prelude.Clock.{time_sub, time_add, seconds}
use docker_net_doctor.Prelude.Float.{Float64}

-- `opened` is CircuitStateOpen.
pub data CircuitState : Type 0 where
  closed opened half_open : CircuitState

abbrev pub state_eq : CircuitState → CircuitState → Bool
state_eq closed closed = true
state_eq opened opened = true
state_eq half_open half_open = true
state_eq _ _ = false

pub state_eq_iff : (a b : CircuitState) → (state_eq a b ≡ true) ↔ (a ≡ b)
state_eq_iff closed b = ground arith
state_eq_iff opened b = ground arith
state_eq_iff half_open b = ground arith

instance abbrev pub CircuitState-eq : Eq CircuitState
CircuitState-eq = record { beq = state_eq; beq_iff = state_eq_iff }

pub state_name : CircuitState → Text
state_name closed = codes "CLOSED"
state_name opened = codes "OPEN"
state_name half_open = codes "HALF_OPEN"

abbrev pub Transitions : Type 0
Transitions = List (CircuitState × ℕ)

-- `m[k]++` on a Go map: a missing key counts as 0.
abbrev increment : CircuitState → Transitions → Transitions
increment k m = insert k (elim (lookup k m) [ none ↦ 1 | some n ↦ n + 1 ]) m

unfoldable pub zero_all : Transitions → Transitions
zero_all [] = []
zero_all ((k, v) ∷ m) = (k, 0) ∷ zero_all m

module _ (fl : Float64) where
  open fl use {Float}

  pub record Config : Type 0 where
    pub failure_threshold : ℤ
    pub failure_rate : Float
    pub min_requests_threshold : ℤ
    pub recovery_timeout : ℤ
    pub consecutive_successes : ℤ
    pub half_open_max_requests : ℤ
    pub reset_timeout : ℤ
    pub adaptive_thresholds : Bool
    pub request_volume_threshold : ℤ

  pub record Breaker : Type 0 where
    pub config : Config
    pub state : CircuitState
    pub last_fail_time : ℕ
    pub last_state_change : ℕ
    pub failure_count : ℕ
    pub success_count : ℕ
    pub half_open_request_count : ℕ
    pub consecutive_failures : ℕ
    pub total_requests : ℕ
    pub total_failures : ℕ
    pub total_successes : ℕ
    pub last_request_time : ℕ
    pub state_transitions : Transitions

  -- The configuration that a nil argument stands for.
  abbrev pub default_config : Config
  default_config = record {
    failure_threshold = pos 5;
    failure_rate = fl.of_int (pos 0);
    min_requests_threshold = pos 10;
    recovery_timeout = pos (seconds 30);
    consecutive_successes = pos 3;
    half_open_max_requests = pos 2;
    reset_timeout = pos (seconds 60);
    adaptive_thresholds = false;
    request_volume_threshold = pos 20;
  }

  abbrev or_default : ℤ → ℤ → ℤ
  or_default v d = if eqb_ℤ v (pos 0) then d else v

  pub with_defaults : Config → Config
  with_defaults c = record c {
    consecutive_successes = or_default c.consecutive_successes (pos 3);
    half_open_max_requests = or_default c.half_open_max_requests (pos 2);
    recovery_timeout = or_default c.recovery_timeout (pos (seconds 30));
    reset_timeout = or_default c.reset_timeout (pos (seconds 60));
  }

  abbrev given : Option Config → Config
  given none = default_config
  given (some c) = c

  unfoldable pub new_circuit_breaker : Option Config → ℕ → Breaker
  unfolding with_defaults
  new_circuit_breaker config now = record {
    config = with_defaults (given config);
    state = closed;
    last_fail_time = 0;
    last_state_change = now;
    failure_count = 0;
    success_count = 0;
    half_open_request_count = 0;
    consecutive_failures = 0;
    total_requests = 0;
    total_failures = 0;
    total_successes = 0;
    last_request_time = 0;
    state_transitions = [];
  }

  pub reset_failure_count : Breaker → Breaker
  reset_failure_count cb = record cb { failure_count = 0; consecutive_failures = 0 }

  -- The three transitions do nothing in their own target state.
  pub transition_to_open : Breaker → ℕ → Breaker
  transition_to_open cb later = if state_eq cb.state opened then cb else record cb {
    state = opened;
    last_state_change = later;
    state_transitions = increment opened cb.state_transitions;
  }

  pub transition_to_closed : Breaker → ℕ → Breaker
  unfolding reset_failure_count
  transition_to_closed cb later =
      if state_eq cb.state closed
      then cb
      else record (reset_failure_count (record cb { state = closed; last_state_change = later })) {
        success_count = 0;
        half_open_request_count = 0;
        state_transitions = increment closed cb.state_transitions;
      }

  pub transition_to_half_open : Breaker → ℕ → Breaker
  transition_to_half_open cb later = if state_eq cb.state half_open then cb else record cb {
    state = half_open;
    last_state_change = later;
    success_count = 0;
    half_open_request_count = 0;
    state_transitions = increment half_open cb.state_transitions;
  }

  -- The threshold drops by a third above twice the request volume; 80% of it opens the circuit.
  pub should_open_with_adaptive_threshold : Breaker → Bool
  should_open_with_adaptive_threshold cb =
      if ltb_ℤ (pos cb.total_requests) volume
      then false
      else (let adjusted =
            if ltb_ℤ (scale volume 2) (pos cb.total_requests)
            then quot (scale threshold 2) 3
            else threshold in
          fl.le (fl.decimal 8 1)
            (fl.div (fl.of_int (pos cb.consecutive_failures)) (fl.of_int adjusted)))
    where
      open cb.config use {failure_threshold as threshold, request_volume_threshold as volume}

  abbrev float_rate : ℕ → ℕ → Float
  float_rate a b = fl.div (fl.of_int (pos a)) (fl.of_int (pos b))

  unfoldable pub should_open_circuit : Breaker → Bool
  should_open_circuit cb =
      leb_ℤ c.failure_threshold (pos cb.failure_count)
      || (fl.lt (fl.of_int (pos 0)) c.failure_rate
          && leb_ℤ c.min_requests_threshold (pos cb.total_requests)
          && fl.le c.failure_rate (float_rate cb.total_failures cb.total_requests))
      || (c.adaptive_thresholds && should_open_with_adaptive_threshold cb)
    where
      open cb use {config as c}
