-- ===== src/Errors.antt =====
-- internal/diagnostics/error_types.go: the structured errors of the diagnostics, and Go's errors as
-- the code builds and inspects them. `show_int` is how fmt prints an integer. The context map, the
-- tags and the other fields that only a reader of the error sees are left out.
pub mod Codes
use docker_net_doctor.Prelude.{
  ℕ, Bool, true, false, not, ◌&&◌, ◌||◌, Option, none, some, List, [], ◌∷◌, ◌++◌, if◌then◌else◌,
  length, ltb, ◌≡◌, ◌↔◌, arith,
}
use docker_net_doctor.Prelude.Int.{ℤ, pos, eqb_ℤ, eqb_ℤ_iff, leb_ℤ, ltb_ℤ}
use docker_net_doctor.Prelude.Dict.{Eq, lookup}
use docker_net_doctor.Prelude.Text.{Text, codes, text_eq}
use docker_net_doctor.Errors.Codes.*

instance abbrev pub ErrorCode-eq : Eq ℤ
ErrorCode-eq = record { beq = eqb_ℤ; beq_iff = eqb_ℤ_iff }

pub data ErrorType : Type 0 where
  generic connection resource network system context circuit_breaker : ErrorType

abbrev pub type_number : ErrorType → ℤ
type_number generic = pos 0
type_number connection = pos 1
type_number resource = pos 2
type_number network = pos 3
type_number system = pos 4
type_number context = pos 5
type_number circuit_breaker = pos 6

abbrev pub type_eq : ErrorType → ErrorType → Bool
type_eq s t = eqb_ℤ (type_number s) (type_number t)

pub type_eq_iff : (s t : ErrorType) → (type_eq s t ≡ true) ↔ (s ≡ t)
type_eq_iff generic t = ground arith
type_eq_iff connection t = ground arith
type_eq_iff resource t = ground arith
type_eq_iff network t = ground arith
type_eq_iff system t = ground arith
type_eq_iff context t = ground arith
type_eq_iff circuit_breaker t = ground arith

instance abbrev pub ErrorType-eq : Eq ErrorType
ErrorType-eq = record { beq = type_eq; beq_iff = type_eq_iff }

-- Severity of engine.go, which ErrorSeverity is.
pub data Severity : Type 0 where
  info warning error critical : Severity

abbrev pub is_critical : Severity → Bool
is_critical critical = true
is_critical _ = false

-- What the recovery reads of a strategy, and its advice.
pub record RecoveryStrategy : Type 0 where
  pub retry_with_backoff : Bool
  pub max_retries : ℤ
  pub cleanup_resources : Bool
  pub graceful_degrade : Bool
  pub network_recovery : Bool
  pub immediate : List Text
  pub long_term : List Text

pub record DiagnosticError : Type 0 where
  pub code : ℤ
  pub type : ErrorType
  pub message : Text
  pub severity : Severity
  pub recovery : Option RecoveryStrategy  -- `none` is nil
  pub recovery_attempted : Bool
  pub recovery_error : Text

-- Go's errors: those of the context package, one made of a message, a *DiagnosticError whose Original
-- is nil or not, and what fmt.Errorf makes of an error at `%w`, with the text before and after it.
pub data Error : Type 0 where
  canceled deadline_exceeded : Error
  plain : Text → Error
  diagnostic : DiagnosticError → Error
  diagnosed : DiagnosticError → Error → Error
  wrapped : Text → Error → Text → Error

-- errors.Is(err, context.Canceled) || errors.Is(err, context.DeadlineExceeded)
unfoldable pub is_context_error : Error → Bool
is_context_error canceled = true
is_context_error deadline_exceeded = true
is_context_error (plain m) = false
is_context_error (diagnostic d) = false
is_context_error (diagnosed d e) = is_context_error e
is_context_error (wrapped before e after) = is_context_error e

module _ (show_int : ℤ → Text) where
  -- err.Error(), of a DiagnosticError as its method has it.
  unfoldable pub error_text : Error → Text
  unfolding text_eq
  error_text canceled = codes "context canceled"
  error_text deadline_exceeded = codes "context deadline exceeded"
  error_text (plain m) = m
  error_text (diagnostic d) =
      if not (text_eq d.message [])
      then d.message
      else codes "diagnostic error (code: "
        ++ show_int d.code
        ++ codes ", type: "
        ++ show_int (type_number d.type)
        ++ codes ")"
  error_text (diagnosed d e) =
      let inner = error_text e in if not (text_eq d.message []) then d.message else inner
  error_text (wrapped before e after) = before ++ error_text e ++ after

  unfoldable pub get_code_string : DiagnosticError → Text
  unfolding lookup
  get_code_string d = elim (lookup d.code code_strings) [
    | none ↦ codes "Unknown Error Code (" ++ show_int d.code ++ codes ")"
    | some s ↦ s
  ]

unfoldable pub get_severity_string : Severity → Text
get_severity_string info = codes "INFO"
get_severity_string warning = codes "WARNING"
get_severity_string error = codes "ERROR"
get_severity_string critical = codes "CRITICAL"

unfoldable pub get_type_string : ErrorType → Text
get_type_string connection = codes "Connection"
get_type_string resource = codes "Resource"
get_type_string network = codes "Network"
get_type_string system = codes "System"
get_type_string context = codes "Context"
get_type_string circuit_breaker = codes "Circuit Breaker"
get_type_string generic = codes "Generic"

-- low <= code && code < high
abbrev within : ℕ → ℕ → ℤ → Bool
within low high code = leb_ℤ (pos low) code && ltb_ℤ code (pos high)

unfoldable pub get_error_type_from_code : ℤ → ErrorType
get_error_type_from_code code =
    if within 1000 1100 code
    then connection
    else if within 1100 1200 code
    then resource
    else if within 1200 1300 code
    then network
    else if within 1300 1400 code
    then system
    else if within 1400 1500 code
    then context
    else if within 1500 1600 code
    then circuit_breaker
    else generic

-- `case a, b, c:` of a switch over a code.
unfoldable pub is_one_of : List ℤ → ℤ → Bool
is_one_of [] code = false
is_one_of (c ∷ cs) code = eqb_ℤ code c || is_one_of cs code

unfoldable pub get_severity_from_code : ℤ → Severity
unfolding is_one_of
get_severity_from_code code =
    if is_one_of (code_docker_daemon_unreachable ∷ code_docker_daemon_not_running ∷ []) code
    then critical
    else if is_one_of (code_resource_exhaustion ∷ code_out_of_memory ∷ code_out_of_disk_space ∷ [])
        code
    then critical
    else if is_one_of (code_permission_error ∷ code_docker_permission_denied ∷ []) code
    then error
    else if is_one_of (code_timeout ∷ code_cancelled ∷ []) code
    then warning
    else if eqb_ℤ code code_circuit_breaker_open
    then error
    else warning

unfoldable pub new_diagnostic_error : ℤ → Text → DiagnosticError
new_diagnostic_error code message = record {
  code = code;
  type = get_error_type_from_code code;
  message = message;
  severity = get_severity_from_code code;
  recovery = none;
  recovery_attempted = false;
  recovery_error = [];
}

recoverable_as : ErrorType → ℤ → Bool
recoverable_as connection code = true
recoverable_as resource code = true
recoverable_as network code = true
recoverable_as context code = eqb_ℤ code code_timeout
recoverable_as system code = not (eqb_ℤ code code_permission_error)
recoverable_as circuit_breaker code = true
recoverable_as generic code = false

unfoldable pub is_recoverable : DiagnosticError → Bool
unfolding recoverable_as
is_recoverable d = recoverable_as d.type d.code

abbrev user_codes : List ℤ
user_codes =
    code_docker_permission_denied ∷ code_permission_error ∷ code_docker_daemon_not_running
    ∷ code_service_not_running ∷ code_configuration_missing ∷ code_dependency_missing
    ∷ code_subnet_overlap ∷ code_port_conflict ∷ []

unfoldable pub requires_user_intervention : DiagnosticError → Bool
unfolding is_one_of
requires_user_intervention d = if is_one_of user_codes d.code then true else is_critical d.severity

abbrev default_immediate : ErrorType → List Text
default_immediate connection =
    codes "Check if Docker daemon is running"
    ∷ codes "Verify Docker installation and configuration"
    ∷ codes "Test Docker connectivity with 'docker version'"
    ∷ []
default_immediate resource =
    codes "Free up system resources"
    ∷ codes "Check disk space and memory usage"
    ∷ codes "Stop unnecessary containers and services"
    ∷ []
default_immediate network =
    codes "Check network configuration"
    ∷ codes "Verify container network connectivity"
    ∷ codes "Review Docker network settings"
    ∷ []
default_immediate system =
    codes "Check system configuration"
    ∷ codes "Verify required services are running"
    ∷ codes "Review system logs for errors"
    ∷ []
default_immediate _ =
    codes "Retry the operation" ∷ codes "Check system health and connectivity" ∷ []

abbrev default_long_term : ErrorType → List Text
default_long_term connection =
    codes "Monitor Docker daemon health"
    ∷ codes "Set up automatic service recovery"
    ∷ codes "Implement health checks for Docker services"
    ∷ []
default_long_term resource =
    codes "Monitor resource usage trends"
    ∷ codes "Implement resource limits and quotas"
    ∷ codes "Plan for capacity scaling"
    ∷ []
default_long_term network =
    codes "Review network architecture"
    ∷ codes "Monitor network performance"
    ∷ codes "Implement network monitoring"
    ∷ []
default_long_term system =
    codes "Regular system maintenance"
    ∷ codes "Monitor system health metrics"
    ∷ codes "Keep system and dependencies updated"
    ∷ []
default_long_term _ =
    codes "Implement comprehensive monitoring" ∷ codes "Regular system health checks" ∷ []

-- The advice of a strategy where it has any, else the default one.
abbrev advice : Option RecoveryStrategy → (RecoveryStrategy → List Text) → List Text → List Text
advice none part fallback = fallback
advice (some r) part fallback = if ltb 0 (length (part r)) then part r else fallback

unfoldable pub get_immediate_actions : DiagnosticError → List Text
get_immediate_actions d = advice d.recovery (λ r. r.immediate) (default_immediate d.type)

unfoldable pub get_long_term_actions : DiagnosticError → List Text
get_long_term_actions d = advice d.recovery (λ r. r.long_term) (default_long_term d.type)
