-- ===== src/Security.antt =====
-- internal/diagnostics/security_validator.go: the policy under which checks run. Error and log
-- messages are constructors; `to_lower` is strings.ToLower, a parameter; `clock` gives the reading of
-- the clock at each log entry of a call.
pub mod Operations
pub mod Names
pub mod Decision
pub mod Calls
pub mod Policy
mod Tests
use docker_net_doctor.Prelude.{
  ℕ, zero, suc, ◌+◌, ◌-◌, Bool, true, false, not, ◌&&◌, ◌||◌, Option, none, some, List, [], ◌∷◌,
  ◌++◌, ◌==◌, ltb, leb, if◌then◌else◌, length, drop, all, any, keep,
}
use docker_net_doctor.Prelude.Int.{ℤ, pos, negsuc, ltb_ℤ}
use docker_net_doctor.Prelude.Dict.{lookup, insert, delete}
use docker_net_doctor.Prelude.Text.{Text, codes, text_eq, Text-eq, has_prefix, contains_text}

-- What the validator asks of a Check.
pub record Check : Type 0 where
  pub name : Text
  pub description : Text
  pub severity : ℤ

pub data RuleSeverity : Type 0 where
  info warning critical : RuleSeverity

-- The errors of the rules.
pub data Violation : Type 0 where
  empty_name name_too_long invalid_characters : Violation
  dangerous_pattern : Text → Violation
  not_in_allowlist in_denylist : Violation
  description_too_long script_injection severity_out_of_range : Violation

pub data Rule : Type 0 where
  check_name_validation check_allowlist check_denylist : Rule
  check_description_validation check_severity_validation : Rule

pub data Failure : Type 0 where
  nil_check : Failure
  security_validation_failed : Rule → Violation → Failure

pub data Reason : Type 0 where
  test_check_allowed all_rules_passed added_to_allowlist added_to_denylist : Reason
  rule_failed : Rule → Violation → Reason

pub record CheckAuditLog : Type 0 where
  pub check_name : Text
  pub timestamp : ℕ
  pub allowed : Bool
  pub reason : Reason

pub record SecurityValidator : Type 0 where
  pub allowed_checks : List (Text × Bool)
  pub denied_checks : List (Text × Bool)
  pub check_history : List CheckAuditLog
  pub max_history_size : ℕ
  pub test_mode : Bool

abbrev default_allowed : List Text
default_allowed =
    codes "daemon_connectivity"
    ∷ codes "bridge_network"
    ∷ codes "ip_forwarding"
    ∷ codes "iptables"
    ∷ codes "dns_resolution"
    ∷ codes "internal_dns"
    ∷ codes "container_connectivity"
    ∷ codes "port_binding"
    ∷ codes "network_isolation"
    ∷ codes "mtu_consistency"
    ∷ codes "subnet_overlap"
    ∷ []

allow_all : List Text → List (Text × Bool) → List (Text × Bool)
allow_all [] m = m
allow_all (n ∷ ns) m = allow_all ns (insert n true m)

pub new_security_validator : SecurityValidator
unfolding allow_all
new_security_validator = record {
  allowed_checks = allow_all default_allowed [];
  denied_checks = [];
  check_history = [];
  max_history_size = 1000;
  test_mode = false;
}

-- The rules that initializeValidationRules sets up, which nothing changes.
abbrev pub validation_rules : List Rule
validation_rules =
    check_name_validation ∷ check_allowlist ∷ check_denylist ∷ check_description_validation
    ∷ check_severity_validation ∷ []

abbrev pub rule_severity : Rule → RuleSeverity
rule_severity check_name_validation = critical
rule_severity check_allowlist = critical
rule_severity check_denylist = critical
rule_severity check_description_validation = warning
rule_severity check_severity_validation = info

-- [a-zA-Z0-9_-]
pub valid_char : ℕ → Bool
valid_char c =
    (leb b'a' c && leb c b'z')
    || (leb b'A' c && leb c b'Z')
    || (leb b'0' c && leb c b'9')
    || c == b'_'
    || c == b'-'

-- The first pattern of a list that a text contains.
first_contained : Text → List Text → Option Text
first_contained s [] = none
first_contained s (p ∷ ps) =
    let later = first_contained s ps in if contains_text s p then some p else later

abbrev pub dangerous_patterns : List Text
dangerous_patterns =
    codes ".."
    ∷ codes "./"
    ∷ codes "\\"
    ∷ codes "$("
    ∷ codes "${"
    ∷ codes "`"
    ∷ codes "|"
    ∷ codes ";"
    ∷ codes "&"
    ∷ codes ">"
    ∷ codes "<"
    ∷ []

-- The regular expression wants one valid character at least, which the first test has seen to.
pub validate_check_name : Text → Option Violation
unfolding first_contained
validate_check_name name =
    if text_eq name []
    then some empty_name
    else if ltb 100 (length name)
    then some name_too_long
    else if not (all valid_char name)
    then some invalid_characters
    else (elim (first_contained name dangerous_patterns) [
      | none ↦ none
      | some p ↦ some (dangerous_pattern p)
    ])

pub validate_check_name_string : Text → Option Violation
validate_check_name_string name =
    if text_eq name []
    then some empty_name
    else if ltb 100 (length name)
    then some name_too_long
    else if not (all valid_char name)
    then some invalid_characters
    else none

abbrev script_patterns : List Text
script_patterns =
    codes "<script"
    ∷ codes "javascript:"
    ∷ codes "onerror="
    ∷ codes "onclick="
    ∷ codes "onload="
    ∷ []

-- SeverityInfo is 0 and SeverityCritical is 3.
pub validate_severity : ℤ → Option Violation
validate_severity s =
    if ltb_ℤ s (pos 0) || ltb_ℤ (pos 3) s then some severity_out_of_range else none

-- `m[name]` with its second result: there and true.
abbrev pub listed : Text → List (Text × Bool) → Bool
listed name m = elim (lookup name m) [ none ↦ false | some b ↦ b ]

abbrev test_patterns : List Text
test_patterns =
    codes "check"
    ∷ codes "test"
    ∷ codes "quick"
    ∷ codes "mock"
    ∷ codes "debug"
    ∷ codes "simple"
    ∷ codes "success"
    ∷ codes "failure"
    ∷ codes "fail"
    ∷ codes "panic"
    ∷ codes "error"
    ∷ codes "slow"
    ∷ codes "medium"
    ∷ codes "fast"
    ∷ codes "benchmark"
    ∷ []

matches_pattern : Text → Text → Bool
matches_pattern lower p =
    (has_prefix lower p
      || contains_text lower (b'_' ∷ p)
      || contains_text lower (p ++ b'_' ∷ [])
      || text_eq lower p)
    && not (text_eq lower (codes "production_check"))

is_digit : ℕ → Bool
is_digit c = leb b'0' c && leb c b'9'

-- ^word\d+$
numbered : Text → Text → Bool
unfolding is_digit
numbered lower word =
    let rest = drop (length word) lower in
    has_prefix lower word && not (text_eq rest []) && all is_digit rest

abbrev numbered_words : List Text
numbered_words = codes "check" ∷ codes "test" ∷ codes "mock" ∷ codes "quick" ∷ []
