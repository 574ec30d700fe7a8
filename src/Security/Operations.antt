-- ===== src/Security/Operations.antt =====
-- The operations of internal/diagnostics/security_validator.go. `to_lower` is strings.ToLower, and
-- `clock i` is the time of the entry `i` that a call writes to the audit log.
use docker_net_doctor.Prelude.{
  ℕ, suc, ◌+◌, ◌-◌, Bool, true, false, not, ◌&&◌, ◌||◌, Option, none, some, List, [], ◌∷◌, ◌++◌,
  ltb, if◌then◌else◌, length, drop, any, keep,
}
use docker_net_doctor.Prelude.Int.{ℤ, pos, pos_part, neg_part}
use docker_net_doctor.Prelude.Dict.{insert, delete}
use docker_net_doctor.Prelude.Float.{Float64}
use docker_net_doctor.Prelude.Text.{Text, Text-eq}
use docker_net_doctor.Security.{
  Check, RuleSeverity, Violation, Rule, Failure, Reason, CheckAuditLog, SecurityValidator,
  new_security_validator, validation_rules, rule_severity, first_contained, validate_check_name,
  validate_check_name_string, script_patterns, validate_severity, listed, test_patterns,
  matches_pattern, numbered, numbered_words,
}

-- The append to the audit log, with its trim to the latest entries.
unfoldable pub log_validation : Text → Bool → Reason → ℕ → SecurityValidator → SecurityValidator
log_validation name ok why now v =
    let grown =
      v.check_history
      ++ record { check_name = name; timestamp = now; allowed = ok; reason = why } ∷ [] in
    record v {
      check_history =
          if ltb v.max_history_size (length grown)
          then drop (length grown - v.max_history_size) grown
          else grown;
    }

unfoldable pub new_security_validator_test_mode : SecurityValidator
new_security_validator_test_mode = record new_security_validator { test_mode = true }

unfoldable pub validate_denylist : Check → SecurityValidator → Option Violation
validate_denylist c v = if listed c.name v.denied_checks then some Violation.in_denylist else none

unfoldable pub add_to_allowlist :
    Text → ℕ → SecurityValidator → SecurityValidator × Option Violation
add_to_allowlist name now v = elim (validate_check_name_string name) [
  | some e ↦ (v, some e)
  | none ↦ (
    log_validation name true Reason.added_to_allowlist now (record v {
      allowed_checks = insert name true v.allowed_checks;
      denied_checks = delete name v.denied_checks;
    }),
    none,
  )
]

unfoldable pub add_to_denylist : Text → ℕ → SecurityValidator → SecurityValidator × Option Violation
add_to_denylist name now v = elim (validate_check_name_string name) [
  | some e ↦ (v, some e)
  | none ↦ (
    log_validation name false Reason.added_to_denylist now (record v {
      allowed_checks = delete name v.allowed_checks;
      denied_checks = insert name true v.denied_checks;
    }),
    none,
  )
]

unfoldable pub set_test_mode : Bool → SecurityValidator → SecurityValidator
set_test_mode enabled v = record v { test_mode = enabled }

unfoldable pub reset_audit_log : SecurityValidator → SecurityValidator
reset_audit_log v = record v { check_history = [] }

unfoldable pub get_audit_log : SecurityValidator → List CheckAuditLog
get_audit_log v = v.check_history

-- An entry is recent when it is after the time `now - duration`, with the duration moved to the
-- other side.
unfoldable pub get_recent_denials : ℤ → ℕ → SecurityValidator → List CheckAuditLog
get_recent_denials duration now v =
    keep
      (λ log. not log.allowed && ltb (now + neg_part duration) (log.timestamp + pos_part duration))
      v.check_history

unfoldable pub is_check_allowed : Text → SecurityValidator → Bool
is_check_allowed name v = listed name v.allowed_checks

unfoldable pub is_check_denied : Text → SecurityValidator → Bool
is_check_denied name v = listed name v.denied_checks

module _ (to_lower : Text → Text) where
  unfoldable pub is_test_check_name : Text → Bool
  unfolding matches_pattern numbered
  is_test_check_name name =
      any (matches_pattern (to_lower name)) test_patterns
      || any (numbered (to_lower name)) numbered_words

  unfoldable pub validate_allowlist : Check → SecurityValidator → Option Violation
  validate_allowlist c v =
      if v.test_mode && is_test_check_name c.name
      then none
      else if listed c.name v.allowed_checks
      then none
      else some Violation.not_in_allowlist

  unfoldable pub validate_description : Check → Option Violation
  unfolding first_contained
  validate_description c =
      if ltb 500 (length c.description)
      then some Violation.description_too_long
      else (elim (first_contained (to_lower c.description) script_patterns) [
        | none ↦ none
        | some p ↦ some Violation.script_injection
      ])

  unfoldable pub run_rule : Rule → Check → SecurityValidator → Option Violation
  run_rule Rule.check_name_validation c v = validate_check_name c.name
  run_rule Rule.check_allowlist c v = validate_allowlist c v
  run_rule Rule.check_denylist c v = validate_denylist c v
  run_rule Rule.check_description_validation c v = validate_description c
  run_rule Rule.check_severity_validation c v = validate_severity c.severity

  -- The loop over the rules from the entry `i` of the audit log on, with what follows the loop.
  unfoldable pub run_rules :
      (ℕ → ℕ) → List Rule → Check → ℕ → SecurityValidator → SecurityValidator × Option Failure
  run_rules clock [] c i v = (log_validation c.name true Reason.all_rules_passed (clock i) v, none)
  run_rules clock (r ∷ rs) c i v = elim (run_rule r c v) [
    | none ↦ run_rules clock rs c i v
    | some e ↦
        let logged = log_validation c.name false (Reason.rule_failed r e) (clock i) v in
        elim (rule_severity r) [
          | RuleSeverity.critical ↦ (logged, some (Failure.security_validation_failed r e))
          | _ ↦ run_rules clock rs c (i + 1) logged
        ]
  ]

  -- `none` is a nil check.
  unfoldable pub validate_check :
      (ℕ → ℕ) → Option Check → SecurityValidator → SecurityValidator × Option Failure
  validate_check clock none v = (v, some Failure.nil_check)
  validate_check clock (some c) v =
      if v.test_mode && is_test_check_name c.name
      then (log_validation c.name true Reason.test_check_allowed (clock 0) v, none)
      else run_rules clock validation_rules c 0 v

-- The two counters of the loop of GetStatistics.
unfoldable pub tally : List CheckAuditLog → ℕ × ℕ
tally [] = (0, 0)
tally (log ∷ logs) =
    let (allowed, denied) = tally logs in
    if log.allowed then (suc allowed, denied) else (allowed, suc denied)

module _ (fl : Float64) where
  pub record ValidationStatistics : Type 0 where
    pub total_validations : ℕ
    pub total_allowed : ℕ
    pub total_denied : ℕ
    pub denial_rate : fl.Float
    pub allowed_checks : ℕ
    pub denied_checks : ℕ

  unfoldable pub get_statistics : SecurityValidator → ValidationStatistics
  unfolding tally
  get_statistics v =
      let total = length v.check_history in
      let (allowed, denied) = tally v.check_history in
      record {
        total_validations = total;
        total_allowed = allowed;
        total_denied = denied;
        denial_rate =
            if ltb 0 total
            then fl.div (fl.of_int (pos denied)) (fl.of_int (pos total))
            else fl.of_int (pos 0);
        allowed_checks = length v.allowed_checks;
        denied_checks = length v.denied_checks;
      }
