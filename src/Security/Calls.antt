-- ===== src/Security/Calls.antt =====
-- Sequences of calls of internal/diagnostics/security_validator.go, and what its audit log leaves alone.
use docker_net_doctor.Prelude.{
  ℕ, ◌+◌, ◌-◌, ◌≤◌, ◌≡◌, refl, ◌∙◌, inl, inr, Bool, true, false, ◌&&◌, Option, none, some, List, [],
  ◌∷◌, ◌++◌, arith, length, length-drop, Bool-cases, Option-cases,
}
use docker_net_doctor.Prelude.Text.{Text, Text-eq}
use docker_net_doctor.Security.{
  Check, RuleSeverity, Rule, Failure, Reason, SecurityValidator, validation_rules, rule_severity,
}
use docker_net_doctor.Security.Operations.{
  log_validation, add_to_allowlist, add_to_denylist, set_test_mode, reset_audit_log,
  is_test_check_name, run_rule, run_rules, validate_check,
}

-- A call that changes the validator, with the times that it reads.
pub data Call : Type 0 where
  validating : (ℕ → ℕ) → Option Check → Call
  allowing denying : Text → ℕ → Call
  switching : Bool → Call
  resetting : Call

-- What no call to the audit log touches.
pub record SamePolicy (u v : SecurityValidator) : Type 0 where
  pub allowed : u.allowed_checks ≡ v.allowed_checks
  pub denied : u.denied_checks ≡ v.denied_checks
  pub max : u.max_history_size ≡ v.max_history_size
  pub mode : u.test_mode ≡ v.test_mode

abbrev pub Bounded : SecurityValidator → Type 0
Bounded v = length v.check_history ≤ v.max_history_size

pub log-SamePolicy :
    (name : Text) (ok : Bool) (why : Reason) (now : ℕ) (v : SecurityValidator)
    → SamePolicy (log_validation name ok why now v) v
unfolding log_validation
log-SamePolicy name ok why now v = record { allowed = refl; denied = refl; max = refl; mode = refl }

pub log-Bounded :
    (name : Text) (ok : Bool) (why : Reason) (now : ℕ) (v : SecurityValidator)
    → Bounded (log_validation name ok why now v)
unfolding log_validation
log-Bounded name ok why now v =
    let grown =
      v.check_history
      ++ record { check_name = name; timestamp = now; allowed = ok; reason = why } ∷ [] in
    ground (arith, length-drop (length grown - v.max_history_size) grown)

module _ (to_lower : Text → Text) where
  unfoldable pub step : Call → SecurityValidator → SecurityValidator
  step (Call.validating clock c) v = (validate_check to_lower clock c v).0
  step (Call.allowing name now) v = (add_to_allowlist name now v).0
  step (Call.denying name now) v = (add_to_denylist name now v).0
  step (Call.switching enabled) v = set_test_mode enabled v
  step Call.resetting v = reset_audit_log v

  unfoldable pub run : List Call → SecurityValidator → SecurityValidator
  unfolding step
  run [] v = v
  run (x ∷ xs) v = run xs (step x v)

  trans-SamePolicy : {u v w : SecurityValidator} → SamePolicy u v → SamePolicy v w → SamePolicy u w
  trans-SamePolicy p q = record {
    allowed = p.allowed ∙ q.allowed;
    denied = p.denied ∙ q.denied;
    max = p.max ∙ q.max;
    mode = p.mode ∙ q.mode;
  }

  -- What a validation of a check does to the validator.
  abbrev Validated : SecurityValidator → SecurityValidator → Type 0
  Validated u v = SamePolicy u v × Bounded u

  abbrev Leaves : SecurityValidator × Option Failure → SecurityValidator → Type 0
  Leaves out v = Validated out.0 v

  run_rules-Validated :
      (clock : ℕ → ℕ) (rs : List Rule) (c : Check) (i : ℕ) (v : SecurityValidator)
      → Leaves (run_rules to_lower clock rs c i v) v
  unfolding run_rules
  run_rules-Validated clock [] c i v = (
    log-SamePolicy c.name true Reason.all_rules_passed (clock i) v,
    log-Bounded c.name true Reason.all_rules_passed (clock i) v,
  )
  run_rules-Validated clock (r ∷ rs) c i v = elim (Option-cases (run_rule to_lower r c v)) [
    | inl ok ↦ rw (run_rules, ok) (run_rules-Validated clock rs c i v)
    | inr (e, bad) ↦
        let why = Reason.rule_failed r e in
        let logged = log_validation c.name false why (clock i) v in
        let same = log-SamePolicy c.name false why (clock i) v in
        let stopped : Validated logged v = (same, log-Bounded c.name false why (clock i) v) in
        let (later, bound) = run_rules-Validated clock rs c (i + 1) logged in
        let went_on : Validated (run_rules to_lower clock rs c (i + 1) logged).0 v =
          (trans-SamePolicy later same, bound) in
        rw (run_rules, bad)
          (elim (rule_severity r)
            as (λ s.
              Leaves
                (elim s [
                  | RuleSeverity.critical ↦ (logged, some (Failure.security_validation_failed r e))
                  | _ ↦ run_rules to_lower clock rs c (i + 1) logged
                ])
                v) [
                  | RuleSeverity.critical ↦ stopped
                  | RuleSeverity.warning ↦ went_on
                  | RuleSeverity.info ↦ went_on
                ])
  ]

  pub validate_check-SamePolicy :
      (clock : ℕ → ℕ) (c : Option Check) (v : SecurityValidator)
      → SamePolicy (validate_check to_lower clock c v).0 v
  unfolding validate_check
  validate_check-SamePolicy clock none v = record {
    allowed = refl;
    denied = refl;
    max = refl;
    mode = refl;
  }
  validate_check-SamePolicy clock (some c) v =
      elim (Bool-cases (v.test_mode && is_test_check_name to_lower c.name)) [
        | inl test ↦ rw test (log-SamePolicy c.name true Reason.test_check_allowed (clock 0) v)
        | inr rules ↦ rw rules (run_rules-Validated clock validation_rules c 0 v).0
      ]

  pub validate_check-Bounded :
      (clock : ℕ → ℕ) (c : Option Check) (v : SecurityValidator)
      → Bounded v
      → Bounded (validate_check to_lower clock c v).0
  unfolding validate_check
  validate_check-Bounded clock none v b = b
  validate_check-Bounded clock (some c) v b =
      elim (Bool-cases (v.test_mode && is_test_check_name to_lower c.name)) [
        | inl test ↦ rw test (log-Bounded c.name true Reason.test_check_allowed (clock 0) v)
        | inr rules ↦ rw rules (run_rules-Validated clock validation_rules c 0 v).1
      ]
