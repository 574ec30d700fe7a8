-- ===== src/Security/Decision.antt =====
-- What ValidateCheck of internal/diagnostics/security_validator.go decides, and what it logs.
use docker_net_doctor.Prelude.{
  ℕ, zero, suc, ◌+◌, ◌-◌, ◌≤◌, ◌<◌, ◌≡◌, refl, ◌↔◌, ◌⊎◌, inl, inr, Bool, true, false, ◌&&◌, Option,
  none, some, List, [], ◌∷◌, ◌++◌, arith, ltb, length, drop, length-append, Bool-cases,
  Option-cases,
}
use docker_net_doctor.Prelude.Text.{Text}
use docker_net_doctor.Security.{
  Check, RuleSeverity, Rule, Failure, Reason, CheckAuditLog, SecurityValidator, validation_rules,
  rule_severity, validate_check_name, listed,
}
use docker_net_doctor.Security.Operations.{
  log_validation, validate_denylist, is_test_check_name, validate_allowlist, run_rule, run_rules,
  validate_check,
}
use docker_net_doctor.Security.Names.{IsWellFormed, validate_check_name_iff}

-- The end of a list stays when no more than the rest is dropped.
drop-append :
    {A : Type 0} (n : ℕ) (xs : List A) (x : A)
    → n ≤ length xs
    → drop n (xs ++ x ∷ []) ≡ drop n xs ++ x ∷ []
drop-append zero xs x h = refl
drop-append (suc n) [] x h = absurd (omega arith)
drop-append (suc n) (y ∷ xs) x h = drop-append n xs x (omega arith)

-- The last entry of an audit log.
abbrev pub EndsWith : CheckAuditLog → SecurityValidator → Type 0
EndsWith log v = (earlier : List CheckAuditLog) × (v.check_history ≡ earlier ++ log ∷ [])

log_validation-EndsWith :
    (name : Text) (ok : Bool) (why : Reason) (now : ℕ) (v : SecurityValidator)
    → 0 < v.max_history_size
    → EndsWith
        (record { check_name = name; timestamp = now; allowed = ok; reason = why })
        (log_validation name ok why now v)
unfolding log_validation
log_validation-EndsWith name ok why now v positive =
    let log : CheckAuditLog = record {
      check_name = name;
      timestamp = now;
      allowed = ok;
      reason = why;
    } in
    let grown = v.check_history ++ log ∷ [] in
    elim (Bool-cases (ltb v.max_history_size (length grown))) [
      | inl over ↦ (
        drop (length grown - v.max_history_size) v.check_history,
        rw over (
            drop-append (length grown - v.max_history_size) v.check_history log
              (omega (arith, length-append v.check_history (log ∷ [])))),
      )
      | inr fits ↦ (v.check_history, rw fits refl)
    ]

module _ (to_lower : Text → Text) where
  -- The newest entry of the log is about this check, and says whether it passed.
  pub record Logged (c : Check) (out : SecurityValidator × Option Failure) : Type 0 where
    pub log : CheckAuditLog
    pub newest : EndsWith log out.0
    pub named : log.check_name ≡ c.name
    pub agrees : (log.allowed ≡ true) ↔ (out.1 ≡ none)

  log-Logged :
      (c : Check) (ok : Bool) (why : Reason) (now : ℕ) (v : SecurityValidator) (r : Option Failure)
      → 0 < v.max_history_size
      → (ok ≡ true) ↔ (r ≡ none)
      → Logged c (log_validation c.name ok why now v, r)
  log-Logged c ok why now v r positive agree = record {
    log = record { check_name = c.name; timestamp = now; allowed = ok; reason = why };
    newest = log_validation-EndsWith c.name ok why now v positive;
    named = refl;
    agrees = agree;
  }

  run_rules-Logged :
      (clock : ℕ → ℕ) (rs : List Rule) (c : Check) (i : ℕ) (v : SecurityValidator)
      → 0 < v.max_history_size
      → Logged c (run_rules to_lower clock rs c i v)
  unfolding run_rules log_validation
  run_rules-Logged clock [] c i v positive =
      log-Logged c true Reason.all_rules_passed (clock i) v none positive (ground arith)
  run_rules-Logged clock (r ∷ rs) c i v positive = elim (Option-cases (run_rule to_lower r c v)) [
    | inl ok ↦ rw (run_rules, ok) (run_rules-Logged clock rs c i v positive)
    | inr (e, bad) ↦
        let logged = log_validation c.name false (Reason.rule_failed r e) (clock i) v in
        let stopped =
          log-Logged c false (Reason.rule_failed r e) (clock i) v
            (some (Failure.security_validation_failed r e)) positive (ground arith) in
        let went_on = run_rules-Logged clock rs c (i + 1) logged positive in
        rw (run_rules, bad)
          (elim (rule_severity r)
            as (λ s. Logged c (elim s [
              | RuleSeverity.critical ↦ (logged, some (Failure.security_validation_failed r e))
              | _ ↦ run_rules to_lower clock rs c (i + 1) logged
            ])) [
              | RuleSeverity.critical ↦ stopped
              | RuleSeverity.warning ↦ went_on
              | RuleSeverity.info ↦ went_on
            ])
  ]

  -- The two rules at the end are not critical.
  last_rules :
      (clock : ℕ → ℕ) (c : Check) (i : ℕ) (v : SecurityValidator)
      → (run_rules to_lower clock
          (Rule.check_description_validation ∷ Rule.check_severity_validation ∷ [])
          c
          i
          v).1
        ≡ none
  unfolding run_rules
  last_rules clock c i v = ground arith

  critical_rules :
      (clock : ℕ → ℕ) (c : Check) (v : SecurityValidator)
      → ((run_rules to_lower clock validation_rules c 0 v).1 ≡ none) ↔ (
          (validate_check_name c.name ≡ none)
          × ((validate_allowlist to_lower c v ≡ none) × (validate_denylist c v ≡ none)))
  unfolding run_rules run_rule
  critical_rules clock c v = ground (arith, last_rules clock c 0 v)

  -- ValidateCheck returns no error exactly when test mode is on and the name looks like a test's, or
  -- the name is well formed, allowed and not denied: description and severity never stop a check.
  pub validate_check_iff :
      (clock : ℕ → ℕ) (c : Check) (v : SecurityValidator)
      → ((validate_check to_lower clock (some c) v).1 ≡ none) ↔ (
          ((v.test_mode ≡ true) × (is_test_check_name to_lower c.name ≡ true))
          ⊎ (IsWellFormed c.name
              × ((listed c.name v.allowed_checks ≡ true)
                  × (listed c.name v.denied_checks ≡ false))))
  unfolding validate_check validate_allowlist validate_denylist
  validate_check_iff clock c v =
      ground (arith, critical_rules clock c v, validate_check_name_iff c.name)

  -- With room for an entry, ValidateCheck ends the audit log with an entry for the check, which says
  -- that it was allowed exactly when the call returns no error.
  pub validate_check-Logged :
      (clock : ℕ → ℕ) (c : Check) (v : SecurityValidator)
      → 0 < v.max_history_size
      → Logged c (validate_check to_lower clock (some c) v)
  unfolding validate_check
  validate_check-Logged clock c v positive =
      elim (Bool-cases (v.test_mode && is_test_check_name to_lower c.name)) [
        | inl test ↦
            rw test
              (log-Logged c true Reason.test_check_allowed (clock 0) v none positive (ground arith))
        | inr rules ↦ rw rules (run_rules-Logged clock validation_rules c 0 v positive)
      ]
