-- ===== src/Security/Policy.antt =====
-- The lists and the audit log of internal/diagnostics/security_validator.go over any calls.
use docker_net_doctor.Prelude.{
  ℕ, ◌≡◌, ◌≢◌, sym, ◌∙◌, ap, inl, inr, Bool, true, false, not, none, some, List, [], ◌∷◌, arith,
  all, Option-cases,
}
use docker_net_doctor.Prelude.Dict.{
  lookup, insert, delete, lookup-insert, lookup-delete, lookup-insert_self,
}
use docker_net_doctor.Prelude.Text.{Text, text_eq, Text-eq}
use docker_net_doctor.Security.{
  Check, Reason, SecurityValidator, new_security_validator, validate_check_name_string, listed,
}
use docker_net_doctor.Security.Operations.{
  log_validation, add_to_allowlist, add_to_denylist, set_test_mode, reset_audit_log, validate_check,
}
use docker_net_doctor.Security.Decision.{validate_check_iff}
use docker_net_doctor.Security.Calls.{
  Call, SamePolicy, Bounded, log-Bounded, step, run, validate_check-SamePolicy,
  validate_check-Bounded,
}

module _ (to_lower : Text → Text) where
  -- The log stays within its limit, and no name is both allowed and denied.
  pub record IsSound (v : SecurityValidator) : Type 0 where
    pub bounded : Bounded v
    pub apart :
        (name : Text) → listed name v.denied_checks ≡ true → listed name v.allowed_checks ≡ false

  IsSound-as : (u v : SecurityValidator) → SamePolicy u v → Bounded u → IsSound v → IsSound u
  IsSound-as u v p b s = record {
    bounded = b;
    apart =
        λ name d. ap (listed name) p.allowed ∙ s.apart name (sym (ap (listed name) p.denied) ∙ d);
  }

  -- One list gains a name and the other loses it.
  moved_apart :
      (name : Text) (to from : List (Text × Bool))
      → ((n : Text) → listed n to ≡ true → listed n from ≡ false)
      → (n : Text) → listed n (insert name true to) ≡ true
      → listed n (delete name from) ≡ false
  moved_apart name to from h n d =
      ground (arith, h n, lookup-insert name n true to, lookup-delete name n from)

  flip : (a b : Bool) → (a ≡ true → b ≡ false) → b ≡ true → a ≡ false
  flip a b h e = ground arith

  abbrev Apart : SecurityValidator → Type 0
  Apart v =
      (name : Text) → listed name v.denied_checks ≡ true → listed name v.allowed_checks ≡ false

  log-IsSound :
      (name : Text) (ok : Bool) (why : Reason) (now : ℕ) (v : SecurityValidator)
      → Apart v
      → IsSound (log_validation name ok why now v)
  unfolding log_validation
  log-IsSound name ok why now v a = record { bounded = log-Bounded name ok why now v; apart = a }

  step-IsSound : (x : Call) (v : SecurityValidator) → IsSound v → IsSound (step to_lower x v)
  unfolding step add_to_allowlist add_to_denylist set_test_mode reset_audit_log
  step-IsSound (Call.validating clock c) v s =
      IsSound-as _ v (validate_check-SamePolicy to_lower clock c v)
        (validate_check-Bounded to_lower clock c v s.bounded) s
  step-IsSound (Call.allowing name now) v s =
      let w : SecurityValidator = record v {
        allowed_checks = insert name true v.allowed_checks;
        denied_checks = delete name v.denied_checks;
      } in
      elim (Option-cases (validate_check_name_string name)) [
        | inl ok ↦
            rw (step, ok)
              (log-IsSound name true Reason.added_to_allowlist now w (λ n d.
                flip (listed n w.allowed_checks) (listed n w.denied_checks)
                  (moved_apart name v.allowed_checks v.denied_checks
                    (λ k. flip (listed k v.denied_checks) (listed k v.allowed_checks) (s.apart k))
                    n)
                  d))
        | inr (e, bad) ↦ rw (step, bad) s
      ]
  step-IsSound (Call.denying name now) v s =
      let w : SecurityValidator = record v {
        allowed_checks = delete name v.allowed_checks;
        denied_checks = insert name true v.denied_checks;
      } in
      elim (Option-cases (validate_check_name_string name)) [
        | inl ok ↦
            rw (step, ok)
              (log-IsSound name false Reason.added_to_denylist now w
                (moved_apart name v.denied_checks v.allowed_checks s.apart))
        | inr (e, bad) ↦ rw (step, bad) s
      ]
  step-IsSound (Call.switching enabled) v s = record { bounded = s.bounded; apart = s.apart }
  step-IsSound Call.resetting v s = record { bounded = omega arith; apart = s.apart }

  run_from-IsSound :
      (xs : List Call) (v : SecurityValidator) → IsSound v → IsSound (run to_lower xs v)
  unfolding run
  run_from-IsSound [] v s = s
  run_from-IsSound (x ∷ xs) v s = run_from-IsSound xs (step to_lower x v) (step-IsSound x v s)

  -- After any calls on a new validator the audit log has no more entries than its limit, and no name
  -- is on the allowlist and on the denylist.
  pub run-IsSound : (xs : List Call) → IsSound (run to_lower xs new_security_validator)
  unfolding new_security_validator lookup
  run-IsSound xs =
      run_from-IsSound xs new_security_validator
        (record { bounded = omega arith; apart = λ n d. absurd (ground arith) })

  -- The calls that leave a denied name denied: all but AddToAllowlist of that name.
  abbrev pub leaves_denied : Text → Call → Bool
  leaves_denied name (Call.allowing n now) = not (text_eq n name)
  leaves_denied name x = true

  step-denied :
      (name : Text) (x : Call) (v : SecurityValidator)
      → leaves_denied name x ≡ true
      → listed name v.denied_checks ≡ true
      → listed name (step to_lower x v).denied_checks ≡ true
  unfolding step add_to_allowlist add_to_denylist set_test_mode reset_audit_log log_validation
  step-denied name (Call.validating clock c) v l d =
      ap (listed name) (validate_check-SamePolicy to_lower clock c v).denied ∙ d
  step-denied name (Call.allowing n now) v l d =
      ground (arith, lookup-delete n name v.denied_checks)
  step-denied name (Call.denying n now) v l d =
      ground (arith, lookup-insert n name true v.denied_checks)
  step-denied name (Call.switching enabled) v l d = d
  step-denied name Call.resetting v l d = d

  run-denied :
      (name : Text) (xs : List Call) (v : SecurityValidator)
      → all (leaves_denied name) xs ≡ true
      → listed name v.denied_checks ≡ true
      → listed name (run to_lower xs v).denied_checks ≡ true
  unfolding run
  run-denied name [] v l d = d
  run-denied name (x ∷ xs) v l d =
      run-denied name xs (step to_lower x v) (ground arith) (step-denied name x v (ground arith) d)

  -- Once AddToDenylist of a name has returned no error, then after any calls but AddToAllowlist of
  -- that name, and while test mode is off, ValidateCheck returns an error for a check of that name.
  pub denied_stays_denied :
      (name : Text) (now : ℕ) (xs : List Call) (v : SecurityValidator)
      → (add_to_denylist name now v).1 ≡ none
      → all (leaves_denied name) xs ≡ true
      → let w = run to_lower xs (add_to_denylist name now v).0 in
        w.test_mode ≡ false
        → (clock : ℕ → ℕ) (c : Check) → c.name ≡ name
        → (validate_check to_lower clock (some c) w).1 ≢ none
  unfolding add_to_denylist log_validation
  denied_stays_denied name now xs v added l off clock c named passed =
      let at_first : listed name (add_to_denylist name now v).0.denied_checks ≡ true =
        ground (arith, lookup-insert_self name true v.denied_checks) in
      let later = run-denied name xs (add_to_denylist name now v).0 l at_first in
      let w = run to_lower xs (add_to_denylist name now v).0 in
      let still : listed c.name w.denied_checks ≡ true =
        ap (λ n. listed n w.denied_checks) named ∙ later in
      ground (arith, (validate_check_iff to_lower clock c w).0 passed, off, still)
