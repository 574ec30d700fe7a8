-- ===== src/Security/Tests.antt =====
-- Runs of internal/diagnostics/security_validator.go, with ASCII lower case for strings.ToLower.
use docker_net_doctor.Prelude.{
  ℕ, ◌+◌, ◌<◌, ◌≡◌, ◌≢◌, ◌↔◌, ◌⊎◌, refl, true, false, ◌&&◌, none, some, List, [], ◌∷◌, map, leb,
  arith, if◌then◌else◌,
}
use docker_net_doctor.Prelude.Int.{pos}
use docker_net_doctor.Prelude.Dict.{lookup, insert}
use docker_net_doctor.Prelude.Text.{Text, codes, text_eq, Text-eq, contains_text}
use docker_net_doctor.Security.{
  Check, new_security_validator, valid_char, validate_check_name, validate_check_name_string,
  listed, validate_severity,
}
use docker_net_doctor.Security.Operations.{
  log_validation, add_to_denylist, validate_check, is_test_check_name, run_rules, run_rule,
  validate_allowlist, validate_denylist, validate_description, set_test_mode,
}
use docker_net_doctor.Security.Names.{IsWellFormed}
use docker_net_doctor.Security.Decision.{validate_check_iff}
use docker_net_doctor.Security.Calls.{Call, run, step}
use docker_net_doctor.Security.Policy.{IsSound, run-IsSound, denied_stays_denied}

abbrev lower : ℕ → ℕ
lower c = if leb b'A' c && leb c b'Z' then c + 32 else c

abbrev ascii_lower : Text → Text
ascii_lower s = map lower s

abbrev dns_check : Check
dns_check = record {
  name = codes "dns_resolution";
  description = codes "<script";
  severity = pos 9;
}

abbrev iptables_check : Check
iptables_check = record {
  name = codes "iptables";
  description = codes "Reads the rules";
  severity = pos 1;
}

abbrev tick : ℕ → ℕ
tick i = 100 + i

-- A bad description and a bad severity do not stop an allowed check.
dns_passes : (validate_check ascii_lower tick (some dns_check) new_security_validator).1 ≡ none
unfolding validate_check run_rules run_rule validate_allowlist validate_denylist log_validation
    new_security_validator validate_check_name text_eq valid_char contains_text lookup insert
    validate_description validate_severity
dns_passes = refl

validate_check_iff_example :
    ((validate_check ascii_lower tick (some dns_check) new_security_validator).1 ≡ none) ↔ (
      ((new_security_validator.test_mode ≡ true)
        × (is_test_check_name ascii_lower dns_check.name ≡ true))
      ⊎ (IsWellFormed dns_check.name
          × ((listed dns_check.name new_security_validator.allowed_checks ≡ true)
              × (listed dns_check.name new_security_validator.denied_checks ≡ false))))
validate_check_iff_example = validate_check_iff ascii_lower tick dns_check new_security_validator

room : 0 < new_security_validator.max_history_size
unfolding new_security_validator
room = omega arith

abbrev some_calls : List Call
some_calls =
    Call.validating tick (some dns_check)
    ∷ Call.denying (codes "iptables") 7
    ∷ Call.switching true
    ∷ Call.allowing (codes "dns_resolution") 8
    ∷ Call.validating tick none
    ∷ Call.switching false
    ∷ []

run-IsSound_example : IsSound ascii_lower (run ascii_lower some_calls new_security_validator)
run-IsSound_example = run-IsSound ascii_lower some_calls

denied_ok : (add_to_denylist (codes "iptables") 5 new_security_validator).1 ≡ none
unfolding add_to_denylist validate_check_name_string text_eq valid_char
denied_ok = refl

test_mode_off :
    (run ascii_lower some_calls
      (add_to_denylist (codes "iptables") 5 new_security_validator).0).test_mode
    ≡ false
unfolding run step set_test_mode
test_mode_off = refl

denied_stays_denied_example :
    (validate_check ascii_lower tick (some iptables_check) (
      run ascii_lower some_calls (add_to_denylist (codes "iptables") 5 new_security_validator).0)).1
    ≢ none
unfolding text_eq
denied_stays_denied_example =
    denied_stays_denied ascii_lower (codes "iptables") 5 some_calls new_security_validator denied_ok
      refl test_mode_off tick iptables_check refl
