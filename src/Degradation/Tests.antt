-- ===== src/Degradation/Tests.antt =====
-- The theorems on internal/diagnostics/graceful_degradation.go at new instances under the defaults.
use docker_net_doctor.Prelude.{ℕ, ◌≡◌, refl, true, false, none, List, [], ◌∷◌}
use docker_net_doctor.Prelude.Int.{ℤ, pos}
use docker_net_doctor.Prelude.Clock.{seconds}
use docker_net_doctor.Prelude.Text.{Text, codes}
use docker_net_doctor.Prelude.Fraction.{fractions}
use docker_net_doctor.Security.{Check}
use docker_net_doctor.Degradation.{
  GracefulDegradation, finished, blocked, new_graceful_degradation, level_minimal, filter_checks,
  get_current_level, set_manual_level, clear_manual_override, perform_health_check,
  update_health_indicator, get_capabilities_description,
}
use docker_net_doctor.Degradation.Laws.{manual_level_blocks, Checked, perform_health_check-Checked}

abbrev new : GracefulDegradation fractions
new = new_graceful_degradation fractions none 5

abbrev dns : Check
dns = record {
  name = codes "dns_resolution";
  description = codes "Testing DNS resolution capabilities in containers";
  severity = pos 1;
}

abbrev subnets : Check
subnets = record {
  name = codes "subnet_overlap";
  description = codes "Checking for overlapping subnets between Docker networks";
  severity = pos 1;
}

manual_level_blocks_example :
    (t : GracefulDegradation fractions) × ((set_manual_level fractions level_minimal 9 new
        ≡ blocked t)
      × (get_current_level fractions t ≡ blocked t)
      × ((checks : List Check) → filter_checks fractions checks t ≡ blocked t)
      × ((l : ℤ) (later : ℕ) → set_manual_level fractions l later t ≡ blocked t)
      × ((later : ℕ) → clear_manual_override fractions later t ≡ blocked t)
      × ((later : ℕ) → perform_health_check fractions later t ≡ blocked t)
      × ((name : Text) (v : fractions.Float) (later : ℕ)
          → update_health_indicator fractions name v later t ≡ blocked t))
unfolding new_graceful_degradation
manual_level_blocks_example = manual_level_blocks fractions level_minimal 9 new refl refl

perform_health_check-Checked_example :
    (t : GracefulDegradation fractions) × ((perform_health_check fractions (seconds 700) new
        ≡ finished t tt)
      × (t.locked ≡ false)
      × Checked fractions (seconds 700) new t)
unfolding new_graceful_degradation
perform_health_check-Checked_example = perform_health_check-Checked fractions (seconds 700) new refl

minimal_capabilities :
    get_capabilities_description level_minimal
    ≡ (codes "full_diagnostics", false)
      ∷ (codes "container_exec", false)
      ∷ (codes "network_analysis", true)
      ∷ (codes "performance_tests", false)
      ∷ []
unfolding get_capabilities_description
minimal_capabilities = refl
