-- ===== src/Degradation/Laws.antt =====
-- What internal/diagnostics/graceful_degradation.go lets run, and how its levels change.
use docker_net_doctor.Prelude.{
  ℕ, ◌+◌, ◌-◌, ◌≤◌, ◌≡◌, refl, inl, inr, ◌⊎◌, true, false, none, List, [], ◌∷◌, ◌++◌, arith, length,
  if-cases, elim-cases, length-drop, length-append,
}
use docker_net_doctor.Prelude.Int.{ℤ, ltb_ℤ, eqb_ℤ, ◌≤ℤ◌, ◌<ℤ◌}
use docker_net_doctor.Prelude.Clock.{time_sub}
use docker_net_doctor.Prelude.Text.{Text}
use docker_net_doctor.Prelude.Float.{Float64}
use docker_net_doctor.Security.{Check}
use docker_net_doctor.Degradation.{
  finished, blocked, GracefulDegradation, LevelTransition, with_lock, with_read_lock,
  get_current_level, set_manual_level, clear_manual_override, filter_checks,
  update_health_indicator, perform_health_check, health_checked, change_degradation_level,
  record_transition, should_execute_check, is_low_priority_check, is_critical_check,
  is_essential_check, level_normal, level_emergency, determine_appropriate_level,
  calculate_health_score, all_indicators_healthy, critical_indicators_healthy, latest, max_history,
}

-- A check whose name is not of low priority and that runs at a level from NORMAL to EMERGENCY also runs
-- at every milder one.
should_execute_check-milder :
    (c : Check) (mild severe : ℤ)
    → level_normal ≤ℤ mild
    → mild ≤ℤ severe
    → severe ≤ℤ level_emergency
    → is_low_priority_check c.name ≡ false
    → should_execute_check c severe ≡ true
    → should_execute_check c mild ≡ true
unfolding should_execute_check is_critical_check is_essential_check
should_execute_check-milder c mild severe a b d low h = ground arith

module _ (fl : Float64) where
  -- SetManualLevel, where an override is allowed and the lock is free, never returns: it takes the lock
  -- and then waits for it. From then on neither GetCurrentLevel, FilterChecks, ClearManualOverride,
  -- UpdateHealthIndicator, performHealthCheck nor SetManualLevel returns.
  pub manual_level_blocks :
      (level : ℤ) (now : ℕ) (gd : GracefulDegradation fl)
      → gd.config.manual_override_allowed ≡ true
      → gd.locked ≡ false
      → (t : GracefulDegradation fl) × ((set_manual_level fl level now gd ≡ blocked t)
          × (get_current_level fl t ≡ blocked t)
          × ((checks : List Check) → filter_checks fl checks t ≡ blocked t)
          × ((l : ℤ) (later : ℕ) → set_manual_level fl l later t ≡ blocked t)
          × ((later : ℕ) → clear_manual_override fl later t ≡ blocked t)
          × ((later : ℕ) → perform_health_check fl later t ≡ blocked t)
          × ((name : Text) (v : fl.Float) (later : ℕ)
              → update_health_indicator fl name v later t ≡ blocked t))
  unfolding set_manual_level get_current_level filter_checks clear_manual_override
      perform_health_check update_health_indicator with_lock with_read_lock
  manual_level_blocks level now gd allowed free = (
    record gd { locked = true },
    (
      rw (set_manual_level, allowed, free) refl,
      refl,
      λ checks. refl,
      λ l later. rw (set_manual_level, allowed) refl,
      λ later. refl,
      λ later. refl,
      λ name v later. refl,
    ),
  )

  history_bounded :
      (h : List (LevelTransition fl)) (t : LevelTransition fl)
      → length h ≤ max_history fl
      → length (latest fl (h ++ (t ∷ []))) ≤ max_history fl
  history_bounded h t b =
      let l = length-append h (t ∷ []) in
      let d = length-drop (length (h ++ (t ∷ [])) - 100) (h ++ (t ∷ [])) in ground (arith, d, l)

  -- How a health check may change the level, the recoveries and the history.
  pub record Checked (now : ℕ) (gd t : GracefulDegradation fl) : Type 0 where
    pub changed :
        (t.current_level ≡ gd.current_level)
        ⊎ ((t.current_level ≡ determine_appropriate_level fl gd)
            × (gd.manual_override ≡ none)
            × (gd.config.stability_period ≤ℤ time_sub now gd.last_level_change))
    pub worse :
        gd.current_level <ℤ t.current_level
        → t.metrics.auto_recoveries ≡ gd.metrics.auto_recoveries + 1
    pub not_worse :
        t.current_level ≤ℤ gd.current_level → t.metrics.auto_recoveries ≡ gd.metrics.auto_recoveries
    pub history_kept :
        length gd.level_history ≤ max_history fl → length t.level_history ≤ max_history fl

  same-Checked : (now : ℕ) (gd : GracefulDegradation fl) → Checked now gd gd
  same-Checked now gd = record {
    changed = inl refl;
    worse = λ h. absurd (omega (arith, h));
    not_worse = λ h. refl;
    history_kept = λ h. h;
  }

  health_checked-Checked :
      (now : ℕ) (gd : GracefulDegradation fl) → Checked now gd (health_checked fl now gd)
  unfolding health_checked change_degradation_level record_transition
  health_checked-Checked now gd =
      let level = determine_appropriate_level fl gd in
      elim-cases (Checked now gd) gd.manual_override
        (λ none_set.
          if-cases (Checked now gd) (eqb_ℤ level gd.current_level) (λ same. same-Checked now gd)
            λ other.
              if-cases (Checked now gd)
                (ltb_ℤ (time_sub now gd.last_level_change) gd.config.stability_period)
                (λ early. same-Checked now gd)
                (λ late. record {
                  changed = inr (refl, none_set, ground arith);
                  worse = λ h. ground arith;
                  not_worse = λ h. ground arith;
                  history_kept = history_bounded gd.level_history _;
                }))
        (λ l set. same-Checked now gd)

  -- With the lock free, performHealthCheck returns and frees the lock, and the level changes only to the
  -- one that the indicators call for, without a manual override and once the stability period has passed
  -- since the last change. A recovery is counted exactly when the new level is more severe, and the
  -- history keeps within its hundred entries.
  pub perform_health_check-Checked :
      (now : ℕ) (gd : GracefulDegradation fl)
      → gd.locked ≡ false
      → (t : GracefulDegradation fl) × ((perform_health_check fl now gd ≡ finished t tt)
          × (t.locked ≡ false)
          × Checked now gd t)
  unfolding perform_health_check with_lock determine_appropriate_level calculate_health_score
      all_indicators_healthy critical_indicators_healthy
  perform_health_check-Checked now gd free =
      let h = health_checked-Checked now (record gd { locked = true }) in
      (
        record (health_checked fl now (record gd { locked = true })) { locked = false },
        (
          rw (perform_health_check, free) refl,
          refl,
          record {
            changed = h.changed;
            worse = h.worse;
            not_worse = h.not_worse;
            history_kept = h.history_kept;
          },
        ),
      )
