-- ===== src/Engine/Summaries.antt =====
-- The summary and the metrics of internal/diagnostics/engine.go.
use docker_net_doctor.Prelude.{
  ℕ, ◌+◌, ◌*◌, ◌≤◌, ◌<◌, ◌≡◌, refl, inl, inr, Bool, false, not, ◌&&◌, List, [], ◌∷◌, ◌++◌, arith,
  length, keep, map, any, Bool-cases, if◌then◌else◌, ltb, ◌==◌, ◌∙◌, ap, sym, subst,
}
use native.Mathlib.Nat.{mul-le-mul_left, div-le_of_le-mul}
use mathlib.Core.List.{append-nil, append_assoc}
use docker_net_doctor.Prelude.Int.{pos}
use docker_net_doctor.Prelude.Text.{Text, text_eq}
use docker_net_doctor.Prelude.Float.{Float64}
use docker_net_doctor.Security.{Check}
use docker_net_doctor.Engine.{
  CheckResult, Summary, is_critical, issues_of, summarized, no_summary, summarize,
  calculate_summary, Tally, no_tally, tally_one, tally, ExecutionMetrics, calculate_metrics,
}

-- A failed result whose name is that of a critical check.
abbrev pub is_issue : List Check → CheckResult → Bool
is_issue checks r = not r.success && any (λ c. text_eq c.name r.check_name && is_critical c) checks

abbrev pub passed : CheckResult → Bool
passed r = r.success

abbrev pub has_failed : CheckResult → Bool
has_failed r = not r.success

issues_of-any :
    (checks : List Check) (r : CheckResult) (issues : List Text)
    → issues_of checks r issues ≡ (
        if any (λ c. text_eq c.name r.check_name && is_critical c) checks
        then issues ++ (r.message ∷ [])
        else issues)
unfolding issues_of
issues_of-any [] r issues = refl
issues_of-any (c ∷ cs) r issues = ground (arith, issues_of-any cs r issues)

keep_split :
    (rs : List CheckResult) → length (keep passed rs) + length (keep has_failed rs) ≡ length rs
keep_split [] = refl
keep_split (r ∷ rs) = ground (arith, keep_split rs)

summarize-counts :
    (checks : List Check) (rs : List CheckResult) (s : Summary)
    → let t = summarize checks rs s in
      (t.total_checks ≡ s.total_checks)
      × (t.passed_checks ≡ s.passed_checks + length (keep passed rs))
      × (t.failed_checks ≡ s.failed_checks + length (keep has_failed rs))
      × (t.warning_checks ≡ s.warning_checks)
unfolding summarize
summarize-counts checks [] s = (refl, omega arith, omega arith, refl)
summarize-counts checks (r ∷ rs) s =
    let h = summarize-counts checks rs (summarized checks r s) in ground arith

abbrev pub messages : List Check → List CheckResult → List Text
messages checks rs = map (λ r. r.message) (keep (is_issue checks) rs)

messages-cons :
    (checks : List Check) (r : CheckResult) (rs : List CheckResult)
    → messages checks (r ∷ rs) ≡ messages checks (r ∷ []) ++ messages checks rs
messages-cons checks r rs = ground arith

summarized-issues :
    (checks : List Check) (r : CheckResult) (s : Summary)
    → (summarized checks r s).critical_issues ≡ s.critical_issues ++ messages checks (r ∷ [])
unfolding summarize
summarized-issues checks r s =
    ground (arith, issues_of-any checks r s.critical_issues, append-nil s.critical_issues)

summarize-issues :
    (checks : List Check) (rs : List CheckResult) (s : Summary)
    → (summarize checks rs s).critical_issues ≡ s.critical_issues ++ messages checks rs
unfolding summarize
summarize-issues checks [] s = sym (append-nil s.critical_issues)
summarize-issues checks (r ∷ rs) s =
    summarize-issues checks rs (summarized checks r s)
    ∙ ap (λ l. l ++ messages checks rs) (summarized-issues checks r s)
    ∙ append_assoc s.critical_issues (messages checks (r ∷ [])) (messages checks rs)
    ∙ ap (λ l. s.critical_issues ++ l) (sym (messages-cons checks r rs))

-- The summary of any results: every result is counted once, as passed or as failed, and the critical
-- issues are the messages of exactly the failed results that carry the name of a critical check, in
-- their order. Warnings are never counted.
pub calculate_summary_lem :
    (checks : List Check) (rs : List CheckResult)
    → let s = calculate_summary checks rs in
      (s.total_checks ≡ s.passed_checks + s.failed_checks)
      × (s.passed_checks ≡ length (keep passed rs))
      × (s.total_checks ≡ length rs)
      × (s.critical_issues ≡ messages checks rs)
      × (s.warning_checks ≡ 0)
unfolding calculate_summary
calculate_summary_lem checks rs =
    let h = summarize-counts checks rs (no_summary (length rs)) in
    (
      omega (arith, h.0, h.1, h.2, keep_split rs),
      omega (arith, h.1),
      h.0,
      summarize-issues checks rs (no_summary (length rs)),
      h.3,
    )

-- The variables of the loop after so many results.
record Tallied (n : ℕ) (t : Tally) : Type 0 where
  within : t.total_duration ≤ n * t.max_duration
  shortest : 0 < t.max_duration → t.min_duration ≤ t.max_duration
  untimed : t.max_duration ≡ 0 → t.min_duration ≡ 9223372036854775807

tally_one-Tallied :
    (r : CheckResult) (t : Tally) (n : ℕ) → Tallied n t → Tallied (n + 1) (tally_one r t)
unfolding tally_one
tally_one-Tallied r t n v = record {
  within = elim (Bool-cases (ltb t.max_duration r.duration)) [
    | inl longer ↦
        let grown : t.max_duration ≤ r.duration = ground arith in
        let more = mul-le-mul_left n grown in ground (arith, v.within)
    | inr same ↦ ground (arith, v.within)
  ];
  shortest = λ h. ground (arith, v.shortest);
  untimed = λ h. ground (arith, v.untimed);
}

one_failure :
    (r : CheckResult) (rs : List CheckResult) (t : Tally)
    → (tally_one r t).failed_count + length (keep has_failed rs)
      ≡ t.failed_count + length (keep has_failed (r ∷ rs))
unfolding tally_one
one_failure r rs t = ground arith

tally-Tallied :
    (rs : List CheckResult) (t : Tally) (n m : ℕ)
    → Tallied n t
    → m ≡ n + length rs
    → Tallied m (tally rs t)
      × ((tally rs t).failed_count ≡ t.failed_count + length (keep has_failed rs))
unfolding tally
tally-Tallied [] t n m v e = (subst (λ i. Tallied i t) (omega (arith, e)) v, omega arith)
tally-Tallied (r ∷ rs) t n m v e =
    let (w, f) =
      tally-Tallied rs (tally_one r t) (n + 1) m (tally_one-Tallied r t n v) (omega (arith, e)) in
    (w, f ∙ one_failure r rs t)

module _ (fl : Float64) where
  -- The metrics of any results, of which there is one at least: the average time is at most the maximum,
  -- the minimum is at most the maximum if any result took time and is the largest duration of all if
  -- none did, and the error rate is the failed results by all results.
  pub calculate_metrics_lem :
      (rs : List CheckResult) (requests throttled : ℕ) (m : ExecutionMetrics fl)
      → 0 < length rs
      → let t = calculate_metrics fl rs requests throttled m in
        (t.average_check_time ≤ t.max_check_time)
        × (0 < t.max_check_time → t.min_check_time ≤ t.max_check_time)
        × (t.max_check_time ≡ 0 → t.min_check_time ≡ 9223372036854775807)
        × (t.error_rate
            ≡ fl.div (fl.of_int (pos (length (keep has_failed rs)))) (fl.of_int (pos (length rs))))
  unfolding calculate_metrics
  calculate_metrics_lem rs requests throttled m some_result =
      let (v, f) =
        tally-Tallied rs no_tally 0 (length rs)
          (record { within = omega arith; shortest = λ h. omega (arith, h); untimed = λ h. refl })
          (omega arith) in
      let n : (length rs == 0) ≡ false = ground arith in
      rw (n) (
        div-le_of_le-mul (length rs) v.within,
        v.shortest,
        v.untimed,
        ap (λ k. fl.div (fl.of_int (pos k)) (fl.of_int (pos (length rs)))) (omega (arith, f)),
      )
