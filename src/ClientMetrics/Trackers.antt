-- ===== src/ClientMetrics/Trackers.antt =====
-- What a DurationTracker (internal/docker/client_metrics.go) knows after any durations.
use docker_net_doctor.Prelude.{
  ◌-◌, ◌<◌, ◌≡◌, refl, sym, subst, ap, ◌∙◌, inl, inr, ◌⊎◌, true, ◌||◌, List, [], ◌∷◌, ◌++◌, length,
  drop, All, any, ◌==◌, if◌then◌else◌, if-cases, arith, length-append, length-drop, any-append,
  All-append, All-map,
}
use docker_net_doctor.Prelude.Int.{ℤ, pos, ltb_ℤ, eqb_ℤ, ◌≤ℤ◌, ◌<ℤ◌, ◌+ℤ◌, quot}
use docker_net_doctor.Prelude.Latest.{push_latest-drop}
use docker_net_doctor.ClientMetrics.{
  DurationTracker, new_duration_tracker, update_percentiles, add_duration, record_duration_in,
  max_samples,
}
use docker_net_doctor.ClientMetrics.Percentiles.{HasPercentiles, update_percentiles-HasPercentiles}
use mathlib.Core.List.{append_assoc, append-nil}

unfoldable pub record_durations : List ℤ → DurationTracker → DurationTracker
record_durations [] t = t
record_durations (d ∷ ds) t = record_durations ds (record_duration_in d t)

abbrev pub sum_from : ℤ → List ℤ → ℤ
sum_from acc [] = acc
sum_from acc (d ∷ ds) = sum_from (acc +ℤ d) ds

sum_from-append :
    (acc : ℤ) (ds : List ℤ) (d : ℤ) → sum_from acc (ds ++ (d ∷ [])) ≡ sum_from acc ds +ℤ d
sum_from-append acc [] d = refl
sum_from-append acc (x ∷ ds) d = sum_from-append (acc +ℤ x) ds d

-- A value of the list that is at most, or at least, every value of it.
abbrev pub IsLeast : ℤ → List ℤ → Type 0
IsLeast v ds = All (λ x. v ≤ℤ x) ds × (any (eqb_ℤ v) ds ≡ true)

abbrev pub IsGreatest : ℤ → List ℤ → Type 0
IsGreatest v ds = All (λ x. x ≤ℤ v) ds × (any (eqb_ℤ v) ds ≡ true)

-- The statistics of the durations so far.
pub record Statistics (ds : List ℤ) (t : DurationTracker) : Type 0 where
  pub counted : t.count ≡ length ds
  pub summed : t.total ≡ sum_from (pos 0) ds
  pub averaged : t.average ≡ quot (sum_from (pos 0) ds) (length ds)
  pub least : IsLeast t.min_duration ds
  pub greatest : IsGreatest t.max_duration ds
  pub sampled : t.samples ≡ drop (length ds - max_samples) ds
  pub ranked : HasPercentiles t.samples t.p50 t.p95 t.p99

-- What holds also before the first one.
record Recorded (ds : List ℤ) (t : DurationTracker) : Type 0 where
  counted : t.count ≡ length ds
  summed : t.total ≡ sum_from (pos 0) ds
  least :
      (IsLeast t.min_duration ds × (pos 0 <ℤ t.min_duration))
      ⊎ ((ds ≡ []) × (t.min_duration ≡ pos 0))
  greatest : (IsGreatest t.max_duration ds) ⊎ ((ds ≡ []) × (t.max_duration ≡ pos 0))
  sampled : t.samples ≡ drop (length ds - max_samples) ds

-- Percentiles change nothing else.
pub update_percentiles-same :
    (t : DurationTracker)
    → let u = update_percentiles t in
      (u.count ≡ t.count)
      × (u.total ≡ t.total)
      × (u.average ≡ t.average)
      × (u.min_duration ≡ t.min_duration)
      × (u.max_duration ≡ t.max_duration)
      × (u.samples ≡ t.samples)
unfolding update_percentiles
update_percentiles-same t =
    if-cases {A = DurationTracker}
      (λ u.
        (u.count ≡ t.count)
        × (u.total ≡ t.total)
        × (u.average ≡ t.average)
        × (u.min_duration ≡ t.min_duration)
        × (u.max_duration ≡ t.max_duration)
        × (u.samples ≡ t.samples))
      (length t.samples == 0) (λ e. (refl, refl, refl, refl, refl, refl))
      (λ e. (refl, refl, refl, refl, refl, refl))

last_is : (ds : List ℤ) (d : ℤ) → any (eqb_ℤ d) (ds ++ (d ∷ [])) ≡ true
last_is ds d = rw (any-append (eqb_ℤ d) ds (d ∷ [])) (ground arith)

IsLeast-step :
    (ds : List ℤ) (d v : ℤ)
    → pos 0 <ℤ d
    → (IsLeast v ds × (pos 0 <ℤ v)) ⊎ ((ds ≡ []) × (v ≡ pos 0))
    → let w = if eqb_ℤ v (pos 0) || ltb_ℤ d v then d else v in
      IsLeast w (ds ++ (d ∷ [])) × (pos 0 <ℤ w)
IsLeast-step ds d v p (inr (e, z)) = rw (e, z) (((omega arith, tt), ground arith), p)
IsLeast-step ds d v p (inl ((a, m), q)) =
    if-cases (λ w. IsLeast w (ds ++ (d ∷ [])) × (pos 0 <ℤ w)) (eqb_ℤ v (pos 0) || ltb_ℤ d v)
      (λ e.
        let below : d ≤ℤ v = ground (arith, e, q) in
        (
          (
            All-append _ ds (d ∷ []) (All-map ds (λ x h. omega (arith, h, below)) a)
                (omega arith, tt),
            last_is ds d,
          ),
          p,
        ))
      (λ e.
        let below : v ≤ℤ d = ground (arith, e) in
        (
          (All-append _ ds (d ∷ []) a (below, tt), rw (any-append (eqb_ℤ v) ds (d ∷ []), m) refl),
          q,
        ))

IsGreatest-step :
    (ds : List ℤ) (d v : ℤ)
    → pos 0 <ℤ d
    → (IsGreatest v ds) ⊎ ((ds ≡ []) × (v ≡ pos 0))
    → IsGreatest (if ltb_ℤ v d then d else v) (ds ++ (d ∷ []))
IsGreatest-step ds d v p (inr (e, z)) =
    rw (e, z)
      (if-cases (λ w. IsGreatest w (d ∷ [])) (ltb_ℤ (pos 0) d)
        (λ y. ((omega arith, tt), last_is [] d)) (λ n. absurd (ground (arith, n, p))))
IsGreatest-step ds d v p (inl (a, m)) =
    if-cases (λ w. IsGreatest w (ds ++ (d ∷ []))) (ltb_ℤ v d)
      (λ e.
        let above : v ≤ℤ d = ground (arith, e) in
        (
          All-append _ ds (d ∷ []) (All-map ds (λ x h. omega (arith, h, above)) a)
              (omega arith, tt),
          last_is ds d,
        ))
      (λ e.
        let above : d ≤ℤ v = ground (arith, e) in
        (All-append _ ds (d ∷ []) a (above, tt), rw (any-append (eqb_ℤ v) ds (d ∷ []), m) refl))

add_duration-Recorded :
    (ds : List ℤ) (d : ℤ) (t : DurationTracker)
    → pos 0 <ℤ d
    → Recorded ds t
    → Recorded (ds ++ (d ∷ [])) (add_duration d t)
unfolding add_duration
add_duration-Recorded ds d t p h = record {
  counted = omega (arith, h.counted, length-append ds (d ∷ []));
  summed = ap (λ s. s +ℤ d) h.summed ∙ sym (sum_from-append (pos 0) ds d);
  least = inl (IsLeast-step ds d t.min_duration p h.least);
  greatest = inl (IsGreatest-step ds d t.max_duration p h.greatest);
  sampled = rw (h.sampled) (push_latest-drop max_samples d ds (omega arith));
}

add_duration-extremes :
    (ds : List ℤ) (d : ℤ) (t : DurationTracker)
    → pos 0 <ℤ d
    → Recorded ds t
    → let u = add_duration d t in
      IsLeast u.min_duration (ds ++ (d ∷ []))
      × IsGreatest u.max_duration (ds ++ (d ∷ []))
      × (u.average ≡ quot u.total u.count)
unfolding add_duration
add_duration-extremes ds d t p h = (
  (IsLeast-step ds d t.min_duration p h.least).0,
  IsGreatest-step ds d t.max_duration p h.greatest,
  refl,
)

sampled_some :
    (ds : List ℤ) (d : ℤ) (t : DurationTracker) → Recorded (ds ++ (d ∷ [])) t → 0 < length t.samples
sampled_some ds d t h = omega (
  arith,
  ap length h.sampled,
  length-drop (length (ds ++ (d ∷ [])) - max_samples) (ds ++ (d ∷ [])),
  length-append ds (d ∷ []),
)

Recorded-same :
    {ds : List ℤ} (t : DurationTracker) → Recorded ds t → Recorded ds (update_percentiles t)
Recorded-same t h =
    let (c, s, a, l, g, x) = update_percentiles-same t in
    record {
      counted = rw c h.counted;
      summed = rw s h.summed;
      least = rw l h.least;
      greatest = rw g h.greatest;
      sampled = rw x h.sampled;
    }

record_durations-Recorded :
    (done ds : List ℤ) (t : DurationTracker)
    → All (λ d. pos 0 <ℤ d) ds
    → Recorded done t
    → Recorded (done ++ ds) (record_durations ds t)
unfolding record_durations record_duration_in
record_durations-Recorded done [] t p h = rw (append-nil done) h
record_durations-Recorded done (d ∷ ds) t (p, ps) h =
    subst (λ l. Recorded l (record_durations ds (record_duration_in d t)))
      (append_assoc done (d ∷ []) ds)
      (record_durations-Recorded (done ++ (d ∷ [])) ds (record_duration_in d t) ps
        (Recorded-same (add_duration d t) (add_duration-Recorded done d t p h)))

new-Recorded : Recorded [] new_duration_tracker
new-Recorded = record {
  counted = refl;
  summed = refl;
  least = inr (refl, refl);
  greatest = inr (refl, refl);
  sampled = refl;
}

-- After any positive durations of which there is one at least, a new tracker knows their number, sum and
-- average, the least and the greatest of them, the latest thousand as samples, and of these the 50th,
-- 95th and 99th percentile.
pub record_durations-Statistics :
    (ds : List ℤ) (d : ℤ)
    → All (λ x. pos 0 <ℤ x) ds
    → pos 0 <ℤ d
    → Statistics (ds ++ (d ∷ [])) (record_duration_in d (record_durations ds new_duration_tracker))
unfolding record_duration_in
record_durations-Statistics ds d ps p =
    let t = record_durations ds new_duration_tracker in
    let h = record_durations-Recorded [] ds new_duration_tracker ps new-Recorded in
    let u = add_duration d t in
    let r = add_duration-Recorded ds d t p h in
    let (l, g, a) = add_duration-extremes ds d t p h in
    let (c, s, v, n, x, m) = update_percentiles-same u in
    let k = Recorded-same u r in
    record {
      counted = k.counted;
      summed = k.summed;
      averaged = v ∙ a ∙ rw (r.summed, r.counted) refl;
      least = rw n l;
      greatest = rw x g;
      sampled = k.sampled;
      ranked = rw m (update_percentiles-HasPercentiles u (sampled_some ds d u r));
    }
