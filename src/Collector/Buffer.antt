-- ===== src/Collector/Buffer.antt =====
-- The samples that internal/diagnostics/metrics_collector.go keeps and hands out.
use docker_net_doctor.Prelude.{
  ℕ, ◌+◌, ◌-◌, ◌≤◌, ◌≡◌, refl, subst, ap, ◌∙◌, ◌||◌, min, List, [], ◌∷◌, ◌++◌, length, drop,
  if◌then◌else◌, length-drop, arith,
}
use docker_net_doctor.Prelude.Int.{ℤ, pos, pos_part, ltb_ℤ, leb_ℤ}
use docker_net_doctor.Prelude.Float.{Float64}
use docker_net_doctor.Prelude.Latest.{push_latest-drop, drop-drop}
use docker_net_doctor.Collector.{
  MetricsSample, MetricsCollector, new_metrics_collector, store_sample, get_samples, sample_bound,
}
use mathlib.Core.List.{append_assoc, append-nil}

module _ (fl : Float64) where
  unfoldable pub store_all : List (MetricsSample fl) → MetricsCollector fl → MetricsCollector fl
  store_all [] mc = mc
  store_all (s ∷ ss) mc = store_all ss (store_sample fl s mc)

  store_all-samples :
      (done ss : List (MetricsSample fl)) (mc : MetricsCollector fl)
      → mc.max_samples ≡ sample_bound
      → mc.samples ≡ drop (length done - sample_bound) done
      → (store_all ss mc).samples ≡ drop (length (done ++ ss) - sample_bound) (done ++ ss)
  unfolding store_all store_sample
  store_all-samples done [] mc b h = rw (append-nil done) h
  store_all-samples done (s ∷ ss) mc b h =
      subst (λ l. (store_all ss (store_sample fl s mc)).samples ≡ drop (length l - sample_bound) l)
        (append_assoc done (s ∷ []) ss)
        (store_all-samples (done ++ (s ∷ [])) ss (store_sample fl s mc) b
          (rw (b, h) (push_latest-drop sample_bound s done (omega arith))))

  -- How many samples GetSamples gives when `held` are there.
  abbrev pub granted : ℤ → ℕ → ℕ
  granted count held =
      if leb_ℤ count (pos 0) || ltb_ℤ (pos held) count then held else pos_part count

  get_samples_lem :
      (count : ℤ) (mc : MetricsCollector fl)
      → get_samples fl count mc
        ≡ drop (length mc.samples - granted count (length mc.samples)) mc.samples
  unfolding get_samples
  get_samples_lem count mc = refl

  granted-le : (count : ℤ) (held : ℕ) → granted count held ≤ held
  granted-le count held = ground arith

  -- After any samples have been stored in a new collector, GetSamples gives the latest of them in their
  -- order: as many as are asked for, or all that are held, at most a thousand, if that many are not there
  -- or the number is not positive.
  pub get_samples-store_all :
      (interval : ℤ) (ss : List (MetricsSample fl)) (count : ℤ)
      → get_samples fl count (store_all ss (new_metrics_collector fl interval))
        ≡ drop (length ss - granted count (min (length ss) 1000)) ss
  unfolding new_metrics_collector
  get_samples-store_all interval ss count =
      let mc = store_all ss (new_metrics_collector fl interval) in
      let held = min (length ss) 1000 in
      let kept : mc.samples ≡ drop (length ss - 1000) ss =
        store_all-samples [] ss (new_metrics_collector fl interval) refl refl in
      let l : length (drop (length ss - 1000) ss) ≡ held =
        omega (arith, length-drop (length ss - 1000) ss) in
      let e : (length ss - 1000) + (held - granted count held) ≡ length ss - granted count held =
        omega (arith, granted-le count held) in
      get_samples_lem count mc
      ∙ rw (kept, l)
          (drop-drop (held - granted count held) (length ss - 1000) ss ∙ ap (λ n. drop n ss) e)
