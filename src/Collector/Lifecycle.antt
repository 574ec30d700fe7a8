-- ===== src/Collector/Lifecycle.antt =====
-- Start, Stop and the goroutine of internal/diagnostics/metrics_collector.go.
use docker_net_doctor.Prelude.{
  ◌≡◌, refl, ◌∙◌, Bool, true, false, not, none, some, List, [], ◌∷◌, any, ap, arith, if-cases, ◌&&◌,
}
use docker_net_doctor.Prelude.Float.{Float64}
use docker_net_doctor.Collector.{
  MetricsCollector, Measured, collect_sample, collect_all, start, stop, tick, collect_cpu_usage,
  store_sample,
}

module _ (fl : Float64) where
  -- A tick: whether a closed channel is taken in its place, and what is measured else.
  abbrev pub Turn : Type 0
  Turn = Bool × Measured fl

  abbrev pub done_first : Turn → Bool
  done_first e = e.0

  unfoldable pub ticks : List Turn → MetricsCollector fl → MetricsCollector fl
  ticks [] mc = mc
  ticks (e ∷ es) mc = ticks es (tick fl e.0 e.1 mc)

  -- What is measured up to the first tick at which the closed channel is taken.
  abbrev pub until_done : List Turn → List (Measured fl)
  until_done [] = []
  until_done ((true, e) ∷ es) = []
  until_done ((false, e) ∷ es) = e ∷ until_done es

  module _ (done : Bool) (e : Measured fl) (mc : MetricsCollector fl) where
    idle_tick : mc.collecting ≡ false → tick fl done e mc ≡ mc
    unfolding tick
    idle_tick idle =
        if-cases (λ t. t ≡ mc) (not mc.collecting) (λ y. refl) (λ n. absurd (ground arith))

    final_tick :
        mc.stop_closed ≡ true
        → mc.collecting ≡ true
        → done ≡ true
        → tick fl done e mc ≡ record mc { collecting = false }
    unfolding tick
    final_tick closed on taken =
        if-cases (λ t. t ≡ record mc { collecting = false }) (not mc.collecting)
          (λ y. absurd (ground arith))
          (λ n.
            if-cases (λ t. t ≡ record mc { collecting = false }) (mc.stop_closed && done)
              (λ y. refl) (λ z. absurd (ground arith)))

    sampling_tick : mc.collecting ≡ true → done ≡ false → tick fl done e mc ≡ collect_sample fl e mc
    unfolding tick
    sampling_tick on ticked =
        if-cases (λ t. t ≡ collect_sample fl e mc) (not mc.collecting) (λ y. absurd (ground arith))
          (λ n.
            if-cases (λ t. t ≡ collect_sample fl e mc) (mc.stop_closed && done)
              (λ y. absurd (ground arith)) (λ z. refl))

  idle_ticks :
      (es : List Turn) (mc : MetricsCollector fl) → mc.collecting ≡ false → ticks es mc ≡ mc
  unfolding ticks
  idle_ticks [] mc idle = refl
  idle_ticks (e ∷ es) mc idle = ap (ticks es) (idle_tick e.0 e.1 mc idle) ∙ idle_ticks es mc idle

  -- What a sample leaves alone.
  collect_sample-flags :
      (e : Measured fl) (mc : MetricsCollector fl)
      → let t = collect_sample fl e mc in
        (t.running ≡ mc.running) × (t.stop_closed ≡ mc.stop_closed) × (t.collecting ≡ mc.collecting)
  unfolding collect_sample collect_cpu_usage store_sample
  collect_sample-flags e mc = (refl, refl, refl)

  collect_all-flags :
      (es : List (Measured fl)) (mc : MetricsCollector fl)
      → let t = collect_all fl es mc in (t.running ≡ mc.running) × (t.stop_closed ≡ mc.stop_closed)
  unfolding collect_all
  collect_all-flags [] mc = (refl, refl)
  collect_all-flags (e ∷ es) mc =
      let (a, b, c) = collect_sample-flags e mc in
      let (x, y) = collect_all-flags es (collect_sample fl e mc) in (x ∙ a, y ∙ b)

  -- The goroutine on a closed channel.
  closed_ticks :
      (es : List Turn) (mc : MetricsCollector fl)
      → mc.stop_closed ≡ true
      → mc.collecting ≡ true
      → ticks es mc
        ≡ record (collect_all fl (until_done es) mc) { collecting = not (any done_first es) }
  unfolding ticks collect_all
  closed_ticks [] mc closed on = ap (λ c. record mc { collecting = c }) on
  closed_ticks ((true, e) ∷ es) mc closed on =
      ap (ticks es) (final_tick true e mc closed on refl)
      ∙ idle_ticks es (record mc { collecting = false }) refl
  closed_ticks ((false, e) ∷ es) mc closed on =
      let (a, b, c) = collect_sample-flags e mc in
      ap (ticks es) (sampling_tick false e mc on refl)
      ∙ closed_ticks es (collect_sample fl e mc) (b ∙ closed) (c ∙ on)

  stopped_state :
      (late : List (Measured fl)) (mc t : MetricsCollector fl)
      → mc.running ≡ true
      → stop fl late mc ≡ some t
      → (t.running ≡ false) × (t.stop_closed ≡ true)
  unfolding stop
  stopped_state late mc t on stopped = ground (arith, stopped)

  spent_stop :
      (late : List (Measured fl)) (u : MetricsCollector fl)
      → u.running ≡ true
      → u.stop_closed ≡ true
      → stop fl late u ≡ none
  unfolding stop
  spent_stop late u on closed = rw (stop, on, closed) refl

  -- A collector that has been stopped does not work again. Once it is started, its goroutine takes samples
  -- only up to the first tick at which its `select` takes the closed channel, and then ends, while the
  -- collector still counts as running; and the next Stop panics.
  pub restart_fails :
      (mc t : MetricsCollector fl) (late later : List (Measured fl)) (es : List Turn)
      → mc.running ≡ true
      → stop fl late mc ≡ some t
      → let u = ticks es (start fl t) in
        (u ≡ record (collect_all fl (until_done es) (start fl t)) {
          collecting = not (any done_first es);
        })
        × (u.running ≡ true)
        × (stop fl later u ≡ none)
  unfolding start
  restart_fails mc t late later es on stopped =
      let (off, closed) = stopped_state late mc t on stopped in
      let m = start fl t in
      let starts : m ≡ record t { running = true; collecting = true } = rw off refl in
      let spent : m.stop_closed ≡ true = ap (λ x. x.stop_closed) starts ∙ closed in
      let runs : m.running ≡ true = ap (λ x. x.running) starts in
      let same = closed_ticks es m spent (ap (λ x. x.collecting) starts) in
      let (a, b) = collect_all-flags (until_done es) m in
      let on_still : (ticks es m).running ≡ true = ap (λ x. x.running) same ∙ a ∙ runs in
      (
        same,
        on_still,
        spent_stop later (ticks es m) on_still (ap (λ x. x.stop_closed) same ∙ b ∙ spent),
      )
