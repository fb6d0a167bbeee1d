-- ===== src/Metrics/Extremes.antt =====
-- The two values that the metrics keep besides counters: the highest latency and the first time.
use Prim.Native.Nat.{max}
use robo_baton_4p_ros2_demo.Prelude.{ℕ, ◌≤◌, ◌≡◌, List, [], ◌∷◌, arith, ◌==◌, if◌then◌else◌}
use robo_baton_4p_ros2_demo.Metrics.{
  PublicationRateMetrics, record_source, record_source_without_sequence, record_publish_success,
  record_auxiliary_publish_success, record_drop, record_publish_failure,
}
use robo_baton_4p_ros2_demo.Metrics.Latency.{peak, peak_mono, raise_max_bounds}
use robo_baton_4p_ros2_demo.Metrics.Window.{
  Op, source, source_without_sequence, publish_success, auxiliary_publish_success, drop,
  publish_failure, apply, run,
}

-- The highest of a value, the latencies of the calls, and what other threads wrote meanwhile.
unfoldable pub highest : ℕ → List Op → ℕ
highest h [] = h
highest h (publish_success l attempts ∷ rest) = highest (max l (peak h attempts)) rest
highest h (_ ∷ rest) = highest h rest

-- Every latency of the calls is at most the bound.
abbrev pub LatenciesBelow : ℕ → List Op → Type 0
LatenciesBelow b [] = Unit {0}
LatenciesBelow b (publish_success l attempts ∷ rest) = (l ≤ b) × LatenciesBelow b rest
LatenciesBelow b (_ ∷ rest) = LatenciesBelow b rest

max-apply :
    (o : Op) (m : PublicationRateMetrics)
    → m.publish_latency_max_ns ≤ (apply o m).publish_latency_max_ns
unfolding apply record_source record_source_without_sequence record_publish_success
    record_auxiliary_publish_success record_drop record_publish_failure
max-apply (publish_success l attempts) m =
    let b = raise_max_bounds l m.publish_latency_max_ns m.publish_latency_max_ns attempts in
    ground (arith, b)
max-apply (source q t n) m = ground arith
max-apply _ m = ground arith

max-run :
    (ops : List Op) (m : PublicationRateMetrics)
    → m.publish_latency_max_ns ≤ (run ops m).publish_latency_max_ns
unfolding run
max-run [] m = omega arith
max-run (o ∷ rest) m = omega (arith, max-apply o m, max-run rest (apply o m))

run-LatenciesBelow :
    (ops : List Op) (m : PublicationRateMetrics)
    → LatenciesBelow (run ops m).publish_latency_max_ns ops
unfolding run apply record_publish_success
run-LatenciesBelow [] m = tt
run-LatenciesBelow (publish_success l attempts ∷ rest) m =
    let b = raise_max_bounds l m.publish_latency_max_ns m.publish_latency_max_ns attempts in
    (
      omega (arith, b, max-run rest (record_publish_success l attempts m)),
      run-LatenciesBelow rest (record_publish_success l attempts m),
    )
run-LatenciesBelow (source q t n ∷ rest) m = run-LatenciesBelow rest (record_source q t n m)
run-LatenciesBelow (source_without_sequence t n ∷ rest) m =
    run-LatenciesBelow rest (record_source_without_sequence t n m)
run-LatenciesBelow (auxiliary_publish_success ∷ rest) m =
    run-LatenciesBelow rest (record_auxiliary_publish_success m)
run-LatenciesBelow (drop ∷ rest) m = run-LatenciesBelow rest (record_drop m)
run-LatenciesBelow (publish_failure ∷ rest) m = run-LatenciesBelow rest (record_publish_failure m)

run-le-highest :
    (ops : List Op) (m : PublicationRateMetrics) (h : ℕ)
    → m.publish_latency_max_ns ≤ h
    → (run ops m).publish_latency_max_ns ≤ highest h ops
unfolding run highest apply record_source record_source_without_sequence record_publish_success
    record_auxiliary_publish_success record_drop record_publish_failure
run-le-highest [] m h le = le
run-le-highest (publish_success l attempts ∷ rest) m h le =
    let b =
      raise_max_bounds l m.publish_latency_max_ns m.publish_latency_max_ns attempts (omega arith) in
    run-le-highest rest (record_publish_success l attempts m) (max l (peak h attempts))
      (omega (arith, b.2, peak_mono m.publish_latency_max_ns h attempts le))
run-le-highest (source q t n ∷ rest) m h le =
    run-le-highest rest (record_source q t n m) h (ground arith)
run-le-highest (source_without_sequence t n ∷ rest) m h le =
    run-le-highest rest (record_source_without_sequence t n m) h (ground arith)
run-le-highest (auxiliary_publish_success ∷ rest) m h le =
    run-le-highest rest (record_auxiliary_publish_success m) h le
run-le-highest (drop ∷ rest) m h le = run-le-highest rest (record_drop m) h le
run-le-highest (publish_failure ∷ rest) m h le = run-le-highest rest (record_publish_failure m) h le

-- Whatever other threads do to the maximum meanwhile, after any calls the maximum latency is at least
-- each latency that the calls recorded, and at most the highest of those latencies, of the maximum
-- before, and of what the other threads wrote: no maximum is lost and none is made up.
pub run-latency_max :
    (ops : List Op) (m : PublicationRateMetrics)
    → LatenciesBelow (run ops m).publish_latency_max_ns ops
      × ((run ops m).publish_latency_max_ns ≤ highest m.publish_latency_max_ns ops)
run-latency_max ops m =
    (run-LatenciesBelow ops m, run-le-highest ops m m.publish_latency_max_ns (omega arith))

-- The first time of a source call that is not 0; 0 if there is none.
unfoldable pub first_time : List Op → ℕ
first_time [] = 0
first_time (source q t n ∷ rest) = if n == 0 then first_time rest else n
first_time (source_without_sequence t n ∷ rest) = if n == 0 then first_time rest else n
first_time (_ ∷ rest) = first_time rest

-- The start of the statistics is the first time other than 0 that a source call brought, and no later
-- call moves it.
pub run-first_time :
    (ops : List Op) (m : PublicationRateMetrics)
    → (run ops m).first_monotonic_ns
      ≡ (if m.first_monotonic_ns == 0 then first_time ops else m.first_monotonic_ns)
unfolding run apply first_time record_source record_source_without_sequence record_publish_success
    record_auxiliary_publish_success record_drop record_publish_failure
run-first_time [] m = ground arith
run-first_time (source q t n ∷ rest) m = ground (arith, run-first_time rest (record_source q t n m))
run-first_time (source_without_sequence t n ∷ rest) m =
    ground (arith, run-first_time rest (record_source_without_sequence t n m))
run-first_time (publish_success l attempts ∷ rest) m =
    ground (arith, run-first_time rest (record_publish_success l attempts m))
run-first_time (auxiliary_publish_success ∷ rest) m =
    ground (arith, run-first_time rest (record_auxiliary_publish_success m))
run-first_time (drop ∷ rest) m = ground (arith, run-first_time rest (record_drop m))
run-first_time (publish_failure ∷ rest) m =
    ground (arith, run-first_time rest (record_publish_failure m))
