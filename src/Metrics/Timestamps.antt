-- ===== src/Metrics/Timestamps.antt =====
-- What RecordSource counts of the time stamps along a stream of samples.
use robo_baton_4p_ros2_demo.Prelude.{ℕ, ◌+◌, ◌%◌, ◌^◌, ◌≡◌, true, List, [], ◌∷◌, arith}
use robo_baton_4p_ros2_demo.Metrics.{
  PublicationRateMetrics, SequenceWidth, new_metrics, record_source,
}
use robo_baton_4p_ros2_demo.Metrics.Sequence.{
  Source, record_sources, count_pairs, is_duplicate, is_regression, timestamps, one_if,
}

-- One sample's time stamp, for metrics of any width.
record_source-timestamp :
    (m : PublicationRateMetrics) (last : ℕ) (s : Source)
    → m.timestamp_initialized ≡ true
    → m.last_timestamp_ns ≡ last
    → let m' = record_source s.sequence s.timestamp_ns s.monotonic_ns m in
      (m'.timestamp_initialized ≡ true)
      × (m'.last_timestamp_ns ≡ s.timestamp_ns)
      × (m'.timestamp_duplicate_count % 2 ^ 64
          ≡ (m.timestamp_duplicate_count + one_if (is_duplicate last s.timestamp_ns)) % 2 ^ 64)
      × (m'.timestamp_regression_count % 2 ^ 64
          ≡ (m.timestamp_regression_count + one_if (is_regression last s.timestamp_ns)) % 2 ^ 64)
unfolding record_source
record_source-timestamp m last s i e = ground arith

record_sources-timestamp_counts :
    (m : PublicationRateMetrics) (last : ℕ) (xs : List Source)
    → m.timestamp_initialized ≡ true
    → m.last_timestamp_ns ≡ last
    → let m' = record_sources xs m in
      (m'.timestamp_duplicate_count % 2 ^ 64
        ≡ (m.timestamp_duplicate_count + count_pairs is_duplicate last (timestamps xs)) % 2 ^ 64)
      × (m'.timestamp_regression_count % 2 ^ 64
          ≡ (m.timestamp_regression_count + count_pairs is_regression last (timestamps xs))
            % 2 ^ 64)
unfolding record_sources count_pairs
record_sources-timestamp_counts m last [] i e = omega arith
record_sources-timestamp_counts m last (s ∷ rest) i e =
    let step = record_source-timestamp m last s i e in
    let later =
      record_sources-timestamp_counts (record_source s.sequence s.timestamp_ns s.monotonic_ns m)
        s.timestamp_ns rest step.0 step.1 in
    omega (arith, step.2, step.3, later)

first-timestamp :
    (width : SequenceWidth) (s : Source)
    → let m = record_source s.sequence s.timestamp_ns s.monotonic_ns (new_metrics width) in
      (m.timestamp_initialized ≡ true)
      × (m.last_timestamp_ns ≡ s.timestamp_ns)
      × (m.timestamp_duplicate_count ≡ 0)
      × (m.timestamp_regression_count ≡ 0)
unfolding record_source new_metrics
first-timestamp width s = ground arith

-- Whatever the width of the sequence numbers, along a stream fed from the start the two time stamp
-- counters are, modulo 2 ^ 64, the numbers of neighbours with equal and with strictly falling time
-- stamps.
pub record_sources-timestamps :
    (width : SequenceWidth) (s : Source) (rest : List Source)
    → let m = record_sources (s ∷ rest) (new_metrics width) in
      (m.timestamp_duplicate_count % 2 ^ 64
        ≡ count_pairs is_duplicate s.timestamp_ns (timestamps rest) % 2 ^ 64)
      × (m.timestamp_regression_count % 2 ^ 64
          ≡ count_pairs is_regression s.timestamp_ns (timestamps rest) % 2 ^ 64)
unfolding record_sources
record_sources-timestamps width s rest =
    let first = first-timestamp width s in
    let later =
      record_sources-timestamp_counts
        (record_source s.sequence s.timestamp_ns s.monotonic_ns (new_metrics width)) s.timestamp_ns
        rest first.0 first.1 in
    omega (arith, first.2, first.3, later)
