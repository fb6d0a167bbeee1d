-- ===== src/Metrics/Window.antt =====
-- Snapshots and Delta: what the difference of two snapshots says of the operations between them.
use robo_baton_4p_ros2_demo.Prelude.{ℕ, ◌+◌, ◌^◌, ◌≤◌, ◌<◌, ◌≡◌, List, [], ◌∷◌, arith}
use robo_baton_4p_ros2_demo.Metrics.{
  PublicationRateMetrics, PublicationRateSnapshot, Attempt, record_source,
  record_source_without_sequence, record_publish_success, record_auxiliary_publish_success,
  record_drop, record_publish_failure, snapshot, delta,
}

-- A call of one of the public recording operations.
pub data Op : Type 0 where
  source : (sequence timestamp_ns monotonic_ns : ℕ) → Op
  source_without_sequence : (timestamp_ns monotonic_ns : ℕ) → Op
  publish_success : (latency_ns : ℕ) → List Attempt → Op
  auxiliary_publish_success drop publish_failure : Op

unfoldable pub apply : Op → PublicationRateMetrics → PublicationRateMetrics
apply (source q t n) = record_source q t n
apply (source_without_sequence t n) = record_source_without_sequence t n
apply (publish_success l attempts) = record_publish_success l attempts
apply auxiliary_publish_success = record_auxiliary_publish_success
apply drop = record_drop
apply publish_failure = record_publish_failure

-- The calls in order.
unfoldable pub run : List Op → PublicationRateMetrics → PublicationRateMetrics
run [] m = m
run (o ∷ rest) m = run rest (apply o m)

-- How much one call adds to each counter that calls of one kind raise.
pub record Tally : Type 0 where
  pub sources : ℕ
  pub publishes : ℕ
  pub auxiliaries : ℕ
  pub drops : ℕ
  pub failures : ℕ
  pub latency : ℕ

abbrev pub tally_op : Op → Tally → Tally
tally_op (source q t n) c = record c { sources = c.sources + 1 }
tally_op (source_without_sequence t n) c = record c { sources = c.sources + 1 }
tally_op (publish_success l attempts) c = record c {
  publishes = c.publishes + 1;
  latency = c.latency + l;
}
tally_op auxiliary_publish_success c = record c { auxiliaries = c.auxiliaries + 1 }
tally_op drop c = record c { drops = c.drops + 1 }
tally_op publish_failure c = record c { failures = c.failures + 1 }

-- The calls of each kind in a list, and the sum of the latencies.
unfoldable pub tally : List Op → Tally
tally [] = record {
  sources = 0;
  publishes = 0;
  auxiliaries = 0;
  drops = 0;
  failures = 0;
  latency = 0;
}
tally (o ∷ rest) = tally_op o (tally rest)

-- The six counters fit 64 bits together with what the tally adds.
pub record Fits (m : PublicationRateMetrics) (c : Tally) : Type 0 where
  pub sources : m.source_count + c.sources < 2 ^ 64
  pub publishes : m.publish_count + c.publishes < 2 ^ 64
  pub auxiliaries : m.auxiliary_publish_count + c.auxiliaries < 2 ^ 64
  pub drops : m.drop_count + c.drops < 2 ^ 64
  pub failures : m.publish_failure_count + c.failures < 2 ^ 64
  pub latencies : m.publish_latency_count + c.publishes < 2 ^ 64
  pub latency : m.publish_latency_sum_ns + c.latency < 2 ^ 64

-- The metrics m' are m with the tally added.
pub record Adds (m m' : PublicationRateMetrics) (c : Tally) : Type 0 where
  pub sources : m'.source_count ≡ m.source_count + c.sources
  pub publishes : m'.publish_count ≡ m.publish_count + c.publishes
  pub auxiliaries : m'.auxiliary_publish_count ≡ m.auxiliary_publish_count + c.auxiliaries
  pub drops : m'.drop_count ≡ m.drop_count + c.drops
  pub failures : m'.publish_failure_count ≡ m.publish_failure_count + c.failures
  pub latencies : m'.publish_latency_count ≡ m.publish_latency_count + c.publishes
  pub latency : m'.publish_latency_sum_ns ≡ m.publish_latency_sum_ns + c.latency

apply-Fits :
    (o : Op) (m : PublicationRateMetrics) (c : Tally) → Fits m (tally_op o c) → Fits (apply o m) c
unfolding apply record_source record_source_without_sequence record_publish_success
    record_auxiliary_publish_success record_drop record_publish_failure
apply-Fits (source q t n) m c f = ground arith
apply-Fits _ m c f = ground arith

apply-Adds :
    (o : Op) (m m' : PublicationRateMetrics) (c : Tally)
    → Fits m (tally_op o c)
    → Adds (apply o m) m' c
    → Adds m m' (tally_op o c)
unfolding apply record_source record_source_without_sequence record_publish_success
    record_auxiliary_publish_success record_drop record_publish_failure
apply-Adds (source q t n) m m' c f a = ground arith
apply-Adds _ m m' c f a = ground arith

pub run-Adds :
    (ops : List Op) (m : PublicationRateMetrics)
    → Fits m (tally ops)
    → Adds m (run ops m) (tally ops)
unfolding run tally
run-Adds [] m f = omega arith
run-Adds (o ∷ rest) m f =
    apply-Adds o m (run rest (apply o m)) (tally rest) f
      (run-Adds rest (apply o m) (apply-Fits o m (tally rest) f))

-- The difference of two snapshots, taken at times t and t' around any calls, holds how many calls of
-- each kind came between and the sum of their latencies, over the interval from t to t', provided
-- that no counter runs over 64 bits.
pub delta-run :
    (ops : List Op) (m : PublicationRateMetrics) (t t' : ℕ)
    → Fits m (tally ops)
    → let d = delta (snapshot t m) (snapshot t' (run ops m)) in
      let c = tally ops in
      (d.source_count ≡ c.sources)
      × (d.publish_count ≡ c.publishes)
      × (d.auxiliary_publish_count ≡ c.auxiliaries)
      × (d.drop_count ≡ c.drops)
      × (d.publish_failure_count ≡ c.failures)
      × (d.publish_latency_count ≡ c.publishes)
      × (d.publish_latency_sum_ns ≡ c.latency)
      × (d.interval_start_monotonic_ns ≡ t)
      × (d.interval_end_monotonic_ns ≡ t')
unfolding delta snapshot
delta-run ops m t t' f = ground (arith, run-Adds ops m f)

-- No counter of the first snapshot is above that of the second.
pub record Precedes (a b : PublicationRateSnapshot) : Type 0 where
  pub source_count_le : a.source_count ≤ b.source_count
  pub publish_count_le : a.publish_count ≤ b.publish_count
  pub auxiliary_publish_count_le : a.auxiliary_publish_count ≤ b.auxiliary_publish_count
  pub drop_count_le : a.drop_count ≤ b.drop_count
  pub publish_failure_count_le : a.publish_failure_count ≤ b.publish_failure_count
  pub sequence_gap_count_le : a.sequence_gap_count ≤ b.sequence_gap_count
  pub sequence_duplicate_count_le : a.sequence_duplicate_count ≤ b.sequence_duplicate_count
  pub sequence_regression_count_le : a.sequence_regression_count ≤ b.sequence_regression_count
  pub timestamp_duplicate_count_le : a.timestamp_duplicate_count ≤ b.timestamp_duplicate_count
  pub timestamp_regression_count_le : a.timestamp_regression_count ≤ b.timestamp_regression_count
  pub publish_latency_count_le : a.publish_latency_count ≤ b.publish_latency_count
  pub publish_latency_sum_ns_le : a.publish_latency_sum_ns ≤ b.publish_latency_sum_ns

-- Two snapshots whose counters add up to those of a third.
pub record AddsUp (d e total : PublicationRateSnapshot) : Type 0 where
  pub source_count_sum : d.source_count + e.source_count ≡ total.source_count
  pub publish_count_sum : d.publish_count + e.publish_count ≡ total.publish_count
  pub auxiliary_publish_count_sum :
      d.auxiliary_publish_count + e.auxiliary_publish_count ≡ total.auxiliary_publish_count
  pub drop_count_sum : d.drop_count + e.drop_count ≡ total.drop_count
  pub publish_failure_count_sum :
      d.publish_failure_count + e.publish_failure_count ≡ total.publish_failure_count
  pub sequence_gap_count_sum :
      d.sequence_gap_count + e.sequence_gap_count ≡ total.sequence_gap_count
  pub sequence_duplicate_count_sum :
      d.sequence_duplicate_count + e.sequence_duplicate_count ≡ total.sequence_duplicate_count
  pub sequence_regression_count_sum :
      d.sequence_regression_count + e.sequence_regression_count ≡ total.sequence_regression_count
  pub timestamp_duplicate_count_sum :
      d.timestamp_duplicate_count + e.timestamp_duplicate_count ≡ total.timestamp_duplicate_count
  pub timestamp_regression_count_sum :
      d.timestamp_regression_count + e.timestamp_regression_count ≡ total.timestamp_regression_count
  pub publish_latency_count_sum :
      d.publish_latency_count + e.publish_latency_count ≡ total.publish_latency_count
  pub publish_latency_sum_ns_sum :
      d.publish_latency_sum_ns + e.publish_latency_sum_ns ≡ total.publish_latency_sum_ns

-- Of three snapshots whose counters do not fall, the differences of neighbours add up, counter by
-- counter, to the difference of the ends, and their intervals meet: the reports of a timer lose no
-- event and count none twice.
pub delta-AddsUp :
    (a b c : PublicationRateSnapshot)
    → Precedes a b
    → Precedes b c
    → AddsUp (delta a b) (delta b c) (delta a c)
      × ((delta a b).interval_end_monotonic_ns ≡ (delta b c).interval_start_monotonic_ns)
unfolding delta
delta-AddsUp a b c p q = ground arith

-- Whatever two snapshots are compared, each counter of the difference is at most that of the later
-- one, so no difference wraps.
pub delta-le : (a b : PublicationRateSnapshot) → Precedes (delta a b) b
unfolding delta
delta-le a b = ground arith
