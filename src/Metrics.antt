-- ===== src/Metrics.antt =====
-- src/publication_rate_metrics.cpp and include/robobaton_4p_ros2_demo/publication_rate_metrics.hpp:
-- the counters of a producer's input and of the ROS publications, their snapshots and the
-- differences of two snapshots.
--
-- A PublicationRateMetrics is a record of its fields; an operation returns the new record. An atomic
-- uint64_t is a number, and `fetch_add` wraps at 2 ^ 64. Each operation runs as one step, but for the
-- compare-and-swap loop of RecordPublishSuccess: `raise_max` takes the interference of other threads
-- as a list of attempts.
mod Source
pub mod Sequence
pub mod Timestamps
pub mod Latency
pub mod Window
pub mod Extremes
mod Tests
unfoldable pub use Source.*
use Prim.Native.Nat.{max}
use robo_baton_4p_ros2_demo.Prelude.{
  ℕ, ◌+◌, ◌-◌, ◌/◌, ◌%◌, ◌^◌, Bool, true, false, ◌&&◌, ◌||◌, not, List, [], ◌∷◌, ltb, leb, ◌==◌,
  if◌then◌else◌,
}

-- One attempt of the weak compare-and-swap: how far other threads have raised the maximum before it,
-- and whether it fails although the value is the expected one.
pub record Attempt : Type 0 where
  pub raised_to : ℕ
  pub spurious : Bool

-- The loop of RecordPublishSuccess over the attempts that other threads or the hardware disturb;
-- `expected` is the value loaded last and `cell` the shared maximum. When the list is used up,
-- nothing disturbs the thread any more. The result is the maximum when the loop ends.
unfoldable pub raise_max : ℕ → ℕ → ℕ → List Attempt → ℕ
raise_max latency_ns expected cell [] =
    if ltb expected latency_ns
    then if cell == expected then latency_ns else if ltb cell latency_ns then latency_ns else cell
    else cell
raise_max latency_ns expected cell (a ∷ rest) =
    let seen = max cell a.raised_to in
    let retry = raise_max latency_ns seen seen rest in
    if ltb expected latency_ns
    then if seen == expected && not a.spurious then latency_ns else retry
    else cell

unfoldable pub record_publish_success :
    ℕ → List Attempt → PublicationRateMetrics → PublicationRateMetrics
record_publish_success latency_ns attempts m = record m {
  publish_count = fetch_add m.publish_count 1;
  publish_latency_count = fetch_add m.publish_latency_count 1;
  publish_latency_sum_ns = fetch_add m.publish_latency_sum_ns latency_ns;
  publish_latency_max_ns =
      raise_max latency_ns m.publish_latency_max_ns m.publish_latency_max_ns attempts;
}

unfoldable pub record_auxiliary_publish_success : PublicationRateMetrics → PublicationRateMetrics
record_auxiliary_publish_success m = record m {
  auxiliary_publish_count = fetch_add m.auxiliary_publish_count 1;
}

unfoldable pub record_drop : PublicationRateMetrics → PublicationRateMetrics
record_drop m = record m { drop_count = fetch_add m.drop_count 1 }

unfoldable pub record_publish_failure : PublicationRateMetrics → PublicationRateMetrics
record_publish_failure m = record m { publish_failure_count = fetch_add m.publish_failure_count 1 }

unfoldable pub snapshot : ℕ → PublicationRateMetrics → PublicationRateSnapshot
snapshot monotonic_ns m = record {
  source_count = m.source_count;
  publish_count = m.publish_count;
  auxiliary_publish_count = m.auxiliary_publish_count;
  drop_count = m.drop_count;
  publish_failure_count = m.publish_failure_count;
  sequence_gap_count = m.sequence_gap_count;
  sequence_duplicate_count = m.sequence_duplicate_count;
  sequence_regression_count = m.sequence_regression_count;
  timestamp_duplicate_count = m.timestamp_duplicate_count;
  timestamp_regression_count = m.timestamp_regression_count;
  publish_latency_count = m.publish_latency_count;
  publish_latency_sum_ns = m.publish_latency_sum_ns;
  publish_latency_max_ns = m.publish_latency_max_ns;
  interval_start_monotonic_ns = m.first_monotonic_ns;
  interval_end_monotonic_ns = monotonic_ns;
}

unfoldable pub delta : PublicationRateSnapshot → PublicationRateSnapshot → PublicationRateSnapshot
unfolding saturating_subtract
delta before after = record {
  source_count = saturating_subtract after.source_count before.source_count;
  publish_count = saturating_subtract after.publish_count before.publish_count;
  auxiliary_publish_count =
      saturating_subtract after.auxiliary_publish_count before.auxiliary_publish_count;
  drop_count = saturating_subtract after.drop_count before.drop_count;
  publish_failure_count =
      saturating_subtract after.publish_failure_count before.publish_failure_count;
  sequence_gap_count = saturating_subtract after.sequence_gap_count before.sequence_gap_count;
  sequence_duplicate_count =
      saturating_subtract after.sequence_duplicate_count before.sequence_duplicate_count;
  sequence_regression_count =
      saturating_subtract after.sequence_regression_count before.sequence_regression_count;
  timestamp_duplicate_count =
      saturating_subtract after.timestamp_duplicate_count before.timestamp_duplicate_count;
  timestamp_regression_count =
      saturating_subtract after.timestamp_regression_count before.timestamp_regression_count;
  publish_latency_count =
      saturating_subtract after.publish_latency_count before.publish_latency_count;
  publish_latency_sum_ns =
      saturating_subtract after.publish_latency_sum_ns before.publish_latency_sum_ns;
  publish_latency_max_ns = after.publish_latency_max_ns;
  interval_start_monotonic_ns = before.interval_end_monotonic_ns;
  interval_end_monotonic_ns = after.interval_end_monotonic_ns;
}
