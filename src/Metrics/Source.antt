-- ===== src/Metrics/Source.antt =====
-- The state of PublicationRateMetrics, and what RecordSource and RecordSourceWithoutSequence do with it, in
-- src/publication_rate_metrics.cpp.
use robo_baton_4p_ros2_demo.Prelude.{
  ℕ, ◌+◌, ◌-◌, ◌/◌, ◌%◌, ◌^◌, Bool, true, false, ◌&&◌, ◌||◌, ltb, leb, ◌==◌, if◌then◌else◌,
}

pub data SequenceWidth : Type 0 where
  k_none k32_bit k64_bit : SequenceWidth

pub record PublicationRateSnapshot : Type 0 where
  pub source_count : ℕ
  pub publish_count : ℕ
  pub auxiliary_publish_count : ℕ
  pub drop_count : ℕ
  pub publish_failure_count : ℕ
  pub sequence_gap_count : ℕ
  pub sequence_duplicate_count : ℕ
  pub sequence_regression_count : ℕ
  pub timestamp_duplicate_count : ℕ
  pub timestamp_regression_count : ℕ
  pub publish_latency_count : ℕ
  pub publish_latency_sum_ns : ℕ
  pub publish_latency_max_ns : ℕ
  pub interval_start_monotonic_ns : ℕ
  pub interval_end_monotonic_ns : ℕ

pub record PublicationRateMetrics : Type 0 where
  pub sequence_width : SequenceWidth
  pub sequence_initialized : Bool
  pub timestamp_initialized : Bool
  pub last_sequence : ℕ
  pub last_timestamp_ns : ℕ
  pub source_count : ℕ
  pub publish_count : ℕ
  pub auxiliary_publish_count : ℕ
  pub drop_count : ℕ
  pub publish_failure_count : ℕ
  pub sequence_gap_count : ℕ
  pub sequence_duplicate_count : ℕ
  pub sequence_regression_count : ℕ
  pub timestamp_duplicate_count : ℕ
  pub timestamp_regression_count : ℕ
  pub publish_latency_count : ℕ
  pub publish_latency_sum_ns : ℕ
  pub publish_latency_max_ns : ℕ
  pub first_monotonic_ns : ℕ

-- The constructor of the class, with the members' initial values.
unfoldable pub new_metrics : SequenceWidth → PublicationRateMetrics
new_metrics width = record {
  sequence_width = width;
  sequence_initialized = false;
  timestamp_initialized = false;
  last_sequence = 0;
  last_timestamp_ns = 0;
  source_count = 0;
  publish_count = 0;
  auxiliary_publish_count = 0;
  drop_count = 0;
  publish_failure_count = 0;
  sequence_gap_count = 0;
  sequence_duplicate_count = 0;
  sequence_regression_count = 0;
  timestamp_duplicate_count = 0;
  timestamp_regression_count = 0;
  publish_latency_count = 0;
  publish_latency_sum_ns = 0;
  publish_latency_max_ns = 0;
  first_monotonic_ns = 0;
}

abbrev pub fetch_add : ℕ → ℕ → ℕ
fetch_add counter n = (counter + n) % 2 ^ 64

abbrev pub uint64_max : ℕ
uint64_max = 2 ^ 64 - 1

abbrev pub uint32_max : ℕ
uint32_max = 2 ^ 32 - 1

unfoldable pub saturating_subtract : ℕ → ℕ → ℕ
saturating_subtract after before = if leb before after then after - before else 0

abbrev pub is_32_bit : SequenceWidth → Bool
is_32_bit k32_bit = true
is_32_bit _ = false

abbrev pub has_sequence : SequenceWidth → Bool
has_sequence k_none = false
has_sequence _ = true

unfoldable pub expected_next : ℕ → SequenceWidth → ℕ
expected_next sequence width =
    if is_32_bit width
    then (sequence % 2 ^ 32 + 1) % 2 ^ 32
    else if sequence == uint64_max
    then 0
    else sequence + 1

unfoldable pub normalize_sequence : ℕ → SequenceWidth → ℕ
normalize_sequence sequence width = if is_32_bit width then sequence % 2 ^ 32 else sequence

-- The compare-and-swap from 0 succeeds once.
unfoldable pub set_first_monotonic : ℕ → PublicationRateMetrics → PublicationRateMetrics
set_first_monotonic monotonic_ns m =
    if monotonic_ns == 0
    then m
    else if m.first_monotonic_ns == 0
    then record m { first_monotonic_ns = monotonic_ns }
    else m

unfoldable pub record_timestamp_locked : ℕ → PublicationRateMetrics → PublicationRateMetrics
record_timestamp_locked timestamp_ns m =
    let duplicate = m.timestamp_initialized && timestamp_ns == m.last_timestamp_ns in
    let regression = m.timestamp_initialized && ltb timestamp_ns m.last_timestamp_ns in
    let counted =
      if duplicate
      then record m { timestamp_duplicate_count = fetch_add m.timestamp_duplicate_count 1 }
      else if regression
      then record m { timestamp_regression_count = fetch_add m.timestamp_regression_count 1 }
      else m in
    record counted { timestamp_initialized = true; last_timestamp_ns = timestamp_ns }

-- The comparison of a normalized sequence number with the last one.
unfoldable pub count_sequence : ℕ → PublicationRateMetrics → PublicationRateMetrics
unfolding expected_next
count_sequence normalized m =
    let expected = expected_next m.last_sequence m.sequence_width in
    let wrapped_forward =
      is_32_bit m.sequence_width
      && ltb (uint32_max / 2) m.last_sequence
      && ltb normalized (uint32_max / 2) in
    if normalized == m.last_sequence
    then record m { sequence_duplicate_count = fetch_add m.sequence_duplicate_count 1 }
    else if normalized == expected
    then m
    else if ltb expected normalized || wrapped_forward
    then record m { sequence_gap_count = fetch_add m.sequence_gap_count 1 }
    else record m { sequence_regression_count = fetch_add m.sequence_regression_count 1 }

-- The critical section of RecordSource.
unfoldable pub record_sequence_locked : ℕ → PublicationRateMetrics → PublicationRateMetrics
unfolding count_sequence normalize_sequence
record_sequence_locked sequence m =
    let normalized = normalize_sequence sequence m.sequence_width in
    let counted =
      if has_sequence m.sequence_width && m.sequence_initialized
      then count_sequence normalized m
      else m in
    record counted {
      sequence_initialized = has_sequence m.sequence_width;
      last_sequence = normalized;
    }

count_source : ℕ → PublicationRateMetrics → PublicationRateMetrics
unfolding set_first_monotonic
count_source monotonic_ns m =
    let m' = set_first_monotonic monotonic_ns m in
    record m' { source_count = fetch_add m'.source_count 1 }

unfoldable pub record_source : ℕ → ℕ → ℕ → PublicationRateMetrics → PublicationRateMetrics
unfolding count_source record_sequence_locked record_timestamp_locked
record_source sequence timestamp_ns monotonic_ns m =
    record_timestamp_locked timestamp_ns
      (record_sequence_locked sequence (count_source monotonic_ns m))

unfoldable pub record_source_without_sequence :
    ℕ → ℕ → PublicationRateMetrics → PublicationRateMetrics
unfolding count_source record_timestamp_locked
record_source_without_sequence timestamp_ns monotonic_ns m =
    record_timestamp_locked timestamp_ns (count_source monotonic_ns m)
