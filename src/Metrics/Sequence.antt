-- ===== src/Metrics/Sequence.antt =====
-- What RecordSource counts along a stream of samples: gaps, duplicates and regressions of sequence
-- numbers and of time stamps, against the pairs of neighbours of the stream.
use robo_baton_4p_ros2_demo.Prelude.{
  ℕ, ◌+◌, ◌-◌, ◌%◌, ◌^◌, ◌≤◌, ◌<◌, ◌≡◌, ◌≢◌, Bool, true, List, [], ◌∷◌, map, arith, ltb, ◌==◌,
  if◌then◌else◌,
}
use robo_baton_4p_ros2_demo.Metrics.{
  PublicationRateMetrics, k32_bit, k64_bit, fetch_add, new_metrics, record_source,
}

-- The arguments of one call of RecordSource.
pub record Source : Type 0 where
  pub sequence : ℕ
  pub timestamp_ns : ℕ
  pub monotonic_ns : ℕ

-- The calls of RecordSource in order of arrival.
unfoldable pub record_sources : List Source → PublicationRateMetrics → PublicationRateMetrics
record_sources [] m = m
record_sources (s ∷ rest) m =
    record_sources rest (record_source s.sequence s.timestamp_ns s.monotonic_ns m)

-- How many neighbours of `last ∷ xs` satisfy the test.
unfoldable pub count_pairs : (ℕ → ℕ → Bool) → ℕ → List ℕ → ℕ
count_pairs test last [] = 0
count_pairs test last (x ∷ xs) = (if test last x then 1 else 0) + count_pairs test x xs

abbrev pub is_gap : ℕ → ℕ → Bool
is_gap last x = ltb (last + 1) x

abbrev pub is_duplicate : ℕ → ℕ → Bool
is_duplicate last x = x == last

abbrev pub is_regression : ℕ → ℕ → Bool
is_regression last x = ltb x last

abbrev pub sequences : List Source → List ℕ
sequences = map λ (s : Source). s.sequence

abbrev pub timestamps : List Source → List ℕ
timestamps = map λ (s : Source). s.timestamp_ns

-- No sequence number is the largest one, after which the producer would wrap.
abbrev pub Unwrapped : List Source → Type 0
Unwrapped [] = Unit {0}
Unwrapped (s ∷ rest) = (s.sequence < 2 ^ 64 - 1) × Unwrapped rest

-- The metrics after a first sample with this sequence number, and counters that fit 64 bits.
pub record Tracks (m : PublicationRateMetrics) (last : ℕ) : Type 0 where
  pub width : m.sequence_width ≡ k64_bit
  pub started : m.sequence_initialized ≡ true
  pub last_is : m.last_sequence ≡ last
  pub gap_fits : m.sequence_gap_count < 2 ^ 64
  pub duplicate_fits : m.sequence_duplicate_count < 2 ^ 64
  pub regression_fits : m.sequence_regression_count < 2 ^ 64

abbrev pub one_if : Bool → ℕ
one_if b = if b then 1 else 0

-- One sample of the 64-bit stream.
record_source-step :
    (m : PublicationRateMetrics) (last : ℕ) (s : Source)
    → Tracks m last
    → last < 2 ^ 64 - 1
    → s.sequence < 2 ^ 64 - 1
    → let m' = record_source s.sequence s.timestamp_ns s.monotonic_ns m in
      Tracks m' s.sequence
      × (m'.sequence_gap_count ≡ (m.sequence_gap_count + one_if (is_gap last s.sequence)) % 2 ^ 64)
      × (m'.sequence_duplicate_count
          ≡ (m.sequence_duplicate_count + one_if (is_duplicate last s.sequence)) % 2 ^ 64)
      × (m'.sequence_regression_count
          ≡ (m.sequence_regression_count + one_if (is_regression last s.sequence)) % 2 ^ 64)
unfolding record_source
record_source-step m last s t hl hs = ground arith

record_sources-counts :
    (m : PublicationRateMetrics) (last : ℕ) (xs : List Source)
    → Tracks m last
    → last < 2 ^ 64 - 1
    → Unwrapped xs
    → let m' = record_sources xs m in
      (m'.sequence_gap_count
        ≡ (m.sequence_gap_count + count_pairs is_gap last (sequences xs)) % 2 ^ 64)
      × (m'.sequence_duplicate_count
          ≡ (m.sequence_duplicate_count + count_pairs is_duplicate last (sequences xs)) % 2 ^ 64)
      × (m'.sequence_regression_count
          ≡ (m.sequence_regression_count + count_pairs is_regression last (sequences xs)) % 2 ^ 64)
unfolding record_sources count_pairs
record_sources-counts m last [] t hl hs = omega arith
record_sources-counts m last (s ∷ rest) t hl hs =
    let step = record_source-step m last s t hl hs.0 in
    let later =
      record_sources-counts (record_source s.sequence s.timestamp_ns s.monotonic_ns m) s.sequence
        rest step.0 hs.0 hs.1 in
    omega (arith, step.1, step.2, step.3, later)

first-Tracks :
    (s : Source)
    → let m = record_source s.sequence s.timestamp_ns s.monotonic_ns (new_metrics k64_bit) in
      Tracks m s.sequence
      × (m.sequence_gap_count ≡ 0)
      × (m.sequence_duplicate_count ≡ 0)
      × (m.sequence_regression_count ≡ 0)
unfolding record_source new_metrics
first-Tracks s = ground arith

-- On a camera's metrics (64-bit sequence numbers), fed from the start with a stream in which no
-- sequence number is the largest one, the three sequence counters are, modulo 2 ^ 64, the numbers of
-- neighbours that skip forward, repeat, and go back: a skip is one gap whatever its size, the first
-- sample counts for nothing, and no neighbour counts twice.
pub record_sources-sequence :
    (s : Source) (rest : List Source)
    → Unwrapped (s ∷ rest)
    → let m = record_sources (s ∷ rest) (new_metrics k64_bit) in
      (m.sequence_gap_count ≡ count_pairs is_gap s.sequence (sequences rest) % 2 ^ 64)
      × (m.sequence_duplicate_count ≡ count_pairs is_duplicate s.sequence (sequences rest) % 2 ^ 64)
      × (m.sequence_regression_count
          ≡ count_pairs is_regression s.sequence (sequences rest) % 2 ^ 64)
unfolding record_sources
record_sources-sequence s rest h =
    let first = first-Tracks s in
    let later = record_sources-counts _ s.sequence rest first.0 h.0 h.1 in
    omega (arith, first.1, first.2, first.3, later)

-- After the largest 64-bit sequence number no arrival is counted as a regression: every one but a
-- repetition and the wrap to 0 is counted as a gap, one step back included.
pub record_source-after_largest :
    (m : PublicationRateMetrics) (sequence timestamp_ns monotonic_ns : ℕ)
    → Tracks m (2 ^ 64 - 1)
    → sequence < 2 ^ 64 - 1
    → sequence ≢ 0
    → let m' = record_source sequence timestamp_ns monotonic_ns m in
      (m'.sequence_gap_count ≡ fetch_add m.sequence_gap_count 1)
      × (m'.sequence_regression_count ≡ m.sequence_regression_count)
unfolding record_source
record_source-after_largest m sequence timestamp_ns monotonic_ns t h n = ground arith

-- With 32-bit sequence numbers a producer that skips forward by less than half the range, so from 2
-- to 2 ^ 31 - 1 steps modulo 2 ^ 32, is always counted as one gap and nothing else, also where the
-- number wraps.
pub record_source-skip_32 :
    (m : PublicationRateMetrics) (step timestamp_ns monotonic_ns : ℕ)
    → m.sequence_width ≡ k32_bit
    → m.sequence_initialized ≡ true
    → m.last_sequence < 2 ^ 32
    → 2 ≤ step
    → step < 2 ^ 31
    → let m' = record_source (m.last_sequence + step) timestamp_ns monotonic_ns m in
      (m'.last_sequence ≡ (m.last_sequence + step) % 2 ^ 32)
      × (m'.sequence_gap_count ≡ fetch_add m.sequence_gap_count 1)
      × (m'.sequence_duplicate_count ≡ m.sequence_duplicate_count)
      × (m'.sequence_regression_count ≡ m.sequence_regression_count)
unfolding record_source
record_source-skip_32 m step timestamp_ns monotonic_ns w i l h k = ground arith
