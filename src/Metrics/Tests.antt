-- ===== src/Metrics/Tests.antt =====
-- The metrics on concrete streams, and the theorems of the modules beside this one there.
use robo_baton_4p_ros2_demo.Prelude.{ℕ, ◌-◌, ◌^◌, ◌≡◌, refl, true, false, List, [], ◌∷◌, arith}
use robo_baton_4p_ros2_demo.Metrics.{
  PublicationRateMetrics, Attempt, k32_bit, k64_bit, new_metrics, record_source, snapshot, delta,
}
use robo_baton_4p_ros2_demo.Metrics.Sequence.{
  Source, record_sources, count_pairs, record_sources-sequence, record_source-after_largest,
}
use robo_baton_4p_ros2_demo.Metrics.Window.{
  Op, source, publish_success, drop, publish_failure, run, tally, delta-run,
}

abbrev at : ℕ → ℕ → Source
at q t = record { sequence = q; timestamp_ns = t; monotonic_ns = t }

-- A gap from 5 to 9, a repetition of 9, and a step back to 4.
abbrev stream : List Source
stream = at 9 30 ∷ at 9 30 ∷ at 4 20 ∷ []

stream_counts :
    let m = record_sources (at 5 10 ∷ stream) (new_metrics k64_bit) in
    (m.sequence_gap_count ≡ 1)
    × (m.sequence_duplicate_count ≡ 1)
    × (m.sequence_regression_count ≡ 1)
    × (m.first_monotonic_ns ≡ 10)
unfolding record_sources record_source new_metrics
stream_counts = (refl, refl, refl, refl)

record_sources-sequence_example :
    (record_sources (at 5 10 ∷ stream) (new_metrics k64_bit)).sequence_gap_count ≡ 1
unfolding count_pairs
record_sources-sequence_example = (record_sources-sequence (at 5 10) stream (omega arith)).0

abbrev at_largest : PublicationRateMetrics
unfolding new_metrics
at_largest = record (new_metrics k64_bit) {
  sequence_initialized = true;
  last_sequence = 2 ^ 64 - 1;
}

record_source-after_largest_example :
    let m = record_source (2 ^ 64 - 2) 7 7 at_largest in
    (m.sequence_gap_count ≡ 1) × (m.sequence_regression_count ≡ 0)
unfolding at_largest
record_source-after_largest_example =
    record_source-after_largest at_largest (2 ^ 64 - 2) 7 7 (ground arith) (omega arith)
      (omega arith)

abbrev near_wrap : PublicationRateMetrics
unfolding new_metrics
near_wrap = record (new_metrics k32_bit) { sequence_initialized = true; last_sequence = 2 ^ 32 - 2 }

-- Another thread first raises the maximum to 40; then the compare-and-swap fails for no reason.
abbrev disturbed : List Attempt
disturbed =
    record { raised_to = 40; spurious = false } ∷ record { raised_to = 0; spurious = true } ∷ []

abbrev calls : List Op
calls = source 1 5 8 ∷ publish_success 60 disturbed ∷ drop ∷ publish_failure ∷ []

fresh : PublicationRateMetrics
unfolding new_metrics
fresh = new_metrics k64_bit

delta-run_example : (delta (snapshot 3 fresh) (snapshot 9 (run calls fresh))).publish_count ≡ 1
unfolding fresh tally
delta-run_example = (delta-run calls fresh 3 9 (omega arith)).1
