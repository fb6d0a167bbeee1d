-- ===== src/Imu/Publish/Windows.antt =====
-- The rate reports of the IMU, one after the other.
use robo_baton_4p_ros2_demo.Prelude.{ℕ, ◌+◌, ◌≤◌, ◌<◌, ◌≡◌, refl, subst, sym, List, [], ◌∷◌, arith}
use robo_baton_4p_ros2_demo.Metrics.{PublicationRateSnapshot, delta, saturating_subtract, snapshot}
use robo_baton_4p_ros2_demo.Ros.{rate_window}
use robo_baton_4p_ros2_demo.Imu.Core.{Core}
use robo_baton_4p_ros2_demo.Imu.Publish.{core_snapshot, log_rate_metrics}

-- The timer fires with these readings of the clock, at these states of the core: the reports, and the
-- snapshot that is left.
unfoldable pub timer_run :
    List (ℕ × Core)
    → PublicationRateSnapshot
    → List PublicationRateSnapshot × PublicationRateSnapshot
timer_run [] previous = ([], previous)
timer_run ((now_ns, c) ∷ rest) previous =
    let (report, current) = log_rate_metrics now_ns c previous in
    let (reports, last) = timer_run rest current in (report ∷ reports, last)

-- No counter falls from one snapshot to the next, and the clock does not read 0.
unfoldable pub IsRising : List (ℕ × Core) → PublicationRateSnapshot → Type 0
IsRising [] previous = Unit {0}
IsRising ((now_ns, c) ∷ rest) previous =
    let current = core_snapshot now_ns c in
    (0 < now_ns)
    × (previous.source_count ≤ current.source_count)
    × (previous.publish_count ≤ current.publish_count)
    × (previous.auxiliary_publish_count ≤ current.auxiliary_publish_count)
    × (previous.publish_failure_count ≤ current.publish_failure_count)
    × IsRising rest current

-- The sum of one counter over the reports.
unfoldable pub total : (PublicationRateSnapshot → ℕ) → List PublicationRateSnapshot → ℕ
total count [] = 0
total count (report ∷ rest) = count report + total count rest

-- Each report begins where the one before it ended, the first one at `start`.
unfoldable pub IsTiled : ℕ → List PublicationRateSnapshot → Type 0
IsTiled start [] = Unit {0}
IsTiled start (report ∷ rest) =
    (report.interval_start_monotonic_ns ≡ start) × IsTiled report.interval_end_monotonic_ns rest

pub record AddsUp (previous last : PublicationRateSnapshot) (reports : List PublicationRateSnapshot)
    : Type 0 where
  pub sources : previous.source_count + total (λ r. r.source_count) reports ≡ last.source_count
  pub published : previous.publish_count + total (λ r. r.publish_count) reports ≡ last.publish_count
  pub auxiliary :
      previous.auxiliary_publish_count + total (λ r. r.auxiliary_publish_count) reports
      ≡ last.auxiliary_publish_count
  pub failures :
      previous.publish_failure_count + total (λ r. r.publish_failure_count) reports
      ≡ last.publish_failure_count

start_of :
    (previous current : PublicationRateSnapshot)
    → 0 < previous.interval_end_monotonic_ns
    → ((rate_window previous current).interval_start_monotonic_ns
        ≡ previous.interval_end_monotonic_ns)
      × ((rate_window previous current).interval_end_monotonic_ns
          ≡ current.interval_end_monotonic_ns)
unfolding rate_window delta
start_of previous current h = (ground (arith, h), refl)

snapshot_end : (now_ns : ℕ) (c : Core) → (core_snapshot now_ns c).interval_end_monotonic_ns ≡ now_ns
unfolding core_snapshot snapshot
snapshot_end now_ns c = ground arith

add_window :
    (previous current last : PublicationRateSnapshot) (reports : List PublicationRateSnapshot)
    → previous.source_count ≤ current.source_count
    → previous.publish_count ≤ current.publish_count
    → previous.auxiliary_publish_count ≤ current.auxiliary_publish_count
    → previous.publish_failure_count ≤ current.publish_failure_count
    → AddsUp current last reports
    → AddsUp previous last (rate_window previous current ∷ reports)
unfolding rate_window delta saturating_subtract total
add_window previous current last reports a b c d v = record {
  sources = ground (arith, a, v.sources);
  published = ground (arith, b, v.published);
  auxiliary = ground (arith, c, v.auxiliary);
  failures = ground (arith, d, v.failures);
}

-- Over the reports of a timer after a snapshot at a time other than 0, with readings of the clock that
-- are not 0 and counters that do not fall, each of the counts of samples, publications, auxiliary
-- publications and failures adds up to what the last snapshot has more than the first; and each report
-- begins where the one before it ended.
pub timer_run-AddsUp :
    (ticks : List (ℕ × Core)) (previous : PublicationRateSnapshot)
    → 0 < previous.interval_end_monotonic_ns
    → IsRising ticks previous
    → let (reports, last) = timer_run ticks previous in
      AddsUp previous last reports × IsTiled previous.interval_end_monotonic_ns reports
unfolding timer_run IsRising IsTiled total log_rate_metrics
timer_run-AddsUp [] previous h rising = (
  record {
    sources = omega arith;
    published = omega arith;
    auxiliary = omega arith;
    failures = omega arith;
  },
  tt,
)
timer_run-AddsUp ((now_ns, c) ∷ rest) previous h (positive, a, b, d, e, rising) =
    let current = core_snapshot now_ns c in
    let ended = snapshot_end now_ns c in
    let (sums, tiles) = timer_run-AddsUp rest current (omega (arith, ended, positive)) rising in
    let (begin_, end_) = start_of previous current h in
    (
      add_window previous current (timer_run rest current).1 (timer_run rest current).0 a b d e
          sums,
      (begin_, subst (λ t. IsTiled t (timer_run rest current).0) (sym end_) tiles),
    )
