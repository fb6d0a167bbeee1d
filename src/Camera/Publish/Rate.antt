-- ===== src/Camera/Publish/Rate.antt =====
-- LogRateMetrics of src/camera_publisher.cpp: one report for each camera of the mask.
use robo_baton_4p_ros2_demo.Prelude.{
  ℕ, zero, suc, ◌+◌, ◌<◌, ◌≡◌, List, [], ◌∷◌, ◌==◌, if◌then◌else◌, pos, arith,
}
use robo_baton_4p_ros2_demo.Metrics.{PublicationRateSnapshot}
use robo_baton_4p_ros2_demo.Ros.{rate_window}
use robo_baton_4p_ros2_demo.Options.{camera_mask_contains}
use robo_baton_4p_ros2_demo.Camera.Core.{Core, max_cameras}
use robo_baton_4p_ros2_demo.Camera.Reports.{core_snapshot}
use robo_baton_4p_ros2_demo.Camera.Publish.{Config}

-- `previous_snapshots_[camera_id] = current`
abbrev pub set_snapshot :
    (ℕ → PublicationRateSnapshot) → ℕ → PublicationRateSnapshot → ℕ → PublicationRateSnapshot
set_snapshot previous id current j = if id == j then current else previous j

-- The loop, with the rounds left: the reports with their cameras, and the snapshots for the next time.
unfoldable pub log_cameras :
    Config
    → ℕ
    → Core
    → ℕ
    → ℕ
    → (ℕ → PublicationRateSnapshot)
    → List (ℕ × PublicationRateSnapshot) × (ℕ → PublicationRateSnapshot)
log_cameras config now_ns c zero id previous = ([], previous)
log_cameras config now_ns c (suc rounds) id previous =
    let current = core_snapshot id now_ns c in
    let skipped = log_cameras config now_ns c rounds (id + 1) previous in
    let (reports, left) =
      log_cameras config now_ns c rounds (id + 1) (set_snapshot previous id current) in
    if camera_mask_contains config.options.camera_mask (pos id)
    then ((id, rate_window (previous id) current) ∷ reports, left)
    else skipped

unfoldable pub log_rate_metrics :
    Config
    → ℕ
    → Core
    → (ℕ → PublicationRateSnapshot)
    → List (ℕ × PublicationRateSnapshot) × (ℕ → PublicationRateSnapshot)
unfolding log_cameras
log_rate_metrics config now_ns c previous = log_cameras config now_ns c max_cameras 0 previous

-- Each camera of the mask leaves its snapshot of this time, and every other one what it had before.
pub log_rate_metrics-snapshots :
    (config : Config) (now_ns : ℕ) (c : Core) (previous : ℕ → PublicationRateSnapshot) (id : ℕ)
    → id < max_cameras
    → (log_rate_metrics config now_ns c previous).1 id ≡ (
        if camera_mask_contains config.options.camera_mask (pos id)
        then core_snapshot id now_ns c
        else previous id)
unfolding log_rate_metrics
log_rate_metrics-snapshots config now_ns c previous id low = ground (arith, low)
