-- ===== src/Camera/Reports.antt =====
-- The publication reports of CameraLifecycleCore (src/camera_publisher.cpp): RecordPublishSuccess,
-- RecordPublishFailure, RecordAuxiliaryPublishSuccess and Snapshot, which the workers and the timer of
-- the ROS layer call.
use robo_baton_4p_ros2_demo.Prelude.{
  ℕ, ◌≡◌, inl, inr, ap, ◌∙◌, sym, ◌<◌, refl, true, false, ◌&&◌, List, [], ◌∷◌, ltb, ◌==◌,
  if◌then◌else◌, arith, Bool-cases,
}
use robo_baton_4p_ros2_demo.Metrics.{
  PublicationRateMetrics, PublicationRateSnapshot, Attempt, record_publish_success,
  record_publish_failure, record_auxiliary_publish_success, snapshot,
}
use robo_baton_4p_ros2_demo.Metrics.Window.{
  Op, publish_success, publish_failure, auxiliary_publish_success, apply, run,
}
use robo_baton_4p_ros2_demo.Camera.Core.{Core, update, max_cameras}

-- `camera_metrics_[camera_id]`, changed if the metrics are enabled and the id is in range.
unfoldable pub change_metrics : ℕ → (PublicationRateMetrics → PublicationRateMetrics) → Core → Core
change_metrics camera_id f c =
    if c.config.rate_metrics_enabled && ltb camera_id max_cameras
    then (let lane = c.lanes camera_id in
        record c { lanes = update c.lanes camera_id (record lane { metrics = f lane.metrics }) })
    else c

unfoldable pub core_record_publish_success : ℕ → ℕ → List Attempt → Core → Core
core_record_publish_success camera_id latency_ns attempts =
    change_metrics camera_id (record_publish_success latency_ns attempts)

unfoldable pub core_record_publish_failure : ℕ → Core → Core
core_record_publish_failure camera_id = change_metrics camera_id record_publish_failure

unfoldable pub core_record_auxiliary_publish_success : ℕ → Core → Core
core_record_auxiliary_publish_success camera_id =
    change_metrics camera_id record_auxiliary_publish_success

-- `PublicationRateSnapshot{}`
unfoldable pub empty_snapshot : PublicationRateSnapshot
empty_snapshot = record {
  source_count = 0;
  publish_count = 0;
  auxiliary_publish_count = 0;
  drop_count = 0;
  publish_failure_count = 0;
  sequence_gap_count = 0;
  sequence_duplicate_count = 0;
  sequence_regression_count = 0;
  timestamp_duplicate_count = 0;
  timestamp_regression_count = 0;
  publish_latency_count = 0;
  publish_latency_sum_ns = 0;
  publish_latency_max_ns = 0;
  interval_start_monotonic_ns = 0;
  interval_end_monotonic_ns = 0;
}

unfoldable pub core_snapshot : ℕ → ℕ → Core → PublicationRateSnapshot
unfolding empty_snapshot
core_snapshot camera_id monotonic_ns c =
    if ltb camera_id max_cameras
    then snapshot monotonic_ns (c.lanes camera_id).metrics
    else empty_snapshot

-- A report of the ROS layer for a camera.
pub data Report : Type 0 where
  succeeded : (camera_id latency_ns : ℕ) → List Attempt → Report
  failed auxiliary_succeeded : (camera_id : ℕ) → Report

unfoldable pub report : Report → Core → Core
report (succeeded id latency_ns attempts) c = core_record_publish_success id latency_ns attempts c
report (failed id) c = core_record_publish_failure id c
report (auxiliary_succeeded id) c = core_record_auxiliary_publish_success id c

unfoldable pub reports : List Report → Core → Core
reports [] c = c
reports (r ∷ rest) c = reports rest (report r c)

abbrev pub addressee : Report → ℕ
addressee (succeeded id latency_ns attempts) = id
addressee (failed id) = id
addressee (auxiliary_succeeded id) = id

abbrev pub as_op : Report → Op
as_op (succeeded id latency_ns attempts) = publish_success latency_ns attempts
as_op (failed id) = publish_failure
as_op (auxiliary_succeeded id) = auxiliary_publish_success

-- The reports for one camera, as calls of its metrics.
unfoldable pub ops_of : ℕ → List Report → List Op
ops_of id [] = []
ops_of id (r ∷ rest) = if addressee r == id then as_op r ∷ ops_of id rest else ops_of id rest

change-lane :
    (i id : ℕ) (f : PublicationRateMetrics → PublicationRateMetrics) (c : Core)
    → c.config.rate_metrics_enabled ≡ true
    → id < max_cameras
    → ((change_metrics i f c).lanes id).metrics
      ≡ (if i == id then f (c.lanes id).metrics else (c.lanes id).metrics)
unfolding change_metrics
change-lane i id f c on h = elim (Bool-cases (i == id)) [
  | inl same ↦
      let e : i ≡ id = ground arith in
      let low : ltb id max_cameras ≡ true = ground arith in
      let itself : (id == id) ≡ true = ground arith in simp (e, on, low, itself)
  | inr other ↦ elim (Bool-cases (ltb i max_cameras)) [
    | inl low ↦ simp (on, low, other)
    | inr high ↦ simp (on, high, other)
  ]
]

report-change :
    (r : Report) (c : Core) → report r c ≡ change_metrics (addressee r) (apply (as_op r)) c
unfolding report core_record_publish_success core_record_publish_failure
    core_record_auxiliary_publish_success apply
report-change (succeeded i latency_ns attempts) c = refl
report-change (failed i) c = refl
report-change (auxiliary_succeeded i) c = refl

change-config :
    (i : ℕ) (f : PublicationRateMetrics → PublicationRateMetrics) (c : Core)
    → (change_metrics i f c).config ≡ c.config
unfolding change_metrics
change-config i f c = ground arith

change-disabled :
    (i : ℕ) (f : PublicationRateMetrics → PublicationRateMetrics) (c : Core)
    → c.config.rate_metrics_enabled ≡ false
    → change_metrics i f c ≡ c
unfolding change_metrics
change-disabled i f c off = simp off

ops_of-run :
    (r : Report) (rest : List Report) (id : ℕ) (m : PublicationRateMetrics)
    → run (ops_of id (r ∷ rest)) m
      ≡ run (ops_of id rest) (if addressee r == id then apply (as_op r) m else m)
unfolding ops_of run
ops_of-run r rest id m = elim (Bool-cases (addressee r == id)) [
  | inl here ↦ simp here
  | inr there ↦ simp there
]

nothing-run : (id : ℕ) (m : PublicationRateMetrics) → m ≡ run (ops_of id []) m
unfolding ops_of run
nothing-run id m = refl

reports-lane :
    (rs : List Report) (id : ℕ) (c : Core)
    → c.config.rate_metrics_enabled ≡ true
    → id < max_cameras
    → ((reports rs c).lanes id).metrics ≡ run (ops_of id rs) (c.lanes id).metrics
unfolding reports
reports-lane [] id c on h = nothing-run id (c.lanes id).metrics
reports-lane (r ∷ rest) id c on h =
    let f = apply (as_op r) in
    let same = report-change r c in
    reports-lane rest id (report r c)
      (ap (λ d. d.config.rate_metrics_enabled) same
        ∙ ap (λ g. g.rate_metrics_enabled) (change-config (addressee r) f c)
        ∙ on)
      h
    ∙ ap (λ d. run (ops_of id rest) (d.lanes id).metrics) same
    ∙ ap (run (ops_of id rest)) (change-lane (addressee r) id f c on h)
    ∙ sym (ops_of-run r rest id (c.lanes id).metrics)

change-outside :
    (i j : ℕ) (f : PublicationRateMetrics → PublicationRateMetrics) (c : Core)
    → ltb j max_cameras ≡ false
    → (change_metrics i f c).lanes j ≡ c.lanes j
unfolding change_metrics
change-outside i j f c high = ground (arith, high)

reports-outside :
    (rs : List Report) (j : ℕ) (c : Core)
    → ltb j max_cameras ≡ false
    → (reports rs c).lanes j ≡ c.lanes j
unfolding reports
reports-outside [] j c high = refl
reports-outside (r ∷ rest) j c high =
    reports-outside rest j (report r c) high
    ∙ ap (λ d. d.lanes j) (report-change r c)
    ∙ change-outside (addressee r) j (apply (as_op r)) c high

snapshot-reports :
    (rs : List Report) (id t : ℕ) (c : Core)
    → c.config.rate_metrics_enabled ≡ true
    → core_snapshot id t (reports rs c) ≡ (
        if ltb id max_cameras
        then snapshot t (run (ops_of id rs) (c.lanes id).metrics)
        else empty_snapshot)
unfolding core_snapshot
snapshot-reports rs id t c on = elim (Bool-cases (ltb id max_cameras)) [
  | inl low ↦ rw (low, reports-lane rs id c on (ground (arith, low))) refl
  | inr high ↦ rw high refl
]

-- With the metrics enabled, the snapshot of a camera after any reports for any cameras is the snapshot
-- of its own metrics after the reports for that camera alone, in their order; with an id out of range
-- it is the empty one. Nothing is written at an index out of range, whatever ids the reports have.
pub core_snapshot-reports :
    (rs : List Report) (id t : ℕ) (c : Core)
    → c.config.rate_metrics_enabled ≡ true
    → (core_snapshot id t (reports rs c) ≡ (
        if ltb id max_cameras
        then snapshot t (run (ops_of id rs) (c.lanes id).metrics)
        else empty_snapshot))
      × ((j : ℕ) → ltb j max_cameras ≡ false → (reports rs c).lanes j ≡ c.lanes j)
core_snapshot-reports rs id t c on =
    (snapshot-reports rs id t c on, λ j high. reports-outside rs j c high)

-- With the metrics disabled, no report changes anything.
pub reports-disabled :
    (rs : List Report) (c : Core) → c.config.rate_metrics_enabled ≡ false → reports rs c ≡ c
unfolding reports
reports-disabled [] c off = refl
reports-disabled (r ∷ rest) c off =
    let same = report-change r c ∙ change-disabled (addressee r) (apply (as_op r)) c off in
    ap (reports rest) same ∙ reports-disabled rest c off
