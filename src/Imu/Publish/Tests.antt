-- ===== src/Imu/Publish/Tests.antt =====
-- The theorems on the publication of a sample, at one sample and two rate reports.
use robo_baton_4p_ros2_demo.Prelude.{ℕ, true, none, some, List, [], ◌∷◌, pos, arith}
use robo_baton_4p_ros2_demo.Timestamp.{SensorTimestampMapperSnapshot}
use robo_baton_4p_ros2_demo.Metrics.{PublicationRateSnapshot, new_metrics, snapshot}
use robo_baton_4p_ros2_demo.Imu.Core.{Core, new_core, Sample}
use robo_baton_4p_ros2_demo.Imu.Publish.{Config, PublishReplies, publish_sample, core_snapshot}
use robo_baton_4p_ros2_demo.Imu.Publish.Counted.{IsFaithful, publish_sample-IsFaithful}
use robo_baton_4p_ros2_demo.Imu.Publish.Windows.{
  timer_run, IsRising, AddsUp, IsTiled, timer_run-AddsUp,
}

abbrev mapper : SensorTimestampMapperSnapshot
mapper = record {
  realtime_start_ns = 1000;
  monotonic_raw_start_ns = 900;
  realtime_minus_monotonic_raw_ns = pos 100;
}

abbrev config : Config
config = record {
  timestamp_mapper = some mapper;
  sample_rate_hz = 1000;
  fifo_watermark_samples = 1;
  frame_id = "robobaton_imu_link";
  publish_temperature = true;
  rate_metrics_enabled = true;
  rate_log_period_ms = 1000;
  rate_run_id = "run";
}

abbrev sample : Sample
sample = record {
  struct_size = 120;
  sample_timestamp_ns = 5000;
  temperature_c = 7;
  accel_mps2 = record { x = 1; y = 2; z = 3 };
  gyro_rps = record { x = 4; y = 5; z = 6 };
}

abbrev core : Core
core = record new_core { metrics_enabled = true }

-- The core after three samples.
abbrev later_core : Core
later_core = record core { source_count = 3; source_first_ns = 40 }

abbrev replies : PublishReplies
replies = record {
  imu_error = none;
  temperature_error = none;
  publish_start_ns = 10;
  publish_end_ns = 15;
  attempts = [];
}

publish_sample-IsFaithful_example :
    IsFaithful config mapper sample (publish_sample config mapper replies sample core).sent
publish_sample-IsFaithful_example =
    publish_sample-IsFaithful config mapper replies sample core (ground arith) (omega arith)

abbrev first : PublicationRateSnapshot
first = core_snapshot 30 core

abbrev ticks : List (ℕ × Core)
ticks = (60, later_core) ∷ (90, later_core) ∷ []

timer_run-AddsUp_example :
    let (reports, last) = timer_run ticks first in
    AddsUp first last reports × IsTiled first.interval_end_monotonic_ns reports
unfolding core_snapshot snapshot new_core new_metrics IsRising
timer_run-AddsUp_example = timer_run-AddsUp ticks first (omega arith) (ground arith)
