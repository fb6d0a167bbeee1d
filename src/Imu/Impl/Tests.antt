-- ===== src/Imu/Impl/Tests.antt =====
-- The publisher of the IMU, started and stopped.
use robo_baton_4p_ros2_demo.Prelude.{◌≡◌, refl, inl, inr, false, none, pos, true}
use robo_baton_4p_ros2_demo.Metrics.{PublicationRateSnapshot}
use robo_baton_4p_ros2_demo.Imu.Core.{new_core}
use robo_baton_4p_ros2_demo.Imu.Ring.{publish_next}
use robo_baton_4p_ros2_demo.Imu.Lifecycle.{
  StartReplies, start_begin, start_with_handle, driver_stopped, stop_begin,
}
use robo_baton_4p_ros2_demo.Imu.System.{
  System, initial, joining, Step, stops, publishes, publisher_step, step_from,
}
use robo_baton_4p_ros2_demo.Imu.Publish.{Config, core_config}
use robo_baton_4p_ros2_demo.Imu.Impl.{
  Publisher, at_rest, begin_start, return_start, begin_stop, end_stop, Comes, made, moved,
  calls_start, returns_start, calls_stop, within, is_boundary,
}
use robo_baton_4p_ros2_demo.Imu.Impl.Stopped.{Stops, after_join, GivesBack, stop-GivesBack}

abbrev config : Config
config = record {
  timestamp_mapper = none;
  sample_rate_hz = 1000;
  fifo_watermark_samples = 1;
  frame_id = "robobaton_imu_link";
  publish_temperature = true;
  rate_metrics_enabled = false;
  rate_log_period_ms = 0;
  rate_run_id = "";
}

abbrev replies : StartReplies
replies = record {
  create_status = pos 0;
  candidate_is_null = false;
  set_callback_status = pos 0;
  thread_throws = false;
}

abbrev no_snapshot : PublicationRateSnapshot
no_snapshot = record {
  source_count = 0;
  publish_count = 0;
  auxiliary_publish_count = 0;
  drop_count = 0;
  publish_failure_count = 0;
  sequence_gap_count = 0;
  sequence_duplicate_count = 0;
  sequence_regression_count = 0;
  timestamp_duplicate_count = 0;
  timestamp_regression_count = 0;
  publish_latency_count = 0;
  publish_latency_sum_ns = 0;
  publish_latency_max_ns = 0;
  interval_start_monotonic_ns = 0;
  interval_end_monotonic_ns = 0;
}

abbrev new_publisher : Publisher
new_publisher = record {
  system = initial;
  is_started = false;
  has_timer = false;
  previous_snapshot = no_snapshot;
  failure_recorded = false;
  phase = at_rest;
}

abbrev begun : Publisher
begun = (begin_start config replies new_publisher).0

abbrev running : Publisher
running = return_start config 5000 begun

abbrev asked : Publisher
asked = (begin_stop running).0

-- The driver has stopped.
abbrev halted : System
halted = record asked.system {
  core = driver_stopped (pos 0) asked.system.core;
  owner = joining (pos 0);
  driver = false;
}

-- The publishing thread looks at the ring, at the stop, and at the ring again.
abbrev past_stop : System
past_stop = publisher_step false (publisher_step false (publisher_step false halted))

abbrev at_end : Publisher
at_end = record asked { system = publisher_step false past_stop }

rests : running.phase ≡ at_rest
unfolding begin_start start_begin start_with_handle core_config initial new_core return_start
    begin_stop stop_begin driver_stopped publisher_step step_from publish_next
rests = refl

driver_stops : Step asked.system halted
unfolding begin_start start_begin start_with_handle core_config initial new_core return_start
    begin_stop stop_begin driver_stopped publisher_step step_from publish_next
driver_stops = stops (pos 0) refl (λ succeeded. refl)

driver_stops_within : is_boundary driver_stops ≡ false
unfolding driver_stops
driver_stops_within = refl

starts_and_returns : Comes config running
unfolding begin_start start_begin start_with_handle core_config initial new_core return_start
    begin_stop stop_begin driver_stopped publisher_step step_from publish_next
starts_and_returns =
    moved (moved (made no_snapshot) (calls_start replies refl)) (returns_start 5000 refl refl)

came : Comes config at_end
unfolding begin_start start_begin start_with_handle core_config initial new_core return_start
    begin_stop stop_begin driver_stopped publisher_step step_from publish_next
came =
    let stopped =
      moved (moved starts_and_returns (calls_stop rests))
        (within halted driver_stops driver_stops_within) in
    let looked = moved stopped (within (publisher_step false halted) (publishes false) refl) in
    let empty =
      moved looked
        (within (publisher_step false (publisher_step false halted)) (publishes false) refl) in
    moved (moved empty (within past_stop (publishes false) refl))
      (within (publisher_step false past_stop) (publishes false) refl)

ends : Stops at_end (end_stop (pos 0) at_end)
unfolding begin_start start_begin start_with_handle core_config initial new_core return_start
    begin_stop stop_begin driver_stopped publisher_step step_from publish_next
ends = after_join (pos 0) refl refl (inr (inl refl)) refl

stop-GivesBack_example : GivesBack (end_stop (pos 0) at_end)
stop-GivesBack_example = stop-GivesBack config came ends
