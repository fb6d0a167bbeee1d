-- ===== src/Imu/Run.antt =====
-- Runs of the IMU's core: samples go from the callback to the sink and the core stops, and one in which a
-- failure is recorded.
pub mod Late
use robo_baton_4p_ros2_demo.Prelude.{◌+◌, inl, inr, refl, false, none, some, pos}
use robo_baton_4p_ros2_demo.Imu.Core.{
  ImuCoreConfig, Sample, PendingSample, new_core, record_failure, store,
}
use robo_baton_4p_ros2_demo.Imu.Ring.{
  outside, filled, enter, check_room, fill, store_write, publish_next, publish_sample, count_sample,
  count_arrival, fail_closed,
}
use robo_baton_4p_ros2_demo.Imu.Lifecycle.{
  StartReplies, start_begin, start_with_handle, stop_begin, driver_stopped, stop_finish,
}
use robo_baton_4p_ros2_demo.Imu.System.{
  idle, joining, System, initial, after_start, after_stop, join, calls_start, start_succeeds,
  calls_stop, stops, finishes, enters, checks, fills, stores, publishes, Reach, constructed, later,
  publisher_step, step_from,
}
use robo_baton_4p_ros2_demo.Imu.System.Failure.{After, at_once, then_}

abbrev config : ImuCoreConfig
config = record {
  sample_rate_hz = 1000;
  fifo_watermark_samples = 1;
  read_mode = 0;
  rate_metrics_enabled = false;
}

abbrev replies : StartReplies
replies = record {
  create_status = pos 0;
  candidate_is_null = false;
  set_callback_status = pos 0;
  thread_throws = false;
}

abbrev sample : Sample
sample = record {
  struct_size = 120;
  sample_timestamp_ns = 5000;
  temperature_c = 7;
  accel_mps2 = record { x = 1; y = 2; z = 3 };
  gyro_rps = record { x = 4; y = 5; z = 6 };
}

abbrev pub pending : PendingSample
pending = record { sample = sample; arrival_ns = 0 }

initial-Reach : Reach initial
initial-Reach = constructed

abbrev asked : System
asked = after_start initial (start_begin config replies initial.core)

asked-Reach : Reach asked
unfolding start_begin start_with_handle initial new_core enter count_arrival fail_closed check_room
    fill store_write publisher_step step_from publish_next publish_sample count_sample stop_begin
    driver_stopped stop_finish record_failure
asked-Reach = later initial-Reach (calls_start config replies refl)

abbrev started : System
started = record asked { owner = idle }

started-Reach : Reach started
unfolding start_begin start_with_handle initial new_core enter count_arrival fail_closed check_room
    fill store_write publisher_step step_from publish_next publish_sample count_sample stop_begin
    driver_stopped stop_finish record_failure
started-Reach = later asked-Reach (start_succeeds refl)

abbrev entered : System
entered = record started {
  core = (enter (some sample) 0 started.core).0;
  producer = (enter (some sample) 0 started.core).1;
}

entered-Reach : Reach entered
unfolding start_begin start_with_handle initial new_core enter count_arrival fail_closed check_room
    fill store_write publisher_step step_from publish_next publish_sample count_sample stop_begin
    driver_stopped stop_finish record_failure
entered-Reach = later started-Reach (enters (some sample) 0 refl refl)

abbrev checked : System
checked = record entered {
  core = (check_room pending entered.core).0;
  producer = (check_room pending entered.core).1;
}

checked-Reach : Reach checked
unfolding start_begin start_with_handle initial new_core enter count_arrival fail_closed check_room
    fill store_write publisher_step step_from publish_next publish_sample count_sample stop_begin
    driver_stopped stop_finish record_failure
checked-Reach = later entered-Reach (checks pending refl)

abbrev filled_in : System
filled_in = record checked { core = fill 0 pending checked.core; producer = filled 0 pending }

filled_in-Reach : Reach filled_in
unfolding start_begin start_with_handle initial new_core enter count_arrival fail_closed check_room
    fill store_write publisher_step step_from publish_next publish_sample count_sample stop_begin
    driver_stopped stop_finish record_failure
filled_in-Reach = later checked-Reach (fills 0 pending refl)

abbrev stored : System
stored = record filled_in {
  core = store_write 0 filled_in.core;
  producer = outside;
  admitted = filled_in.admitted + 1;
  arrivals = store filled_in.arrivals filled_in.admitted pending;
}

stored-Reach : Reach stored
unfolding start_begin start_with_handle initial new_core enter count_arrival fail_closed check_room
    fill store_write publisher_step step_from publish_next publish_sample count_sample stop_begin
    driver_stopped stop_finish record_failure
stored-Reach = later filled_in-Reach (stores 0 pending refl)

abbrev looking : System
looking = publisher_step false stored

looking-Reach : Reach looking
unfolding start_begin start_with_handle initial new_core enter count_arrival fail_closed check_room
    fill store_write publisher_step step_from publish_next publish_sample count_sample stop_begin
    driver_stopped stop_finish record_failure
looking-Reach = later stored-Reach (publishes false)

abbrev reading : System
reading = publisher_step false looking

reading-Reach : Reach reading
unfolding start_begin start_with_handle initial new_core enter count_arrival fail_closed check_room
    fill store_write publisher_step step_from publish_next publish_sample count_sample stop_begin
    driver_stopped stop_finish record_failure
reading-Reach = later looking-Reach (publishes false)

abbrev second_entered : System
second_entered = record reading {
  core = (enter (some sample) 0 reading.core).0;
  producer = (enter (some sample) 0 reading.core).1;
}

second_entered-Reach : Reach second_entered
unfolding start_begin start_with_handle initial new_core enter count_arrival fail_closed check_room
    fill store_write publisher_step step_from publish_next publish_sample count_sample stop_begin
    driver_stopped stop_finish record_failure
second_entered-Reach = later reading-Reach (enters (some sample) 0 refl refl)

abbrev pub second_checked : System
second_checked = record second_entered {
  core = (check_room pending second_entered.core).0;
  producer = (check_room pending second_entered.core).1;
}

pub second_checked-Reach : Reach second_checked
unfolding start_begin start_with_handle initial new_core enter count_arrival fail_closed check_room
    fill store_write publisher_step step_from publish_next publish_sample count_sample stop_begin
    driver_stopped stop_finish record_failure
second_checked-Reach = later second_entered-Reach (checks pending refl)

abbrev read_one : System
read_one = publisher_step false reading

read_one-Reach : Reach read_one
unfolding start_begin start_with_handle initial new_core enter count_arrival fail_closed check_room
    fill store_write publisher_step step_from publish_next publish_sample count_sample stop_begin
    driver_stopped stop_finish record_failure
read_one-Reach = later reading-Reach (publishes false)

abbrev handing : System
handing = publisher_step false read_one

handing-Reach : Reach handing
unfolding start_begin start_with_handle initial new_core enter count_arrival fail_closed check_room
    fill store_write publisher_step step_from publish_next publish_sample count_sample stop_begin
    driver_stopped stop_finish record_failure
handing-Reach = later read_one-Reach (publishes false)

abbrev pub handed_on : System
handed_on = publisher_step false handing

pub handed_on-Reach : Reach handed_on
unfolding start_begin start_with_handle initial new_core enter count_arrival fail_closed check_room
    fill store_write publisher_step step_from publish_next publish_sample count_sample stop_begin
    driver_stopped stop_finish record_failure
handed_on-Reach = later handing-Reach (publishes false)

abbrev stopping_now : System
stopping_now = after_stop handed_on (stop_begin handed_on.core)

stopping_now-Reach : Reach stopping_now
unfolding start_begin start_with_handle initial new_core enter count_arrival fail_closed check_room
    fill store_write publisher_step step_from publish_next publish_sample count_sample stop_begin
    driver_stopped stop_finish record_failure
stopping_now-Reach = later handed_on-Reach (calls_stop refl)

abbrev pub stopped_now : System
stopped_now = record stopping_now {
  core = driver_stopped (pos 0) stopping_now.core;
  owner = joining (pos 0);
  driver = false;
}

pub stopped_now-Reach : Reach stopped_now
unfolding start_begin start_with_handle initial new_core enter count_arrival fail_closed check_room
    fill store_write publisher_step step_from publish_next publish_sample count_sample stop_begin
    driver_stopped stop_finish record_failure
stopped_now-Reach = later stopping_now-Reach (stops (pos 0) refl (λ e. refl))

abbrev end1 : System
end1 = publisher_step false stopped_now

end1-Reach : Reach end1
unfolding start_begin start_with_handle initial new_core enter count_arrival fail_closed check_room
    fill store_write publisher_step step_from publish_next publish_sample count_sample stop_begin
    driver_stopped stop_finish record_failure
end1-Reach = later stopped_now-Reach (publishes false)

abbrev end2 : System
end2 = publisher_step false end1

end2-Reach : Reach end2
unfolding start_begin start_with_handle initial new_core enter count_arrival fail_closed check_room
    fill store_write publisher_step step_from publish_next publish_sample count_sample stop_begin
    driver_stopped stop_finish record_failure
end2-Reach = later end1-Reach (publishes false)

abbrev end3 : System
end3 = publisher_step false end2

end3-Reach : Reach end3
unfolding start_begin start_with_handle initial new_core enter count_arrival fail_closed check_room
    fill store_write publisher_step step_from publish_next publish_sample count_sample stop_begin
    driver_stopped stop_finish record_failure
end3-Reach = later end2-Reach (publishes false)

abbrev end4 : System
end4 = publisher_step false end3

end4-Reach : Reach end4
unfolding start_begin start_with_handle initial new_core enter count_arrival fail_closed check_room
    fill store_write publisher_step step_from publish_next publish_sample count_sample stop_begin
    driver_stopped stop_finish record_failure
end4-Reach = later end3-Reach (publishes false)

abbrev pub done : System
done = record end4 {
  core = (stop_finish (pos 0) end4.core).0;
  publisher = join end4.publisher;
  owner = idle;
  driver = false;
}

pub done-Reach : Reach done
unfolding start_begin start_with_handle initial new_core enter count_arrival fail_closed check_room
    fill store_write publisher_step step_from publish_next publish_sample count_sample stop_begin
    driver_stopped stop_finish record_failure
done-Reach = later end4-Reach (finishes (pos 0) refl (inr (inl refl)) refl)

abbrev pub broken : System
broken = record stored {
  core = (enter none 0 stored.core).0;
  producer = (enter none 0 stored.core).1;
}

pub broken-Reach : Reach broken
unfolding start_begin start_with_handle initial new_core enter count_arrival fail_closed check_room
    fill store_write publisher_step step_from publish_next publish_sample count_sample stop_begin
    driver_stopped stop_finish record_failure
broken-Reach = later stored-Reach (enters none 0 refl refl)

abbrev pub reported : System
reported = publisher_step false broken

pub broken_path : After broken reported
unfolding start_begin start_with_handle initial new_core enter count_arrival fail_closed check_room
    fill store_write publisher_step step_from publish_next publish_sample count_sample stop_begin
    driver_stopped stop_finish record_failure
broken_path = then_ at_once (publishes false)
