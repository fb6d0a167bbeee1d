-- ===== src/Imu/Run/Late.antt =====
-- A run of the IMU's core in which `icm42688_stop` fails while the callback is past its test of the
-- admission, and in which the callback stores its sample after that.
use robo_baton_4p_ros2_demo.Prelude.{ℕ, zero, suc, ◌≤◌, ◌≡◌, negsuc, arith, ◌+◌, refl, false}
use robo_baton_4p_ros2_demo.Imu.Core.{new_core, record_failure, store}
use robo_baton_4p_ros2_demo.Imu.Ring.{
  outside, filled, enter, check_room, fill, store_write, publish_next, publish_sample, count_sample,
  count_arrival, fail_closed,
}
use robo_baton_4p_ros2_demo.Imu.Lifecycle.{
  start_begin, start_with_handle, stop_begin, driver_stopped, stop_finish,
}
use robo_baton_4p_ros2_demo.Imu.System.{
  joining, System, initial, after_stop, calls_stop, stops, fills, stores, publishes, Reach, later,
  publisher_step, step_from,
}
use robo_baton_4p_ros2_demo.Imu.System.Failure.{After, at_once, then_}
use robo_baton_4p_ros2_demo.Imu.System.Ending.{own_step, own_steps}
use robo_baton_4p_ros2_demo.Imu.Run.{second_checked, second_checked-Reach, pending}

-- A stop that fails while the callback is past its test of the admission.
abbrev stopping_early : System
stopping_early = after_stop second_checked (stop_begin second_checked.core)

stopping_early-Reach : Reach stopping_early
unfolding start_begin start_with_handle initial new_core enter count_arrival fail_closed check_room
    fill store_write publisher_step step_from publish_next publish_sample count_sample stop_begin
    driver_stopped stop_finish record_failure
stopping_early-Reach = later second_checked-Reach (calls_stop refl)

abbrev pub stop_refused : System
stop_refused = record stopping_early {
  core = driver_stopped (negsuc 0) stopping_early.core;
  owner = joining (negsuc 0);
}

pub stop_refused-Reach : Reach stop_refused
unfolding start_begin start_with_handle initial new_core enter count_arrival fail_closed check_room
    fill store_write publisher_step step_from publish_next publish_sample count_sample stop_begin
    driver_stopped stop_finish record_failure
stop_refused-Reach = later stopping_early-Reach (stops (negsuc 0) refl (λ e. cc))

-- The callback still stores its sample.
abbrev filled_late : System
filled_late = record stop_refused {
  core = fill 1 pending stop_refused.core;
  producer = filled 1 pending;
}

abbrev pub stored_late : System
stored_late = record filled_late {
  core = store_write 1 filled_late.core;
  producer = outside;
  admitted = filled_late.admitted + 1;
  arrivals = store filled_late.arrivals filled_late.admitted pending;
}

stored_late_path : After stop_refused stored_late
unfolding start_begin start_with_handle initial new_core enter count_arrival fail_closed check_room
    fill store_write publisher_step step_from publish_next publish_sample count_sample stop_begin
    driver_stopped stop_finish record_failure
stored_late_path = then_ (then_ at_once (fills 1 pending refl)) (stores 1 pending refl)

-- The publishing thread alone takes `n` steps.
unfoldable pub run_alone : ℕ → System → System
run_alone zero s = s
run_alone (suc n) s = publisher_step false (run_alone n s)

alone_path : (n : ℕ) {s t : System} → After s t → After s (run_alone n t)
unfolding run_alone
alone_path zero path = path
alone_path (suc n) path = then_ (alone_path n path) (publishes false)

alone_steps :
    (n : ℕ) {s t : System} (path : After s t) → own_steps (alone_path n path) ≡ own_steps path + n
unfolding alone_path own_steps own_step
alone_steps zero path = omega arith
alone_steps (suc n) path = omega (arith, alone_steps n path)

pub late_path : After stop_refused (run_alone 45 stored_late)
late_path = alone_path 45 stored_late_path

pub late_steps : 45 ≤ own_steps late_path
unfolding late_path
late_steps = omega (arith, alone_steps 45 stored_late_path)
