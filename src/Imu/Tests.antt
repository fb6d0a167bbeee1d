-- ===== src/Imu/Tests.antt =====
-- The IMU's theorems at states of the runs.
use robo_baton_4p_ros2_demo.Prelude.{ℕ, ◌+◌, ◌≤◌, ◌<◌, ◌≡◌, ◌⊎◌, refl, true, false}
use robo_baton_4p_ros2_demo.Imu.Core.{new_core, record_failure}
use robo_baton_4p_ros2_demo.Imu.Ring.{
  enter, check_room, fill, store_write, publish_next, publish_sample, count_sample, count_arrival,
  fail_closed,
}
use robo_baton_4p_ros2_demo.Imu.Lifecycle.{
  start_begin, start_with_handle, stop_begin, driver_stopped, stop_finish,
}
use robo_baton_4p_ros2_demo.Imu.System.{initial, publisher_step, step_from}
use robo_baton_4p_ros2_demo.Imu.System.Flags.{is_over}
use robo_baton_4p_ros2_demo.Imu.System.Delivery.{deliveries_in_order}
use robo_baton_4p_ros2_demo.Imu.System.Driver.{driver_protocol, fresh, running, gone, phase}
use robo_baton_4p_ros2_demo.Imu.System.Failure.{failure_closes}
use robo_baton_4p_ros2_demo.Imu.System.Ending.{publisher_terminates}
use robo_baton_4p_ros2_demo.Imu.Run.{
  handed_on, handed_on-Reach, done, done-Reach, broken, broken-Reach, reported, broken_path,
}
use robo_baton_4p_ros2_demo.Imu.Run.Late.{
  stop_refused, stop_refused-Reach, stored_late, run_alone, late_path, late_steps,
}

deliveries_in_order_example :
    ((k : ℕ) → k < handed_on.delivered → handed_on.deliveries k ≡ handed_on.arrivals k)
    × (handed_on.delivered ≤ handed_on.admitted)
    × (handed_on.admitted ≤ handed_on.delivered + 1025)
deliveries_in_order_example = deliveries_in_order handed_on handed_on-Reach

driver_protocol_example :
    (done.core.has_handle ≡ true → phase done.core.calls ≡ running)
    × (done.core.has_handle ≡ false
        → (phase done.core.calls ≡ fresh) ⊎ (phase done.core.calls ≡ gone))
unfolding start_begin start_with_handle initial new_core enter count_arrival fail_closed check_room
    fill store_write publisher_step step_from publish_next publish_sample count_sample stop_begin
    driver_stopped stop_finish record_failure
driver_protocol_example = driver_protocol done done-Reach refl

failure_closes_example :
    (reported.core.failed ≡ true)
    × (reported.core.admission ≡ false)
    × (reported.admitted ≤ broken.admitted + 1)
    × (reported.delivered ≤ broken.delivered + 1)
unfolding start_begin start_with_handle initial new_core enter count_arrival fail_closed check_room
    fill store_write publisher_step step_from publish_next publish_sample count_sample stop_begin
    driver_stopped stop_finish record_failure
failure_closes_example = failure_closes broken reported broken-Reach refl broken_path

publisher_terminates_example : is_over (run_alone 45 stored_late).publisher ≡ true
unfolding start_begin start_with_handle initial new_core enter count_arrival fail_closed check_room
    fill store_write publisher_step step_from publish_next publish_sample count_sample stop_begin
    driver_stopped stop_finish record_failure
publisher_terminates_example =
    publisher_terminates stop_refused (run_alone 45 stored_late) stop_refused-Reach refl refl
      late_path late_steps
