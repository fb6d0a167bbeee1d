-- ===== src/Ros.antt =====
-- What the two publishers, src/camera_publisher.cpp and src/imu_publisher.cpp, share: the headers of
-- their messages, and the windows of their rate reports.
use robo_baton_4p_ros2_demo.Prelude.{String, ◌==◌, if◌then◌else◌}
use robo_baton_4p_ros2_demo.Timestamp.{RosStampParts}
use robo_baton_4p_ros2_demo.Metrics.{PublicationRateSnapshot, delta}

-- `std_msgs::msg::Header`
pub record Header : Type 0 where
  pub stamp : RosStampParts
  pub frame_id : String

-- What LogRateMetrics reports of two snapshots: their difference, from the first sample on if there
-- was no snapshot before.
unfoldable pub rate_window :
    PublicationRateSnapshot → PublicationRateSnapshot → PublicationRateSnapshot
unfolding delta
rate_window previous current =
    let difference = delta previous current in
    record difference {
      interval_start_monotonic_ns =
          if difference.interval_start_monotonic_ns == 0
          then current.interval_start_monotonic_ns
          else difference.interval_start_monotonic_ns;
    }
