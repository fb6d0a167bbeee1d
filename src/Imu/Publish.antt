-- ===== src/Imu/Publish.antt =====
-- The ROS layer of src/imu_publisher.cpp: the configuration of the publisher with its check, the
-- reports of the core, PublishSample and LogRateMetrics, with
-- include/robobaton_4p_ros2_demo/imu_publisher.hpp.
--
-- What `publish` does is an argument: it returns, or it throws an exception. The messages that were
-- handed over are listed in their order.
pub mod Counted
pub mod Windows
mod Tests
use robo_baton_4p_ros2_demo.Prelude.{
  ℕ, ◌+◌, ◌-◌, ◌%◌, ◌^◌, Bool, true, false, ◌&&◌, ◌||◌, Option, none, some, List, [], ◌∷◌, ◌==◌,
  if◌then◌else◌, Exception, Result, ok, throw, invalid_argument, throw_if, ◌>>=◌, ◌>>◌, String,
}
use robo_baton_4p_ros2_demo.Timestamp.{
  SensorTimestampMapperSnapshot, RosStampParts, map_monotonic_raw_to_realtime_ns,
  to_ros_stamp_parts,
}
use robo_baton_4p_ros2_demo.Metrics.{
  PublicationRateMetrics, PublicationRateSnapshot, Attempt, record_publish_success,
  record_publish_failure, record_auxiliary_publish_success, snapshot,
}
use robo_baton_4p_ros2_demo.Ros.{Header, rate_window}
use robo_baton_4p_ros2_demo.Imu.Core.{Core, ImuCoreConfig, Sample, Vector3}

-- `ImuPublisher::Config`; the mapper is the snapshot that it holds.
pub record Config : Type 0 where
  pub timestamp_mapper : Option SensorTimestampMapperSnapshot
  pub sample_rate_hz : ℕ
  pub fifo_watermark_samples : ℕ
  pub frame_id : String
  pub publish_temperature : Bool
  pub rate_metrics_enabled : Bool
  pub rate_log_period_ms : ℕ
  pub rate_run_id : String

abbrev pub require_timestamp_mapper :
    Option SensorTimestampMapperSnapshot → Result SensorTimestampMapperSnapshot
require_timestamp_mapper none = throw (invalid_argument "IMU publisher requires a timestamp mapper")
require_timestamp_mapper (some mapper) = ok mapper

abbrev pub is_bad_config : Bool → Config → Bool
is_bad_config node_is_null config =
    node_is_null || (config.rate_metrics_enabled && config.rate_log_period_ms == 0)

-- The constructor up to its creation of the publishers.
unfoldable pub construct : Bool → Config → Result SensorTimestampMapperSnapshot
construct node_is_null config = do
  mapper ← require_timestamp_mapper config.timestamp_mapper
  throw_if (is_bad_config node_is_null config)
      (invalid_argument "invalid IMU publisher configuration")
  ok mapper

-- `ICM42688_READ_MODE_SENSOR_TIMESTAMP_FIFO`
abbrev pub read_mode_sensor_timestamp_fifo : ℕ
read_mode_sensor_timestamp_fifo = 0

-- The configuration that Start hands to the core.
unfoldable pub core_config : Config → ImuCoreConfig
core_config config = record {
  sample_rate_hz = config.sample_rate_hz;
  fifo_watermark_samples = config.fifo_watermark_samples;
  read_mode = read_mode_sensor_timestamp_fifo;
  rate_metrics_enabled = config.rate_metrics_enabled;
}

-- The reports of the core change its metrics, if they are enabled.
unfoldable pub change_metrics : (PublicationRateMetrics → PublicationRateMetrics) → Core → Core
change_metrics f c = if c.metrics_enabled then record c { metrics = f c.metrics } else c

unfoldable pub core_record_publish_success : ℕ → List Attempt → Core → Core
core_record_publish_success latency_ns attempts =
    change_metrics (record_publish_success latency_ns attempts)

unfoldable pub core_record_publish_failure : Core → Core
core_record_publish_failure = change_metrics record_publish_failure

unfoldable pub core_record_auxiliary_publish_success : Core → Core
core_record_auxiliary_publish_success = change_metrics record_auxiliary_publish_success

-- The input counts are those of the callback, not those of the publication.
unfoldable pub core_snapshot : ℕ → Core → PublicationRateSnapshot
core_snapshot monotonic_ns c =
    let value = snapshot monotonic_ns c.metrics in
    if c.metrics_enabled
    then record value {
      source_count = c.source_count;
      interval_start_monotonic_ns = c.source_first_ns;
    }
    else value

-- LogRateMetrics: the report, and the snapshot for the next one.
unfoldable pub log_rate_metrics :
    ℕ → Core → PublicationRateSnapshot → PublicationRateSnapshot × PublicationRateSnapshot
unfolding core_snapshot
log_rate_metrics now_ns c previous =
    let current = core_snapshot now_ns c in (rate_window previous current, current)

-- The bits of the double -1.0.
abbrev pub minus_one : ℕ
minus_one = 0xbff0000000000000

-- `sensor_msgs::msg::Imu` and `sensor_msgs::msg::Temperature`, with the fields that are set.
pub record ImuMessage : Type 0 where
  pub header : Header
  pub orientation_covariance_first : ℕ
  pub angular_velocity : Vector3
  pub linear_acceleration : Vector3

pub record Temperature : Type 0 where
  pub header : Header
  pub temperature : ℕ

abbrev pub message_of : Config → Sample → RosStampParts → ImuMessage
message_of config sample stamp = record {
  header = record { stamp = stamp; frame_id = config.frame_id };
  orientation_covariance_first = minus_one;
  angular_velocity = sample.gyro_rps;
  linear_acceleration = sample.accel_mps2;
}

abbrev pub temperature_of : ImuMessage → Sample → Temperature
temperature_of message sample = record {
  header = message.header;
  temperature = sample.temperature_c;
}

pub data Sent : Type 0 where
  imu : ImuMessage → Sent
  temperature : Temperature → Sent

-- What the two calls of `publish` throw, if they do; the two readings of the clock; and how other
-- threads disturb the maximum of the latency.
pub record PublishReplies : Type 0 where
  pub imu_error : Option Exception
  pub temperature_error : Option Exception
  pub publish_start_ns : ℕ
  pub publish_end_ns : ℕ
  pub attempts : List Attempt

-- What PublishSample leaves: the core, the messages that `publish` took, and what it throws.
pub record Published : Type 0 where
  pub core : Core
  pub sent : List Sent
  pub thrown : Option Exception

-- The temperature, after the sample.
unfoldable pub publish_temperature_of :
    Config → Option Exception → ImuMessage → Sample → Core → Published
publish_temperature_of config (some e) message sample c = record {
  core = core_record_publish_failure c;
  sent = imu message ∷ [];
  thrown = some e;
}
publish_temperature_of config none message sample c = record {
  core = if config.rate_metrics_enabled then core_record_auxiliary_publish_success c else c;
  sent = imu message ∷ temperature (temperature_of message sample) ∷ [];
  thrown = none;
}

-- The body of the `try`, with its handler.
unfoldable pub publish_imu :
    Config → PublishReplies → Option Exception → ImuMessage → Sample → Core → Published
unfolding publish_temperature_of
publish_imu config r (some e) message sample c = record {
  core = core_record_publish_failure c;
  sent = [];
  thrown = some e;
}
publish_imu config r none message sample c =
    let latency = (r.publish_end_ns + 2 ^ 64 - r.publish_start_ns) % 2 ^ 64 in
    let counted =
      if config.rate_metrics_enabled then core_record_publish_success latency r.attempts c else c in
    if config.publish_temperature
    then publish_temperature_of config r.temperature_error message sample counted
    else record { core = counted; sent = imu message ∷ []; thrown = none }

abbrev pub publish_stamped :
    Config → PublishReplies → Result RosStampParts → Sample → Core → Published
publish_stamped config r (throw e) sample c = record { core = c; sent = []; thrown = some e }
publish_stamped config r (ok stamp) sample c =
    publish_imu config r r.imu_error (message_of config sample stamp) sample c

unfoldable pub publish_sample :
    Config → SensorTimestampMapperSnapshot → PublishReplies → Sample → Core → Published
unfolding publish_imu
publish_sample config mapper r sample c =
    publish_stamped config r
      (map_monotonic_raw_to_realtime_ns mapper sample.sample_timestamp_ns >>= to_ros_stamp_parts)
      sample c
