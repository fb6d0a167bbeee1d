-- ===== src/Imu/Publish/Counted.antt =====
-- PublishSample: the metrics of the core, and the stamps and the values of its messages.
use robo_baton_4p_ros2_demo.Prelude.{
  ℕ, ◌+◌, ◌^◌, ◌%◌, ◌<◌, ◌≡◌, refl, true, Option, some, none, List, [], ◌∷◌, arith, ok, Exception,
  throw, Result, ◌>>=◌,
}
use robo_baton_4p_ros2_demo.Timestamp.{
  SensorTimestampMapperSnapshot, RosStampParts, map_monotonic_raw_to_realtime_ns,
  to_ros_stamp_parts,
}
use robo_baton_4p_ros2_demo.Timestamp.Offset.{IsInt64, IsDifference}
use robo_baton_4p_ros2_demo.Timestamp.Stamp.{stamp_ns, mapped_stamp}
use robo_baton_4p_ros2_demo.Metrics.{
  PublicationRateMetrics, record_publish_success, record_publish_failure,
  record_auxiliary_publish_success,
}
use robo_baton_4p_ros2_demo.Ros.{Header}
use robo_baton_4p_ros2_demo.Imu.Core.{Core, Sample}
use robo_baton_4p_ros2_demo.Imu.Publish.{
  Config, ImuMessage, Sent, imu, temperature, Published, PublishReplies, publish_temperature_of,
  publish_imu, publish_stamped, publish_sample, change_metrics, core_record_publish_success,
  core_record_publish_failure, core_record_auxiliary_publish_success, message_of,
}

-- How many samples, and how many temperatures, were handed over.
unfoldable pub samples : List Sent → ℕ
samples [] = 0
samples (imu m ∷ rest) = 1 + samples rest
samples (temperature m ∷ rest) = samples rest

unfoldable pub temperatures : List Sent → ℕ
temperatures [] = 0
temperatures (imu m ∷ rest) = temperatures rest
temperatures (temperature m ∷ rest) = 1 + temperatures rest

abbrev pub has_thrown : Option Exception → ℕ
has_thrown none = 0
has_thrown (some e) = 1

-- The counters before and after a publication.
pub record IsCounted (before after : PublicationRateMetrics) (p : Published) : Type 0 where
  pub published : after.publish_count ≡ (before.publish_count + samples p.sent) % 2 ^ 64
  pub auxiliary :
      after.auxiliary_publish_count
      ≡ (before.auxiliary_publish_count + temperatures p.sent) % 2 ^ 64
  pub failures :
      after.publish_failure_count ≡ (before.publish_failure_count + has_thrown p.thrown) % 2 ^ 64
  pub at_most_one : (samples p.sent < 2) × (temperatures p.sent < 2)

-- Counters that fit 64 bits.
pub record IsSmall (m : PublicationRateMetrics) : Type 0 where
  pub published : m.publish_count < 2 ^ 64
  pub auxiliary : m.auxiliary_publish_count < 2 ^ 64
  pub failures : m.publish_failure_count < 2 ^ 64

-- A message of the sample, with a stamp that stands for its time.
pub record IsStamped (config : Config) (mapper : SensorTimestampMapperSnapshot) (sample : Sample)
    (header : Header) : Type 0 where
  pub time :
      IsDifference
        (stamp_ns header.stamp)
        sample.sample_timestamp_ns
        mapper.realtime_minus_monotonic_raw_ns
  pub normal : header.stamp.nanosec < 1000000000
  pub frame : header.frame_id ≡ config.frame_id

-- The messages that are handed over are those of the sample.
unfoldable pub IsFaithful : Config → SensorTimestampMapperSnapshot → Sample → List Sent → Type 0
IsFaithful config mapper sample [] = Unit {0}
IsFaithful config mapper sample (imu m ∷ rest) =
    IsStamped config mapper sample m.header
    × (m.angular_velocity ≡ sample.gyro_rps)
    × (m.linear_acceleration ≡ sample.accel_mps2)
    × IsFaithful config mapper sample rest
IsFaithful config mapper sample (temperature t ∷ rest) =
    IsStamped config mapper sample t.header
    × (t.temperature ≡ sample.temperature_c)
    × IsFaithful config mapper sample rest

publish_imu-IsCounted :
    (config : Config) (r : PublishReplies) (e : Option Exception) (message : ImuMessage)
    (sample : Sample) (c : Core)
    → config.rate_metrics_enabled ≡ true
    → c.metrics_enabled ≡ true
    → IsSmall c.metrics
    → let p = publish_imu config r e message sample c in IsCounted c.metrics p.core.metrics p
unfolding publish_imu publish_temperature_of core_record_publish_success core_record_publish_failure
    core_record_auxiliary_publish_success change_metrics record_publish_success
    record_publish_failure record_auxiliary_publish_success samples temperatures
publish_imu-IsCounted config r e message sample c on enabled small =
    ground (arith, on, enabled, small)

publish_imu-IsFaithful :
    (config : Config) (mapper : SensorTimestampMapperSnapshot) (r : PublishReplies)
    (e : Option Exception) (stamp : RosStampParts) (sample : Sample) (c : Core)
    → IsStamped config mapper sample (message_of config sample stamp).header
    → IsFaithful config mapper sample
        (publish_imu config r e (message_of config sample stamp) sample c).sent
unfolding publish_imu publish_temperature_of IsFaithful
publish_imu-IsFaithful config mapper r e stamp sample c stamped = ground (arith, stamped)

-- With the metrics enabled, a sample whose stamp can be formed counts, modulo 2 ^ 64 and from counters
-- that fit 64 bits: one publication for each sample message that was handed over, one auxiliary
-- publication for each temperature, at most one of each, and one failure if the publication throws.
pub publish_sample-counts :
    (config : Config) (mapper : SensorTimestampMapperSnapshot) (r : PublishReplies)
    (sample : Sample) (stamp : RosStampParts) (c : Core)
    → (map_monotonic_raw_to_realtime_ns mapper sample.sample_timestamp_ns >>= to_ros_stamp_parts)
      ≡ ok stamp
    → config.rate_metrics_enabled ≡ true
    → c.metrics_enabled ≡ true
    → IsSmall c.metrics
    → let p = publish_sample config mapper r sample c in IsCounted c.metrics p.core.metrics p
unfolding publish_sample
publish_sample-counts config mapper r sample stamp c made on enabled small = rw made (
    publish_imu-IsCounted config r r.imu_error (message_of config sample stamp) sample c on enabled
      small)

stamped-IsFaithful :
    (config : Config) (mapper : SensorTimestampMapperSnapshot) (r : PublishReplies)
    (sample : Sample) (c : Core) (stamp : Result RosStampParts)
    → IsInt64 mapper.realtime_minus_monotonic_raw_ns
    → sample.sample_timestamp_ns < 2 ^ 64
    → (map_monotonic_raw_to_realtime_ns mapper sample.sample_timestamp_ns >>= to_ros_stamp_parts)
      ≡ stamp
    → IsFaithful config mapper sample (publish_stamped config r stamp sample c).sent
unfolding IsFaithful
stamped-IsFaithful config mapper r sample c (throw e) fits small made = tt
stamped-IsFaithful config mapper r sample c (ok stamp) fits small made =
    let (time, normal, short) =
      mapped_stamp mapper sample.sample_timestamp_ns stamp fits small made in
    publish_imu-IsFaithful config mapper r r.imu_error stamp sample c
      (record { time = time; normal = normal; frame = refl })

-- Whatever `publish` answers, each message that is handed over for a sample holds the values of that
-- sample under the frame of the configuration, with a normal stamp that stands for its raw time stamp
-- plus the offset of the mapper, if the offset fits int64_t and the time stamp 64 bits.
pub publish_sample-IsFaithful :
    (config : Config) (mapper : SensorTimestampMapperSnapshot) (r : PublishReplies)
    (sample : Sample) (c : Core)
    → IsInt64 mapper.realtime_minus_monotonic_raw_ns
    → sample.sample_timestamp_ns < 2 ^ 64
    → IsFaithful config mapper sample (publish_sample config mapper r sample c).sent
unfolding publish_sample
publish_sample-IsFaithful config mapper r sample c fits small =
    stamped-IsFaithful config mapper r sample c
      (map_monotonic_raw_to_realtime_ns mapper sample.sample_timestamp_ns >>= to_ros_stamp_parts)
      fits small refl
