-- ===== src/Node/Stamps.antt =====
-- The stamps of the two sensors that one node publishes, src/camera_publisher.cpp and
-- src/imu_publisher.cpp with the configurations of src/robobaton_sensors_node.cpp.
use text.Mathlib.TextEquality.{eq_iff}
use robo_baton_4p_ros2_demo.Prelude.{
  ◌⊎◌, inl, inr, ℕ, ◌+◌, ◌^◌, ◌<◌, ◌≡◌, ◌↔◌, sym, ap, ◌∙◌, subst, false, some, ◌∷◌, List, ok, ℤ,
  arith,
}
use robo_baton_4p_ros2_demo.Timestamp.{SensorTimestampMapperSnapshot, RosStampParts}
use robo_baton_4p_ros2_demo.Timestamp.Offset.{IsInt64, IsDifference}
use robo_baton_4p_ros2_demo.Options.{Options, validate_camera_options}
use robo_baton_4p_ros2_demo.Options.Valid.{validate_iff}
use robo_baton_4p_ros2_demo.Timestamp.Stamp.{stamp_ns}
use robo_baton_4p_ros2_demo.Camera.Frame.{RetainedFrameJob}
use robo_baton_4p_ros2_demo.Camera.Publish.{
  Config as CameraConfig, Image, construct as construct_camera, image_of_frame,
  sc132_timestamps_are_monotonic_raw,
}
use robo_baton_4p_ros2_demo.Camera.Publish.Planes.{header_stamp, made_of}
use robo_baton_4p_ros2_demo.Imu.Core.{Core, Sample}
use robo_baton_4p_ros2_demo.Imu.Publish.{
  Config as ImuConfig, construct as construct_imu, PublishReplies, ImuMessage, Sent, imu,
  publish_sample,
}
use robo_baton_4p_ros2_demo.Imu.Publish.Counted.{IsStamped, IsFaithful, publish_sample-IsFaithful}
use robo_baton_4p_ros2_demo.Node.{Parameters, Settings, load_camera_config, load_imu_config}
use robo_baton_4p_ros2_demo.Node.Loaded.{ParameterLaws, load_camera_config-IsLoaded}
use robo_baton_4p_ros2_demo.Node.LoadedImu.{load_imu_config-IsLoadedImu}

camera_mapper :
    (config : CameraConfig) (shared mapper : SensorTimestampMapperSnapshot)
    → config.timestamp_mapper ≡ some shared
    → construct_camera false config ≡ ok mapper
    → shared ≡ mapper
unfolding construct_camera
camera_mapper config shared mapper e h = ground (arith, e, h)

imu_mapper :
    (config : ImuConfig) (shared mapper : SensorTimestampMapperSnapshot)
    → config.timestamp_mapper ≡ some shared
    → construct_imu false config ≡ ok mapper
    → shared ≡ mapper
unfolding construct_imu
imu_mapper config shared mapper e h = ground (arith, e, h)

-- The image of a frame that was triggered by the GPIO has the mapped time of the frame.
image_time :
    (config : CameraConfig) (mapper : SensorTimestampMapperSnapshot) (memory : ℕ → ℕ)
    (job : RetainedFrameJob) (image : Image)
    → IsInt64 mapper.realtime_minus_monotonic_raw_ns
    → job.info.timestamp_ns < 2 ^ 64
    → config.options.trigger_mode ≡ "software_gpio"
    → image_of_frame config mapper memory job ≡ ok image
    → IsDifference
        (stamp_ns image.header.stamp)
        job.info.timestamp_ns
        mapper.realtime_minus_monotonic_raw_ns
      × (image.header.stamp.nanosec < 1000000000)
image_time config mapper memory job image fits small mode h =
    let (stamp, stamped, made) = made_of config mapper memory job image h in
    let known = header_stamp config mapper job.info stamp fits small stamped in
    let is : stamp ≡ image.header.stamp = ap (λ x. x.header.stamp) (sym made) in
    let raw = (eq_iff config.options.trigger_mode "software_gpio").1 mode in
    let (time, normal, short) = rw raw at known in
    subst
      (λ x.
        IsDifference (stamp_ns x) job.info.timestamp_ns mapper.realtime_minus_monotonic_raw_ns
        × (x.nanosec < 1000000000))
      is (time, normal)

not_raw : (o : Options) → o.trigger_mode ≡ "none" → sc132_timestamps_are_monotonic_raw o ≡ false
not_raw o e = rw (sc132_timestamps_are_monotonic_raw, e)

-- The image of a frame that is not triggered has the time of the frame.
plain_time :
    (config : CameraConfig) (mapper : SensorTimestampMapperSnapshot) (memory : ℕ → ℕ)
    (job : RetainedFrameJob) (image : Image)
    → IsInt64 mapper.realtime_minus_monotonic_raw_ns
    → job.info.timestamp_ns < 2 ^ 64
    → config.options.trigger_mode ≡ "none"
    → image_of_frame config mapper memory job ≡ ok image
    → stamp_ns image.header.stamp ≡ job.info.timestamp_ns
plain_time config mapper memory job image fits small mode h =
    let (stamp, stamped, made) = made_of config mapper memory job image h in
    let known = header_stamp config mapper job.info stamp fits small stamped in
    let is : stamp ≡ image.header.stamp = ap (λ x. x.header.stamp) (sym made) in
    let (time, normal, short) = rw (not_raw config.options mode) at known in
    ap stamp_ns (sym is) ∙ time

imu_time :
    (config : ImuConfig) (mapper : SensorTimestampMapperSnapshot) (r : PublishReplies)
    (sample : Sample) (c : Core) (message : ImuMessage) (rest : List Sent)
    → IsInt64 mapper.realtime_minus_monotonic_raw_ns
    → sample.sample_timestamp_ns < 2 ^ 64
    → (publish_sample config mapper r sample c).sent ≡ imu message ∷ rest
    → IsStamped config mapper sample message.header
unfolding IsFaithful
imu_time config mapper r sample c message rest fits small h =
    (subst (IsFaithful config mapper sample) h
      (publish_sample-IsFaithful config mapper r sample c fits small)).0

same_stamp :
    (a b : RosStampParts)
    → a.nanosec < 1000000000
    → b.nanosec < 1000000000
    → stamp_ns a ≡ stamp_ns b
    → a ≡ b
same_stamp a b small small' e = ground (arith, small, small', e)

-- The stamps of a frame and of a sample that are mapped by one offset.
common_offset :
    (a b : RosStampParts) (t u : ℕ) (offset : ℤ)
    → IsDifference (stamp_ns a) t offset × (a.nanosec < 1000000000)
    → IsDifference (stamp_ns b) u offset × (b.nanosec < 1000000000)
    → (stamp_ns a + u ≡ stamp_ns b + t) × ((a ≡ b) ↔ (t ≡ u))
common_offset a b t u offset (first, small) (second, small') = (
  omega (arith, first, second),
  (
    λ e. omega (arith, first, second, ap stamp_ns e),
    λ e. same_stamp a b small small' (omega (arith, first, second, e)),
  ),
)

-- Let a node load both configurations, with values of `declare_parameter` that fit int64_t, let both
-- publishers be constructed from them, and let the options of the cameras be accepted. Then either the
-- trigger mode is software_gpio, and the stamps of an image and of an IMU message that the two publish
-- lie as far apart as the raw time stamps of the frame and of the sample, and are equal exactly when
-- these are; or the trigger mode is none, and the stamp of the image stands for the time stamp of the
-- frame as it is. The offset of the node's mapper fits int64_t, and the time stamps 64 bits.
pub sensors_share_clock :
    (p : Parameters) (settings : Settings) (camera_config : CameraConfig) (imu_config : ImuConfig)
    (camera_mapper imu_mapper : SensorTimestampMapperSnapshot) (memory : ℕ → ℕ)
    (job : RetainedFrameJob) (image : Image) (r : PublishReplies) (sample : Sample) (c : Core)
    (message : ImuMessage) (rest : List Sent)
    → ParameterLaws p
    → IsInt64 settings.timestamp_mapper.realtime_minus_monotonic_raw_ns
    → load_camera_config p settings ≡ ok camera_config
    → load_imu_config p settings ≡ ok imu_config
    → construct_camera false camera_config ≡ ok camera_mapper
    → construct_imu false imu_config ≡ ok imu_mapper
    → validate_camera_options camera_config.options ≡ ok tt
    → job.info.timestamp_ns < 2 ^ 64
    → sample.sample_timestamp_ns < 2 ^ 64
    → image_of_frame camera_config camera_mapper memory job ≡ ok image
    → (publish_sample imu_config imu_mapper r sample c).sent ≡ imu message ∷ rest
    → ((camera_config.options.trigger_mode ≡ "software_gpio")
        × (stamp_ns image.header.stamp + sample.sample_timestamp_ns
            ≡ stamp_ns message.header.stamp + job.info.timestamp_ns)
        × ((image.header.stamp ≡ message.header.stamp)
            ↔ (job.info.timestamp_ns ≡ sample.sample_timestamp_ns)))
      ⊎ ((camera_config.options.trigger_mode ≡ "none")
          × (stamp_ns image.header.stamp ≡ job.info.timestamp_ns))
sensors_share_clock p settings camera_config imu_config cm im memory job image r sample c message
      rest laws fits camera_loads imu_loads camera_made imu_made accepted small small' published
      sent =
    let shared = settings.timestamp_mapper in
    let of_camera =
      camera_mapper camera_config shared cm
        (load_camera_config-IsLoaded p settings camera_config laws camera_loads).mapper
        camera_made in
    let of_imu =
      imu_mapper imu_config shared im
        (load_imu_config-IsLoadedImu p settings imu_config imu_loads).mapper imu_made in
    let stamped =
      imu_time imu_config shared r sample c message rest fits small'
        (ap (λ x. (publish_sample imu_config x r sample c).sent) of_imu ∙ sent) in
    let framed = ap (λ x. image_of_frame camera_config x memory job) of_camera ∙ published in
    elim ((validate_iff camera_config.options).0 accepted).trigger [
      | inl mode ↦
          let together =
            common_offset image.header.stamp message.header.stamp job.info.timestamp_ns
              sample.sample_timestamp_ns shared.realtime_minus_monotonic_raw_ns
              (image_time camera_config shared memory job image fits small mode framed)
              (stamped.time, stamped.normal) in
          inl (mode, together.0, together.1)
      | inr mode ↦
          inr (mode, plain_time camera_config shared memory job image fits small mode framed)
    ]
