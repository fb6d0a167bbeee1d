-- ===== src/Node/Tests.antt =====
-- The theorems on the node, at the default parameters.
use robo_baton_4p_ros2_demo.Prelude.{
  ◌⊎◌, ℕ, ◌+◌, ◌%◌, List, [], ◌∷◌, ◌<◌, ◌≡◌, ◌↔◌, refl, true, false, none, some, pos, ℤ, negsuc, ok,
  throw, invalid_argument, ltb, if◌then◌else◌, ◌^◌, Result, Ensures, arith,
}
use robo_baton_4p_ros2_demo.Timestamp.{
  SensorTimestampMapperSnapshot, RosStampParts, map_monotonic_raw_to_realtime_ns,
  to_ros_stamp_parts,
}
use robo_baton_4p_ros2_demo.Timestamp.Offset.{IsInt64}
use robo_baton_4p_ros2_demo.Options.{default_options, validate_camera_options, camera_mask_contains}
use robo_baton_4p_ros2_demo.Camera.Publish.{
  Config as CameraConfig, k_block, construct as construct_camera, Image,
  message_of as camera_message, image_of_frame, header_stamp_from_frame,
}
use robo_baton_4p_ros2_demo.Imu.Publish.{
  Config as ImuConfig, construct as construct_imu, ImuMessage, message_of as imu_message, imu,
  temperature, temperature_of, PublishReplies, publish_sample, publish_imu, publish_temperature_of,
}
use robo_baton_4p_ros2_demo.Node.{
  Parameters, Settings, load_settings, load_camera_config, load_imu_config, load_options,
  declare_uint32, declare_uint64, declare_size, parse_queue_policy,
  require_sensor_timestamp_fifo_read_mode, check_run_id, load_rate_run_id, load_rate_log_period_ms,
}
use robo_baton_4p_ros2_demo.Node.Loaded.{ParameterLaws, IsLoaded, all_safe, camera_config_accepted}
use robo_baton_4p_ros2_demo.Node.Stamps.{sensors_share_clock}
use robo_baton_4p_ros2_demo.Camera.Frame.{RetainedFrameJob}
use robo_baton_4p_ros2_demo.Timestamp.Stamp.{stamp_ns}
use robo_baton_4p_ros2_demo.Imu.Core.{Sample, new_core}
use robo_baton_4p_ros2_demo.Node.LoadedImu.{IsLoadedImu, IsRunId, imu_config_iff}
use robo_baton_4p_ros2_demo.Node.Life.{
  NodeReplies, main, construct_node, imus_made, imus_stopped, cameras_made, cameras_stopped,
  stops_last, publishers_stopped, Check, left, run_executor, is_clean, first_end,
}

-- A default of 64 bits is returned, and any other is refused.
abbrev declared : ℤ → Result ℤ
declared (pos n) = if ltb n (2 ^ 63) then ok (pos n) else throw (invalid_argument "parameter")
declared (negsuc n) = if ltb n (2 ^ 63) then ok (negsuc n) else throw (invalid_argument "parameter")

-- Nothing is overridden.
abbrev parameters : Parameters
parameters = record {
  declare_int = λ name d. ok d;
  declare_int64 = λ name d. declared d;
  declare_bool = λ name d. ok d;
  declare_string = λ name d. ok d;
}

declared-IsInt64 : (d : ℤ) → Ensures IsInt64 (declared d)
unfolding Ensures
declared-IsInt64 (pos n) = ground arith
declared-IsInt64 (negsuc n) = ground arith

laws : ParameterLaws parameters
laws = record { fits = λ name d. declared-IsInt64 d }

abbrev mapper : SensorTimestampMapperSnapshot
mapper = record {
  realtime_start_ns = 1000;
  monotonic_raw_start_ns = 900;
  realtime_minus_monotonic_raw_ns = pos 100;
}

abbrev settings : Settings
settings = record {
  timestamp_mapper = mapper;
  enable_camera = true;
  enable_imu = true;
  rate_metrics_enabled = false;
  rate_log_period_ms = 1000;
  rate_run_id = "";
}

abbrev camera_config : CameraConfig
camera_config = record {
  timestamp_mapper = some mapper;
  options = default_options;
  queue_capacity = 4;
  queue_policy = k_block;
  publish_camera_info = true;
  image_encoding = "nv12";
  publish_compressed_image = true;
  compressed_jpeg_quality = pos 80;
  frame_id_prefix = "robobaton_cam";
  rate_metrics_enabled = false;
  rate_log_period_ms = 1000;
  rate_run_id = "";
}

abbrev imu_config : ImuConfig
imu_config = record {
  timestamp_mapper = some mapper;
  sample_rate_hz = 1000;
  fifo_watermark_samples = 1;
  frame_id = "robobaton_imu_link";
  publish_temperature = true;
  rate_metrics_enabled = false;
  rate_log_period_ms = 1000;
  rate_run_id = "";
}

settings_load : load_settings parameters mapper ≡ ok settings
unfolding load_settings load_rate_log_period_ms load_rate_run_id declare_uint32 check_run_id
settings_load = refl

camera_loads : load_camera_config parameters settings ≡ ok camera_config
unfolding load_camera_config load_options declare_size declare_uint32 declare_uint64
    parse_queue_policy default_options
camera_loads = refl

imu_loads : load_imu_config parameters settings ≡ ok imu_config
unfolding load_imu_config declare_uint32 require_sensor_timestamp_fifo_read_mode
imu_loads = refl

camera_config_accepted_example :
    IsLoaded settings camera_config
    × (all_safe "" ≡ true)
    × (construct_camera false camera_config ≡ ok mapper)
camera_config_accepted_example =
    camera_config_accepted parameters mapper settings camera_config laws settings_load camera_loads
      refl

imu_config_iff_example :
    IsLoadedImu parameters settings imu_config
    × IsRunId ""
    × (construct_imu false imu_config ≡ ok mapper)
imu_config_iff_example =
    (imu_config_iff parameters mapper settings imu_config settings_load).0 imu_loads

abbrev job : RetainedFrameJob
job = record {
  frame = some 1;
  info = record {
    struct_size = 128;
    camera_id = 2;
    sequence = 7;
    frame_id = 7;
    timestamp_ns = 5000000000;
    y_data = some 1000;
    uv_data = some 2000;
    y_size = 8;
    uv_size = 4;
    width = 4;
    height = 2;
    stride = 4;
    vstride = 2;
  };
}

abbrev sample : Sample
sample = record {
  struct_size = 120;
  sample_timestamp_ns = 5000001000;
  temperature_c = 7;
  accel_mps2 = record { x = 1; y = 2; z = 3 };
  gyro_rps = record { x = 4; y = 5; z = 6 };
}

abbrev memory : ℕ → ℕ
memory address = address % 256

-- The stamp that is so many nanoseconds after five seconds.
abbrev five : ℕ → RosStampParts
five nanosec = record { sec = 5; nanosec = nanosec }

abbrev image_sent : Image
image_sent = camera_message camera_config memory job (five 100)

abbrev imu_sent : ImuMessage
imu_sent = imu_message imu_config sample (five 1100)

abbrev publish_replies : PublishReplies
publish_replies = record {
  imu_error = none;
  temperature_error = none;
  publish_start_ns = 10;
  publish_end_ns = 15;
  attempts = [];
}

image_made : image_of_frame camera_config mapper memory job ≡ ok image_sent
unfolding default_options image_of_frame camera_mask_contains header_stamp_from_frame
    map_monotonic_raw_to_realtime_ns to_ros_stamp_parts
image_made = refl

imu_published :
    (publish_sample imu_config mapper publish_replies sample new_core).sent
    ≡ imu imu_sent ∷ temperature (temperature_of imu_sent sample) ∷ []
unfolding publish_sample publish_imu publish_temperature_of map_monotonic_raw_to_realtime_ns
    to_ros_stamp_parts
imu_published = refl

sensors_share_clock_example :
    ((camera_config.options.trigger_mode ≡ "software_gpio")
      × (stamp_ns (five 100) + 5000001000 ≡ stamp_ns (five 1100) + 5000000000)
      × ((five 100 ≡ five 1100) ↔ (◌≡◌ {A = ℕ} 5000000000 5000001000)))
    ⊎ ((camera_config.options.trigger_mode ≡ "none") × (stamp_ns (five 100) ≡ 5000000000))
unfolding construct_camera construct_imu default_options validate_camera_options
sensors_share_clock_example =
    sensors_share_clock parameters settings camera_config imu_config mapper mapper memory job
      image_sent publish_replies sample new_core imu_sent
      (temperature (temperature_of imu_sent sample) ∷ []) laws (ground arith) camera_loads imu_loads
      refl refl refl (omega arith) (omega arith) image_made imu_published

abbrev replies : NodeReplies
replies = record {
  settings_error = none;
  imu_made_error = none;
  imu_start_error = none;
  camera_made_error = none;
  camera_start_error = some (invalid_argument "camera");
}

abbrev signalled : List Check
signalled =
    record {
      stop_requested = false;
      shut_down = false;
      process_failed = false;
      spin_throws = false;
    }
    ∷ record {
      stop_requested = true;
      shut_down = false;
      process_failed = false;
      spin_throws = false;
    }
    ∷ []

publishers_stopped_example :
    let (events, code) = main true true replies signalled false false in
    (imus_stopped events ≡ imus_made events)
    × (cameras_stopped events ≡ cameras_made events)
    × (imus_made events < 2)
    × (cameras_made events < 2)
    × (stops_last events ≡ true)
    × ((code ≡ 0) ↔ (
        ((construct_node true true replies).1 ≡ none)
        × (is_clean false (first_end signalled).1 ≡ true)
        × (false ≡ false)))
publishers_stopped_example = publishers_stopped true true replies signalled false false

-- A signal ends the loop before its second round.
ended_by_signal : run_executor signalled false ≡ (1, left false)
unfolding run_executor
ended_by_signal = refl
