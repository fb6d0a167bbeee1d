-- ===== src/Node.antt =====
-- src/robobaton_sensors_node.cpp with include/robobaton_4p_ros2_demo/sensor_node.hpp: the parameters
-- of the node with their checks, the order in which the two publishers are started and stopped, and
-- the exit code.
--
-- What `declare_parameter` returns or throws is an argument (`Parameters`).
pub mod Loaded
pub mod LoadedImu
pub mod Stamps
pub mod Life
mod Tests
use Prim.Native.String.{String, [], ◌∷◌, ◌++◌ as concat}
use Prim.Native.Char.{Char, code}
use text.Mathlib.Text.{◌==◌ as str_eq}
use robo_baton_4p_ros2_demo.Prelude.{
  ℕ, ◌-◌, ◌^◌, Bool, true, false, ◌&&◌, ◌||◌, not, Option, none, some, ltb, leb, ltb_ℤ, leb_ℤ, ◌==◌,
  if◌then◌else◌, ℤ, pos, negsuc, pos_part, Result, ok, throw, invalid_argument, throw_if, ◌>>=◌,
  ◌>>◌,
}
use robo_baton_4p_ros2_demo.Timestamp.{SensorTimestampMapperSnapshot, to_uint64}
use robo_baton_4p_ros2_demo.Options.{
  Options, default_options, default_camera_mask, default_frame_set_max_skew_ns,
}
use robo_baton_4p_ros2_demo.Camera.Publish.{
  QueuePolicy, k_block, k_drop_newest, to_uint32, Config as CameraConfig,
}
use robo_baton_4p_ros2_demo.Imu.Publish.{Config as ImuConfig}

-- `declare_parameter` of the four types, with the name and the default of the parameter.
pub record Parameters : Type 0 where
  pub declare_int : String → ℤ → Result ℤ
  pub declare_int64 : String → ℤ → Result ℤ
  pub declare_bool : String → Bool → Result Bool
  pub declare_string : String → String → Result String

-- `static_cast<int64_t>` of an unsigned number.
abbrev pub to_int64 : ℕ → ℤ
to_int64 n = if ltb n (2 ^ 63) then pos n else negsuc (2 ^ 64 - 1 - n)

unfoldable pub declare_uint64 : Parameters → String → ℕ → Result ℕ
declare_uint64 p name default_value = do
  value ← p.declare_int64 name (to_int64 default_value)
  throw_if (ltb_ℤ value (pos 0)) (invalid_argument (concat name " must be non-negative"))
  ok (to_uint64 value)

unfoldable pub declare_uint32 : Parameters → String → ℕ → Result ℕ
declare_uint32 p name default_value = do
  value ← p.declare_int64 name (to_int64 default_value)
  throw_if (ltb_ℤ value (pos 0) || ltb_ℤ (pos 0xffffffff) value)
      (invalid_argument (concat name " must be a uint32 value"))
  ok (to_uint32 value)

unfoldable pub declare_size : Parameters → String → ℕ → Result ℕ
declare_size p name default_value = do
  value ← p.declare_int64 name (to_int64 default_value)
  throw_if (leb_ℤ value (pos 0)) (invalid_argument (concat name " must be positive"))
  ok (to_uint64 value)

unfoldable pub parse_queue_policy : String → Result QueuePolicy
parse_queue_policy value =
    if str_eq value "block"
    then ok k_block
    else if str_eq value "drop_newest"
    then ok k_drop_newest
    else throw (invalid_argument "camera.queue_policy must be block or drop_newest")

unfoldable pub require_sensor_timestamp_fifo_read_mode : String → Result (Unit {0})
require_sensor_timestamp_fifo_read_mode value =
    if str_eq value "sensor_timestamp_fifo"
    then ok tt
    else throw (invalid_argument "imu.read_mode only supports sensor_timestamp_fifo")

-- The characters that a run ID may hold. A character beyond ASCII has no safe byte.
abbrev pub is_safe : ℕ → Bool
is_safe value =
    (leb 97 value && leb value 122)
    || (leb 65 value && leb value 90)
    || (leb 48 value && leb value 57)
    || value == 45
    || value == 95
    || value == 46
    || value == 58

-- The loop of LoadRateRunId.
unfoldable pub check_run_id : String → Result (Unit {0})
check_run_id [] = ok tt
check_run_id (value ∷ rest) =
    let checked = check_run_id rest in
    if not (is_safe (code value))
    then throw (invalid_argument "diagnostics.rate_run_id accepts only ASCII alnum and -_.:")
    else checked

unfoldable pub load_rate_run_id : Parameters → Result String
unfolding check_run_id
load_rate_run_id p = do
  run_id ← p.declare_string "diagnostics.rate_run_id" ""
  check_run_id run_id
  ok run_id

unfoldable pub load_rate_log_period_ms : Parameters → Bool → Result ℕ
unfolding declare_uint32
load_rate_log_period_ms p rate_metrics_enabled = do
  period_ms ← declare_uint32 p "diagnostics.rate_log_period_ms" 1000
  throw_if (rate_metrics_enabled && period_ms == 0)
      (invalid_argument "diagnostics.rate_log_period_ms must be positive when enabled")
  ok period_ms

-- What the node keeps for both publishers.
pub record Settings : Type 0 where
  pub timestamp_mapper : SensorTimestampMapperSnapshot
  pub enable_camera : Bool
  pub enable_imu : Bool
  pub rate_metrics_enabled : Bool
  pub rate_log_period_ms : ℕ
  pub rate_run_id : String

-- The constructor up to StartEnabledPublishers.
unfoldable pub load_settings : Parameters → SensorTimestampMapperSnapshot → Result Settings
unfolding load_rate_log_period_ms load_rate_run_id
load_settings p mapper = do
  enable_camera ← p.declare_bool "enable_camera" true
  enable_imu ← p.declare_bool "enable_imu" true
  rate_metrics_enabled ← p.declare_bool "diagnostics.rate_metrics_enabled" false
  rate_log_period_ms ← load_rate_log_period_ms p rate_metrics_enabled
  rate_run_id ← load_rate_run_id p
  ok (record {
    timestamp_mapper = mapper;
    enable_camera = enable_camera;
    enable_imu = enable_imu;
    rate_metrics_enabled = rate_metrics_enabled;
    rate_log_period_ms = rate_log_period_ms;
    rate_run_id = rate_run_id;
  })

-- The options of the cameras, in LoadCameraConfig.
unfoldable pub load_options : Parameters → Result Options
unfolding declare_uint32 declare_uint64
load_options p = do
  camera_mask ← declare_uint32 p "camera.camera_mask" default_camera_mask
  fps ← p.declare_int "camera.fps" (pos 30)
  rotate_degrees ← p.declare_int "camera.rotate_degrees" (pos 0)
  frame_set_max_skew_ns ←
      declare_uint64 p "camera.frame_set_max_skew_ns" default_frame_set_max_skew_ns
  frame_set_timeout_ms ← declare_uint32 p "camera.frame_set_timeout_ms" 100
  trigger_mode ← p.declare_string "camera.trigger_mode" "software_gpio"
  ok (record {
    camera_mask = camera_mask;
    fps = fps;
    rotate_degrees = rotate_degrees;
    frame_set_max_skew_ns = frame_set_max_skew_ns;
    frame_set_timeout_ms = frame_set_timeout_ms;
    trigger_mode = trigger_mode;
  })

unfoldable pub load_camera_config : Parameters → Settings → Result CameraConfig
unfolding load_options declare_size parse_queue_policy
load_camera_config p settings = do
  options ← load_options p
  queue_capacity ← declare_size p "camera.queue_capacity" 4
  policy ← p.declare_string "camera.queue_policy" "block"
  queue_policy ← parse_queue_policy policy
  publish_camera_info ← p.declare_bool "camera.publish_camera_info" true
  image_encoding ← p.declare_string "camera.image_encoding" "nv12"
  publish_compressed_image ← p.declare_bool "camera.publish_compressed_image" true
  compressed_jpeg_quality ← p.declare_int "camera.compressed_jpeg_quality" (pos 80)
  throw_if (ltb_ℤ compressed_jpeg_quality (pos 1) || ltb_ℤ (pos 100) compressed_jpeg_quality)
      (invalid_argument "camera.compressed_jpeg_quality must be between 1 and 100")
  frame_id_prefix ← p.declare_string "camera.frame_id_prefix" "robobaton_cam"
  ok (record {
    timestamp_mapper = some settings.timestamp_mapper;
    options = options;
    queue_capacity = queue_capacity;
    queue_policy = queue_policy;
    publish_camera_info = publish_camera_info;
    image_encoding = image_encoding;
    publish_compressed_image = publish_compressed_image;
    compressed_jpeg_quality = compressed_jpeg_quality;
    frame_id_prefix = frame_id_prefix;
    rate_metrics_enabled = settings.rate_metrics_enabled;
    rate_log_period_ms = settings.rate_log_period_ms;
    rate_run_id = settings.rate_run_id;
  })

abbrev pub is_supported_rate : ℕ → Bool
is_supported_rate hz =
    hz == 25 || hz == 50 || hz == 100 || hz == 200 || hz == 500 || hz == 1000 || hz == 2000

unfoldable pub load_imu_config : Parameters → Settings → Result ImuConfig
unfolding declare_uint32 require_sensor_timestamp_fifo_read_mode
load_imu_config p settings = do
  sample_rate_hz ← declare_uint32 p "imu.sample_rate_hz" 1000
  throw_if (not (is_supported_rate sample_rate_hz))
      (invalid_argument "imu.sample_rate_hz only supports 25, 50, 100, 200, 500, 1000, or 2000")
  read_mode ← p.declare_string "imu.read_mode" "sensor_timestamp_fifo"
  require_sensor_timestamp_fifo_read_mode read_mode
  fifo_watermark_samples ← declare_uint32 p "imu.fifo_watermark_samples" 1
  throw_if (not (fifo_watermark_samples == 1))
      (invalid_argument "imu.fifo_watermark_samples only supports 1")
  frame_id ← p.declare_string "imu.frame_id" "robobaton_imu_link"
  publish_temperature ← p.declare_bool "imu.publish_temperature" true
  ok (record {
    timestamp_mapper = some settings.timestamp_mapper;
    sample_rate_hz = sample_rate_hz;
    fifo_watermark_samples = fifo_watermark_samples;
    frame_id = frame_id;
    publish_temperature = publish_temperature;
    rate_metrics_enabled = settings.rate_metrics_enabled;
    rate_log_period_ms = settings.rate_log_period_ms;
    rate_run_id = settings.rate_run_id;
  })
