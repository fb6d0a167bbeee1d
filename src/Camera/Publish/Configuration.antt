-- ===== src/Camera/Publish/Configuration.antt =====
-- CameraPublisher::Config, the checks of the constructor, and the configuration that Start gives to the core,
-- in src/camera_publisher.cpp with include/robobaton_4p_ros2_demo/camera_publisher.hpp.
use text.Mathlib.Text.{◌==◌ as str_eq}
use robo_baton_4p_ros2_demo.Prelude.{
  ℕ, ◌-◌, ◌%◌, ◌^◌, Bool, true, false, ◌&&◌, ◌||◌, not, Option, none, some, ltb, ltb_ℤ, ◌==◌, ℤ,
  pos, negsuc, Result, ok, throw, invalid_argument, throw_if, ◌>>=◌, ◌>>◌, String,
}
use robo_baton_4p_ros2_demo.Timestamp.{SensorTimestampMapperSnapshot}
use robo_baton_4p_ros2_demo.Options.{
  Options, camera_mask_contains, internal_rotate_degrees, sc132_output_width, sc132_output_height,
}
use robo_baton_4p_ros2_demo.Camera.Core.{CameraCoreConfig, max_cameras}

pub data QueuePolicy : Type 0 where
  k_block k_drop_newest : QueuePolicy

-- `CameraPublisher::Config`; the mapper is the snapshot that it holds.
pub record Config : Type 0 where
  pub timestamp_mapper : Option SensorTimestampMapperSnapshot
  pub options : Options
  pub queue_capacity : ℕ
  pub queue_policy : QueuePolicy
  pub publish_camera_info : Bool
  pub image_encoding : String
  pub publish_compressed_image : Bool
  pub compressed_jpeg_quality : ℤ
  pub frame_id_prefix : String
  pub rate_metrics_enabled : Bool
  pub rate_log_period_ms : ℕ
  pub rate_run_id : String

abbrev pub sc132_timestamps_are_monotonic_raw : Options → Bool
sc132_timestamps_are_monotonic_raw options =
    str_eq options.trigger_mode "software_gpio" || str_eq options.trigger_mode "gpio"

abbrev pub require_timestamp_mapper :
    Option SensorTimestampMapperSnapshot → Result SensorTimestampMapperSnapshot
require_timestamp_mapper none =
    throw (invalid_argument "camera publisher requires a timestamp mapper")
require_timestamp_mapper (some mapper) = ok mapper

abbrev pub is_bad_config : Bool → Config → Bool
is_bad_config node_is_null config =
    node_is_null
    || config.queue_capacity == 0
    || not (str_eq config.image_encoding "nv12")
    || ltb_ℤ config.compressed_jpeg_quality (pos 1)
    || ltb_ℤ (pos 100) config.compressed_jpeg_quality
    || (config.rate_metrics_enabled && config.rate_log_period_ms == 0)

-- The constructor up to its creation of the publishers.
unfoldable pub construct : Bool → Config → Result SensorTimestampMapperSnapshot
construct node_is_null config = do
  mapper ← require_timestamp_mapper config.timestamp_mapper
  throw_if (is_bad_config node_is_null config)
      (invalid_argument "invalid camera publisher configuration")
  ok mapper

-- The cameras that get an image publisher, and those that get one for their CameraInfo.
abbrev pub has_image_publisher : Config → ℕ → Bool
has_image_publisher config id =
    ltb id max_cameras && camera_mask_contains config.options.camera_mask (pos id)

abbrev pub has_camera_info_publisher : Config → ℕ → Bool
has_camera_info_publisher config id = has_image_publisher config id && config.publish_camera_info

-- `static_cast<uint32_t>` of an int.
abbrev pub to_uint32 : ℤ → ℕ
to_uint32 (pos n) = n % 2 ^ 32
to_uint32 (negsuc n) = 2 ^ 32 - 1 - n % 2 ^ 32

abbrev pub drops_newest : QueuePolicy → Bool
drops_newest k_block = false
drops_newest k_drop_newest = true

-- The configuration that Start hands to the core.
unfoldable pub core_config : Config → CameraCoreConfig
core_config config = record {
  camera_mask = config.options.camera_mask;
  fps = to_uint32 config.options.fps;
  rotation = to_uint32 (internal_rotate_degrees config.options);
  width = sc132_output_width config.options;
  height = sc132_output_height config.options;
  timeout_ms = config.options.frame_set_timeout_ms;
  max_skew_ns = config.options.frame_set_max_skew_ns;
  queue_capacity = config.queue_capacity;
  drop_newest = drops_newest config.queue_policy;
  rate_metrics_enabled = config.rate_metrics_enabled;
}
