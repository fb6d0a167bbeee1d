-- ===== src/Camera/Publish.antt =====
-- The ROS layer of src/camera_publisher.cpp: the configuration of the publisher with its checks, the
-- configuration of the core that Start derives from it, and PublishFrame, with
-- include/robobaton_4p_ros2_demo/camera_publisher.hpp.
--
-- What `publish` does is an argument: it returns, or it throws an exception. The messages that were
-- handed over are listed in their order. Memory is a function from addresses to bytes, and the null
-- pointer is the address 0.
mod Configuration
pub mod Accepted
pub mod Planes
pub mod Counted
pub mod Rate
mod Tests
unfoldable pub use Configuration.*
use Prim.Native.String.{◌++◌ as concat}
use text.Mathlib.Text.{◌==◌ as str_eq}
use robo_baton_4p_ros2_demo.Prelude.{
  ℕ, zero, suc, ◌+◌, ◌-◌, ◌/◌, ◌%◌, ◌^◌, Bool, true, false, ◌&&◌, ◌||◌, not, Option, none, some,
  List, [], ◌∷◌, ◌++◌, get_or, ltb, leb, ltb_ℤ, ◌==◌, if◌then◌else◌, decimal, ℤ, pos, negsuc,
  Exception, Result, ok, throw, invalid_argument, runtime_error, throw_if, ◌>>=◌, ◌>>◌, String,
}
use robo_baton_4p_ros2_demo.Timestamp.{
  SensorTimestampMapperSnapshot, RosStampParts, map_monotonic_raw_to_realtime_ns,
  to_ros_stamp_parts,
}
use robo_baton_4p_ros2_demo.Ros.{Header}
use robo_baton_4p_ros2_demo.Metrics.{Attempt}
use robo_baton_4p_ros2_demo.Options.{
  Options, camera_mask_contains, internal_rotate_degrees, sc132_output_width, sc132_output_height,
}
use robo_baton_4p_ros2_demo.Camera.Frame.{FrameInfo, RetainedFrameJob}
use robo_baton_4p_ros2_demo.Camera.Core.{Core, CameraCoreConfig, max_cameras}
use robo_baton_4p_ros2_demo.Camera.Reports.{
  core_record_publish_success, core_record_publish_failure, core_record_auxiliary_publish_success,
}

unfoldable pub header_stamp_from_frame :
    Config → SensorTimestampMapperSnapshot → FrameInfo → Result RosStampParts
header_stamp_from_frame config mapper info =
    if sc132_timestamps_are_monotonic_raw config.options
    then map_monotonic_raw_to_realtime_ns mapper info.timestamp_ns >>= to_ros_stamp_parts
    else to_ros_stamp_parts info.timestamp_ns

unfoldable pub camera_frame_id : String → ℕ → String
unfolding decimal
camera_frame_id prefix camera_id = concat (concat prefix (decimal 10 camera_id)) "_optical_frame"

-- `sensor_msgs::msg::Image` and the fields of CameraInfo that are set.
pub record Image : Type 0 where
  pub header : Header
  pub height : ℕ
  pub width : ℕ
  pub encoding : String
  pub is_bigendian : Bool
  pub step : ℕ
  pub bytes : List ℕ

pub record CameraInfo : Type 0 where
  pub header : Header
  pub width : ℕ
  pub height : ℕ

-- `memcpy` of `n` bytes.
unfoldable pub read_bytes : (ℕ → ℕ) → ℕ → ℕ → List ℕ
read_bytes memory address zero = []
read_bytes memory address (suc n) = memory address ∷ read_bytes memory (address + 1) n

abbrev pub is_null_frame : Option ℕ → Bool
is_null_frame none = true
is_null_frame (some frame) = false

-- A uint64_t is at most the largest `std::size_t`, so only the sum can be too large.
abbrev pub is_bad_size : RetainedFrameJob → Bool
is_bad_size job =
    is_null_frame job.frame
    || ltb (2 ^ 64 - 1) job.info.y_size
    || ltb (2 ^ 64 - 1) job.info.uv_size
    || ltb (2 ^ 64 - 1 - job.info.uv_size) job.info.y_size

-- The message, with its stamp.
abbrev pub message_of : Config → (ℕ → ℕ) → RetainedFrameJob → RosStampParts → Image
message_of config memory job stamp = record {
  header = record {
    stamp = stamp;
    frame_id = camera_frame_id config.frame_id_prefix job.info.camera_id;
  };
  height = job.info.height;
  width = job.info.width;
  encoding = config.image_encoding;
  is_bigendian = false;
  step = job.info.stride;
  bytes =
      read_bytes memory (get_or job.info.y_data 0) job.info.y_size
      ++ read_bytes memory (get_or job.info.uv_data 0) job.info.uv_size;
}

abbrev pub is_bad_camera : Config → ℕ → Bool
is_bad_camera config id = leb max_cameras id || not (has_image_publisher config id)

-- PublishFrame up to its `try`: the message.
unfoldable pub image_of_frame :
    Config → SensorTimestampMapperSnapshot → (ℕ → ℕ) → RetainedFrameJob → Result Image
image_of_frame config mapper memory job = do
  throw_if (is_bad_size job) (runtime_error "invalid SC132 frame size")
  throw_if (is_bad_camera config job.info.camera_id) (runtime_error "invalid SC132 camera id")
  stamp ← header_stamp_from_frame config mapper job.info
  ok (message_of config memory job stamp)

-- What the two calls of `publish` throw, if they do; the two readings of the clock; and how other
-- threads disturb the maximum of the latency.
pub record PublishReplies : Type 0 where
  pub image_error : Option Exception
  pub camera_info_error : Option Exception
  pub publish_start_ns : ℕ
  pub publish_end_ns : ℕ
  pub attempts : List Attempt

pub data Sent : Type 0 where
  image : Image → Sent
  camera_info : CameraInfo → Sent

-- What PublishFrame leaves: the core, the messages that `publish` took, and what it throws.
pub record Published : Type 0 where
  pub core : Core
  pub sent : List Sent
  pub thrown : Option Exception

abbrev pub camera_info_of : Image → CameraInfo
camera_info_of message = record {
  header = message.header;
  width = message.width;
  height = message.height;
}

-- The CameraInfo, after the image.
unfoldable pub publish_camera_info_of : Config → Option Exception → Image → ℕ → Core → Published
publish_camera_info_of config (some e) message id c = record {
  core = core_record_publish_failure id c;
  sent = image message ∷ [];
  thrown = some e;
}
publish_camera_info_of config none message id c = record {
  core = if config.rate_metrics_enabled then core_record_auxiliary_publish_success id c else c;
  sent = image message ∷ camera_info (camera_info_of message) ∷ [];
  thrown = none;
}

-- The body of the `try`, with its handlers.
unfoldable pub publish_image :
    Config → PublishReplies → Option Exception → Image → ℕ → Core → Published
unfolding publish_camera_info_of
publish_image config r (some e) message id c = record {
  core = core_record_publish_failure id c;
  sent = [];
  thrown = some e;
}
publish_image config r none message id c =
    let latency = (r.publish_end_ns + 2 ^ 64 - r.publish_start_ns) % 2 ^ 64 in
    let counted =
      if config.rate_metrics_enabled
      then core_record_publish_success id latency r.attempts c
      else c in
    if has_camera_info_publisher config id
    then publish_camera_info_of config r.camera_info_error message id counted
    else record { core = counted; sent = image message ∷ []; thrown = none }

abbrev pub publish_prepared : Config → PublishReplies → Result Image → ℕ → Core → Published
publish_prepared config r (throw e) id c = record { core = c; sent = []; thrown = some e }
publish_prepared config r (ok message) id c = publish_image config r r.image_error message id c

unfoldable pub publish_frame :
    Config
    → SensorTimestampMapperSnapshot
    → (ℕ → ℕ)
    → PublishReplies
    → RetainedFrameJob
    → Core
    → Published
unfolding image_of_frame publish_image
publish_frame config mapper memory r job c =
    publish_prepared config r (image_of_frame config mapper memory job) job.info.camera_id c
