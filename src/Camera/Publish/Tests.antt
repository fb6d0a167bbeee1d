-- ===== src/Camera/Publish/Tests.antt =====
-- The theorems on the publication of a frame, at one frame of four by two pixels.
use robo_baton_4p_ros2_demo.Prelude.{
  ℕ, ◌+◌, ◌%◌, ◌<◌, ◌≡◌, refl, true, false, none, some, [], ◌==◌, get_elem?, pos, ok, arith,
}
use robo_baton_4p_ros2_demo.Timestamp.{
  SensorTimestampMapperSnapshot, RosStampParts, map_monotonic_raw_to_realtime_ns,
  to_ros_stamp_parts,
}
use robo_baton_4p_ros2_demo.Metrics.{new_metrics}
use robo_baton_4p_ros2_demo.Options.{default_options, camera_mask_contains}
use robo_baton_4p_ros2_demo.Nv12.{is_bad_metadata, validate_and_locate_planes}
use robo_baton_4p_ros2_demo.Camera.Core.{Core, new_core, default_core_config}
use robo_baton_4p_ros2_demo.Camera.Frame.{FrameInfo, RetainedFrameJob}
use robo_baton_4p_ros2_demo.Camera.Publish.{
  Config, k_block, header_stamp_from_frame, Image, message_of, image_of_frame, read_bytes,
  PublishReplies, publish_frame,
}
use robo_baton_4p_ros2_demo.Camera.Publish.Planes.{published_planes, input_of, IsCompact}
use robo_baton_4p_ros2_demo.Camera.Publish.Counted.{publish_frame-counts, IsCounted}

abbrev mapper : SensorTimestampMapperSnapshot
mapper = record {
  realtime_start_ns = 1000;
  monotonic_raw_start_ns = 900;
  realtime_minus_monotonic_raw_ns = pos 100;
}

abbrev config : Config
config = record {
  timestamp_mapper = some mapper;
  options = default_options;
  queue_capacity = 4;
  queue_policy = k_block;
  publish_camera_info = true;
  image_encoding = "nv12";
  publish_compressed_image = true;
  compressed_jpeg_quality = pos 80;
  frame_id_prefix = "robobaton_cam";
  rate_metrics_enabled = true;
  rate_log_period_ms = 1000;
  rate_run_id = "run";
}

abbrev info : FrameInfo
info = record {
  struct_size = 128;
  camera_id = 2;
  sequence = 7;
  frame_id = 7;
  timestamp_ns = 5000000000;
  y_data = some 1000;
  uv_data = some 2000;
  y_size = 8;
  uv_size = 4;
  width = 4;
  height = 2;
  stride = 4;
  vstride = 2;
}

abbrev job : RetainedFrameJob
job = record { frame = some 1; info = info }

abbrev memory : ℕ → ℕ
memory address = address % 256

abbrev stamp : RosStampParts
stamp = record { sec = 5; nanosec = 100 }

abbrev message : Image
message = message_of config memory job stamp

abbrev core : Core
core = record new_core { config = record default_core_config { rate_metrics_enabled = true } }

abbrev replies : PublishReplies
replies = record {
  image_error = none;
  camera_info_error = none;
  publish_start_ns = 10;
  publish_end_ns = 15;
  attempts = [];
}

made : image_of_frame config mapper memory job ≡ ok message
unfolding default_options image_of_frame camera_mask_contains header_stamp_from_frame
    map_monotonic_raw_to_realtime_ns to_ros_stamp_parts
made = refl

published_planes_example :
    (validate_and_locate_planes (input_of message)
      ≡ ok (record {
        y_data = 0;
        uv_data = 8;
        width = 4;
        height = 2;
        source_stride = 4;
        chroma_height = 1;
      }))
    × ((k : ℕ) → k < 8 → get_elem? message.bytes k ≡ some (memory (1000 + k)))
    × ((k : ℕ) → k < 4 → get_elem? message.bytes (8 + k) ≡ some (memory (2000 + k)))
unfolding input_of is_bad_metadata IsCompact read_bytes
published_planes_example =
    published_planes config mapper memory job message made (ground arith) (refl, refl)

publish_frame-counts_example :
    let p = publish_frame config mapper memory replies job core in
    IsCounted (core.lanes 2).metrics (p.core.lanes 2).metrics p
    × ((j : ℕ) → (2 == j) ≡ false → p.core.lanes j ≡ core.lanes j)
unfolding new_core new_metrics
publish_frame-counts_example =
    publish_frame-counts config mapper memory replies job message core made refl refl
      (record { published = omega arith; auxiliary = omega arith; failures = omega arith })
