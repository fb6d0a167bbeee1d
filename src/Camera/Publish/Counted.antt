-- ===== src/Camera/Publish/Counted.antt =====
-- PublishFrame and the metrics of its camera.
use robo_baton_4p_ros2_demo.Prelude.{
  ℕ, ◌+◌, ◌^◌, ◌%◌, ◌<◌, ◌≡◌, true, false, Option, some, none, List, [], ◌∷◌, ◌==◌, arith, ok,
  Exception,
}
use robo_baton_4p_ros2_demo.Timestamp.{SensorTimestampMapperSnapshot}
use robo_baton_4p_ros2_demo.Metrics.{
  PublicationRateMetrics, record_publish_success, record_publish_failure,
  record_auxiliary_publish_success,
}
use robo_baton_4p_ros2_demo.Camera.Core.{Core, max_cameras}
use robo_baton_4p_ros2_demo.Camera.Frame.{RetainedFrameJob}
use robo_baton_4p_ros2_demo.Camera.Reports.{
  change_metrics, core_record_publish_success, core_record_publish_failure,
  core_record_auxiliary_publish_success,
}
use robo_baton_4p_ros2_demo.Camera.Publish.{
  Config, Image, Sent, image, camera_info, Published, PublishReplies, publish_camera_info_of,
  publish_image, publish_frame, image_of_frame,
}

-- How many images, and how many CameraInfos, were handed over.
unfoldable pub images : List Sent → ℕ
images [] = 0
images (image m ∷ rest) = 1 + images rest
images (camera_info m ∷ rest) = images rest

unfoldable pub camera_infos : List Sent → ℕ
camera_infos [] = 0
camera_infos (image m ∷ rest) = camera_infos rest
camera_infos (camera_info m ∷ rest) = 1 + camera_infos rest

abbrev pub has_thrown : Option Exception → ℕ
has_thrown none = 0
has_thrown (some e) = 1

-- The counters of a camera before and after a publication.
pub record IsCounted (before after : PublicationRateMetrics) (p : Published) : Type 0 where
  pub published : after.publish_count ≡ (before.publish_count + images p.sent) % 2 ^ 64
  pub auxiliary :
      after.auxiliary_publish_count
      ≡ (before.auxiliary_publish_count + camera_infos p.sent) % 2 ^ 64
  pub failures :
      after.publish_failure_count ≡ (before.publish_failure_count + has_thrown p.thrown) % 2 ^ 64
  pub at_most_one : (images p.sent < 2) × (camera_infos p.sent < 2)

-- Counters that fit 64 bits.
pub record IsSmall (m : PublicationRateMetrics) : Type 0 where
  pub published : m.publish_count < 2 ^ 64
  pub auxiliary : m.auxiliary_publish_count < 2 ^ 64
  pub failures : m.publish_failure_count < 2 ^ 64

publish_image-IsCounted :
    (config : Config) (r : PublishReplies) (e : Option Exception) (message : Image) (id : ℕ)
    (c : Core)
    → config.rate_metrics_enabled ≡ true
    → c.config.rate_metrics_enabled ≡ true
    → id < max_cameras
    → IsSmall (c.lanes id).metrics
    → let p = publish_image config r e message id c in
      IsCounted (c.lanes id).metrics (p.core.lanes id).metrics p
unfolding publish_image publish_camera_info_of core_record_publish_success
    core_record_publish_failure core_record_auxiliary_publish_success change_metrics
    record_publish_success record_publish_failure record_auxiliary_publish_success images
    camera_infos
publish_image-IsCounted config r e message id c on enabled low small =
    ground (arith, on, enabled, low, small)

publish_image-others :
    (config : Config) (r : PublishReplies) (e : Option Exception) (message : Image) (id j : ℕ)
    (c : Core)
    → (id == j) ≡ false
    → (publish_image config r e message id c).core.lanes j ≡ c.lanes j
unfolding publish_image publish_camera_info_of core_record_publish_success
    core_record_publish_failure core_record_auxiliary_publish_success change_metrics
publish_image-others config r e message id j c other = ground (arith, other)

known_camera :
    (config : Config) (mapper : SensorTimestampMapperSnapshot) (memory : ℕ → ℕ)
    (job : RetainedFrameJob) (message : Image)
    → image_of_frame config mapper memory job ≡ ok message
    → job.info.camera_id < max_cameras
unfolding image_of_frame
known_camera config mapper memory job message h = ground (arith, h)

-- With the metrics enabled, a publication that comes to its `publish` calls counts for the camera of
-- the frame, modulo 2 ^ 64 and from counters that fit 64 bits: one publication for each image that was
-- handed over, one auxiliary publication for each CameraInfo, at most one of each, and one failure if
-- it throws; and nothing changes for the other cameras.
pub publish_frame-counts :
    (config : Config) (mapper : SensorTimestampMapperSnapshot) (memory : ℕ → ℕ) (r : PublishReplies)
    (job : RetainedFrameJob) (message : Image) (c : Core)
    → image_of_frame config mapper memory job ≡ ok message
    → config.rate_metrics_enabled ≡ true
    → c.config.rate_metrics_enabled ≡ true
    → IsSmall (c.lanes job.info.camera_id).metrics
    → let p = publish_frame config mapper memory r job c in
      IsCounted (c.lanes job.info.camera_id).metrics (p.core.lanes job.info.camera_id).metrics p
      × ((j : ℕ) → (job.info.camera_id == j) ≡ false → p.core.lanes j ≡ c.lanes j)
unfolding publish_frame
publish_frame-counts config mapper memory r job message c made on enabled small =
    let id = job.info.camera_id in
    rw made (
      publish_image-IsCounted config r r.image_error message id c on enabled
          (known_camera config mapper memory job message made) small,
      λ j other. publish_image-others config r r.image_error message id j c other,
    )
