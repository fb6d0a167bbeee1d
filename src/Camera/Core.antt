-- ===== src/Camera/Core.antt =====
-- CameraLifecycleCore of src/camera_publisher.cpp: its state, its configuration, RecordFailure and
-- CloseAdmissionAndRequestStop.
--
-- A lane holds what the class keeps for one camera id: the queue, the worker thread and the metrics.
-- `calls` records the calls of libsc132, newest first, and `notified` counts the calls of the failure
-- notifier. What libsc132 answers is an argument of the function that calls it. An exception that a
-- function throws is its result, `throw`; the functions that can throw return the state as well.
use robo_baton_4p_ros2_demo.Prelude.{
  ℕ, zero, suc, ◌+◌, ◌-◌, ◌/◌, ◌%◌, ◌^◌, Bool, true, false, ◌&&◌, not, Option, none, some, List, [],
  ◌∷◌, ltb, ◌==◌, if◌then◌else◌,
}
use robo_baton_4p_ros2_demo.Metrics.{PublicationRateMetrics, k64_bit, new_metrics}
use robo_baton_4p_ros2_demo.Camera.Frame.{RetainedFrameJob, Call, request_stop}
use robo_baton_4p_ros2_demo.Camera.Queue.{FrameQueue, close_admission}

abbrev pub max_cameras : ℕ
max_cameras = 4

abbrev pub native_output_width : ℕ
native_output_width = 1280

abbrev pub native_output_height : ℕ
native_output_height = 1088

abbrev pub default_max_skew_ns : ℕ
default_max_skew_ns = 10000000

-- `sizeof` of the two structures of the C interface, on a machine with 64-bit pointers.
abbrev pub sizeof_frame_set : ℕ
sizeof_frame_set = 224

abbrev pub sizeof_frame_info : ℕ
sizeof_frame_info = 128

pub record CameraCoreConfig : Type 0 where
  pub camera_mask : ℕ
  pub fps : ℕ
  pub rotation : ℕ
  pub width : ℕ
  pub height : ℕ
  pub timeout_ms : ℕ
  pub max_skew_ns : ℕ
  pub queue_capacity : ℕ
  pub drop_newest : Bool
  pub rate_metrics_enabled : Bool

unfoldable pub default_core_config : CameraCoreConfig
default_core_config = record {
  camera_mask = 1;
  fps = 30;
  rotation = 90;
  width = native_output_width;
  height = native_output_height;
  timeout_ms = 100;
  max_skew_ns = default_max_skew_ns;
  queue_capacity = 2;
  drop_newest = false;
  rate_metrics_enabled = false;
}

-- Where a worker thread stands: not created, at Pop, in `sink_` with a job, returned, joined.
pub data Worker : Type 0 where
  absent popping exited joined : Worker
  publishing : RetainedFrameJob → Worker

pub record Lane : Type 0 where
  pub queue : Option FrameQueue
  pub worker : Worker
  pub metrics : PublicationRateMetrics

pub record Core : Type 0 where
  pub config : CameraCoreConfig
  pub bridge_accepting : Bool
  pub has_sink : Bool
  pub has_notifier : Bool
  pub lanes : ℕ → Lane
  pub failed : Bool
  pub accepting_closed : Bool
  pub stop_requested : Bool
  pub start_claimed : Bool
  pub start_attempted : Bool
  pub running : Bool
  pub terminal : Bool
  pub cleanup_complete : Bool
  pub cleanup_quiesced : Bool
  pub notified : ℕ
  pub calls : List Call

unfoldable pub new_core : Core
unfolding default_core_config
new_core = record {
  config = default_core_config;
  bridge_accepting = false;
  has_sink = false;
  has_notifier = false;
  lanes = λ id. record { queue = none; worker = absent; metrics = new_metrics k64_bit };
  failed = false;
  accepting_closed = false;
  stop_requested = false;
  start_claimed = false;
  start_attempted = false;
  running = false;
  terminal = false;
  cleanup_complete = false;
  cleanup_quiesced = false;
  notified = 0;
  calls = [];
}

-- A lane's change, and the change of the lane of one camera.
abbrev pub update : (ℕ → Lane) → ℕ → Lane → ℕ → Lane
update lanes id lane j = if id == j then lane else lanes j

abbrev pub set_lane : Core → ℕ → Lane → Core
set_lane c id lane = record c { lanes = update c.lanes id lane }

abbrev pub set_worker : Core → ℕ → Worker → Core
set_worker c id w = set_lane c id (record (c.lanes id) { worker = w })

-- `(camera_mask & ~valid_mask) == 0` for the mask of the low four bits.
unfoldable pub validate_config : CameraCoreConfig → Bool
validate_config c =
    not (c.camera_mask == 0)
    && (c.camera_mask - c.camera_mask % 2 ^ max_cameras) == 0
    && ltb 0 c.queue_capacity
    && ltb 0 c.width
    && ltb 0 c.height
    && ltb 0 c.timeout_ms
    && ltb 0 c.max_skew_ns

abbrev pub camera_enabled : CameraCoreConfig → ℕ → Bool
camera_enabled c camera_id =
    ltb camera_id max_cameras && not (c.camera_mask / 2 ^ camera_id % 2 == 0)

-- The loop of EnabledCameraCount, with the rounds left.
abbrev count_enabled_from : CameraCoreConfig → ℕ → ℕ → ℕ → ℕ
count_enabled_from c zero camera_id count = count
count_enabled_from c (suc rounds) camera_id count =
    count_enabled_from c rounds (camera_id + 1)
      (if camera_enabled c camera_id then count + 1 else count)

abbrev pub enabled_camera_count : CameraCoreConfig → ℕ
enabled_camera_count c = count_enabled_from c max_cameras 0 0

-- RecordFailure: the first failure calls the notifier, if there is one.
unfoldable pub record_failure : Core → Core
record_failure c = record c {
  failed = true;
  notified = if not c.failed && c.has_notifier then c.notified + 1 else c.notified;
}

unfoldable pub close_queue : Option FrameQueue → Option FrameQueue
unfolding close_admission
close_queue none = none
close_queue (some q) = some (close_admission q)

unfoldable pub close_admission_and_request_stop : Core → Core
unfolding close_queue
close_admission_and_request_stop c = record c {
  bridge_accepting = false;
  accepting_closed = true;
  stop_requested = true;
  calls = if c.stop_requested then c.calls else request_stop ∷ c.calls;
  lanes = λ id.
      if ltb id max_cameras
      then record (c.lanes id) { queue = close_queue (c.lanes id).queue }
      else c.lanes id;
}
