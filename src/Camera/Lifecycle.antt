-- ===== src/Camera/Lifecycle.antt =====
-- Start and Cleanup of CameraLifecycleCore (src/camera_publisher.cpp), in the stretches between two
-- points at which a thread can block. Both hold `lifecycle_mutex_` throughout.
use robo_baton_4p_ros2_demo.Prelude.{
  ℕ, Bool, true, false, ◌&&◌, ◌||◌, not, Option, none, some, List, [], ◌∷◌, ltb, if◌then◌else◌, ℤ,
  pos, ◌==ℤ◌,
}
use robo_baton_4p_ros2_demo.Camera.Frame.{
  RetainedFrameJob, Call, FrameSetConfig, set_fps, set_output_rotation, start_frame_set, stop,
  release_frame,
}
use robo_baton_4p_ros2_demo.Camera.Queue.{FrameQueue, new_queue, stop_and_detach}
use robo_baton_4p_ros2_demo.Camera.Core.{
  max_cameras, CameraCoreConfig, Worker, absent, popping, joined, Core, validate_config,
  camera_enabled, enabled_camera_count, record_failure, close_admission_and_request_stop,
}

unfoldable pub initialize_queues : Core → Core
initialize_queues c = record c {
  lanes = λ id.
      if camera_enabled c.config id
      then record (c.lanes id) {
        queue = some (new_queue c.config.queue_capacity c.config.drop_newest);
      }
      else c.lanes id;
}

-- The loop of StartWorkers up to a camera id.
unfoldable pub start_workers : ℕ → Core → Core
start_workers limit c = record c {
  lanes = λ id.
      if camera_enabled c.config id && ltb id limit
      then record (c.lanes id) { worker = popping }
      else c.lanes id;
}

-- The jobs of the detached queues are destroyed, camera by camera and oldest first.
abbrev pub release_all : List RetainedFrameJob → List Call → List Call
release_all [] calls = calls
release_all (job ∷ rest) calls = release_all rest (release_frame job.frame calls)

abbrev pub queued : Option FrameQueue → List RetainedFrameJob
queued none = []
queued (some q) = q.queue

unfoldable pub detach_queue : Option FrameQueue → Option FrameQueue
unfolding stop_and_detach
detach_queue none = none
detach_queue (some q) = some (stop_and_detach q).0

-- CleanupLocked from its entry to the joins.
unfoldable pub detach_queues : Core → Core
unfolding detach_queue
detach_queues c = record c {
  lanes = λ id.
      if ltb id max_cameras
      then record (c.lanes id) { queue = detach_queue (c.lanes id).queue }
      else c.lanes id;
  calls = release_all (queued (c.lanes 3).queue) (
      release_all (queued (c.lanes 2).queue)
        (release_all (queued (c.lanes 1).queue) (release_all (queued (c.lanes 0).queue) c.calls)));
}

-- What CleanupLocked does first: it returns at once, or it goes on to join the workers.
pub data CleanupEntry : Type 0 where
  returns : Bool → CleanupEntry
  joins : CleanupEntry

unfoldable pub cleanup_begin : Core → Core × CleanupEntry
unfolding close_admission_and_request_stop detach_queues
cleanup_begin c =
    if not c.start_claimed
    then (c, returns true)
    else if c.cleanup_complete
    then (c, returns c.cleanup_quiesced)
    else (detach_queues (close_admission_and_request_stop (record c { terminal = true })), joins)

-- From the joins on. A `std::system_error` of a join makes CleanupLocked return false.
unfoldable pub cleanup_join_failed : Core → Core × Bool
unfolding record_failure
cleanup_join_failed c = (record_failure (record c { cleanup_quiesced = false }), false)

abbrev join_worker : Worker → Worker
join_worker absent = absent
join_worker _ = joined

unfoldable pub cleanup_finish : Core → Core × Bool
cleanup_finish c = (
  record c {
    lanes = λ id.
        if ltb id max_cameras
        then record (c.lanes id) { worker = join_worker (c.lanes id).worker }
        else c.lanes id;
    calls = stop ∷ stop ∷ c.calls;
    running = false;
    cleanup_quiesced = true;
    cleanup_complete = true;
    has_sink = false;
    has_notifier = false;
  },
  true,
)

-- How Start ends or goes on: it returns, or an exception takes it to CleanupLocked.
pub data StartOutcome : Type 0 where
  refused started cleans_up : StartOutcome

-- What libsc132 answers to the calls of Start, and the camera at which the creation of a thread
-- throws, if it does.
pub record StartReplies : Type 0 where
  pub thread_throws_at : Option ℕ
  pub set_fps_status : ℤ
  pub set_output_rotation_status : ℤ
  pub start_frame_set_status : ℤ

abbrev pub is_ok : ℤ → Bool
is_ok status = status ==ℤ pos 0

abbrev pub throws_at : CameraCoreConfig → Option ℕ → Bool
throws_at c none = false
throws_at c (some id) = camera_enabled c id

abbrev pub thread_limit : CameraCoreConfig → Option ℕ → ℕ
thread_limit c none = max_cameras
thread_limit c (some id) = if camera_enabled c id then id else max_cameras

unfoldable pub producer_config : CameraCoreConfig → FrameSetConfig
producer_config c = record {
  camera_count = enabled_camera_count c;
  width = c.width;
  height = c.height;
  timeout_ms = c.timeout_ms;
  max_skew_ns = c.max_skew_ns;
}

-- The body of the `try` of Start, with the `catch` up to CleanupLocked.
unfoldable pub start_producer : StartReplies → Core → Core × StartOutcome
unfolding initialize_queues start_workers record_failure
start_producer r c =
    let ready = record (initialize_queues c) { bridge_accepting = true } in
    let fps_set = record ready { calls = set_fps c.config.fps ∷ ready.calls } in
    let turned = record fps_set { calls = set_output_rotation c.config.rotation ∷ fps_set.calls } in
    let threads = start_workers (thread_limit c.config r.thread_throws_at) turned in
    let asked = record threads {
      start_attempted = true;
      calls = start_frame_set (producer_config c.config) c.config.camera_mask ∷ threads.calls;
    } in
    if not (is_ok r.set_fps_status)
    then (record_failure fps_set, cleans_up)
    else if not (is_ok r.set_output_rotation_status)
    then (record_failure turned, cleans_up)
    else if throws_at c.config r.thread_throws_at
    then (record_failure threads, cleans_up)
    else if not (is_ok r.start_frame_set_status)
    then (record_failure asked, cleans_up)
    else (record asked { running = true }, started)

-- Start up to its return or to its call of CleanupLocked, after which it returns false.
unfoldable pub start : CameraCoreConfig → StartReplies → Core → Core × StartOutcome
unfolding start_producer record_failure
start config r c =
    let claimed = record c {
      start_claimed = true;
      config = config;
      has_sink = true;
      has_notifier = true;
    } in
    if c.start_claimed || c.terminal
    then (c, refused)
    else if not (validate_config config)
    then (record_failure claimed, cleans_up)
    else start_producer r claimed
