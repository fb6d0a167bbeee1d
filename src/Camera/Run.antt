-- ===== src/Camera/Run.antt =====
-- One run of the camera core: it starts, one frame comes, its publication throws, and the core cleans
-- up; and a cleanup that begins while the callback is about to push the frame.
use robo_baton_4p_ros2_demo.Prelude.{
  ℕ, zero, suc, ◌<◌, ◌≡◌, refl, inl, inr, true, false, Option, none, some, List, [], ◌∷◌, pos,
  arith,
}
use robo_baton_4p_ros2_demo.Camera.Frame.{FrameInfo, FrameSetItem, FrameSet, RetainedFrameJob}
use robo_baton_4p_ros2_demo.Camera.Queue.{FrameQueue, new_queue, push, pop}
use robo_baton_4p_ros2_demo.Camera.Core.{
  max_cameras, sizeof_frame_set, sizeof_frame_info, default_core_config, validate_config, popping,
  Core, new_core,
}
use robo_baton_4p_ros2_demo.Camera.Lifecycle.{StartReplies, start, cleanup_begin, cleanup_finish}
use robo_baton_4p_ros2_demo.Camera.Callback.{
  Callback, outside, at_items, at_push, Seen, mark, ItemReplies, callback_enter, handle_item,
  handle_frame, is_valid_info, retain_item, count_source, callback_push, push_on, after_push,
  pop_on, after_pop, worker_pop, worker_failed,
}
use robo_baton_4p_ros2_demo.Camera.System.{
  idle, joining, System, initial, starts, cleans, finishes, delivers, handles, leaves, enters_push,
  pops as pops_job, fails, IsDone, Reach, constructed, later,
}

abbrev good_replies : StartReplies
good_replies = record {
  thread_throws_at = none;
  set_fps_status = pos 0;
  set_output_rotation_status = pos 0;
  start_frame_set_status = pos 0;
}

abbrev good_info : FrameInfo
good_info = record {
  struct_size = sizeof_frame_info;
  camera_id = 0;
  sequence = 1;
  frame_id = 1;
  timestamp_ns = 1000;
  y_data = some 4096;
  uv_data = some 8192;
  y_size = 16;
  uv_size = 8;
  width = 4;
  height = 4;
  stride = 4;
  vstride = 4;
}

abbrev good_item : ItemReplies
good_item = record { info_status = pos 0; info = good_info; retain_status = pos 0; now_ns = 2000 }

-- The frame with handle 7 from camera 0.
abbrev item_7 : FrameSetItem
item_7 = record { frame = some 7; camera_id = 0 }

abbrev set_7 : FrameSet
set_7 = record { struct_size = sizeof_frame_set; camera_count = 1; items = item_7 ∷ [] }

abbrev pub job_7 : RetainedFrameJob
job_7 = record { frame = some 7; info = good_info }

abbrev pub seen_0 : Seen
seen_0 = mark (λ id. false) 0

abbrev pub queue_of : List RetainedFrameJob → FrameQueue
queue_of jobs = record { capacity = 2; drop_newest = false; queue = jobs; stopped = false }

-- The states of the run, each a step after the one before.
abbrev core_started : Core
core_started = (start default_core_config good_replies new_core).0

abbrev at : Core → Callback → System
at c cb = record { core = c; callback = cb; owner = idle }

-- The state after a stretch that follows no null pointer.
abbrev pub taken {ℓ} : {A : Type ℓ} → Option A → A → A
taken none x = x
taken (some y) x = y

abbrev pub core_handled : Core
core_handled = (handle_item good_item item_7 [] (λ id. false) core_started).0

abbrev pub core_pushed : Core
core_pushed = (taken (callback_push false job_7 0 [] seen_0 core_handled) (core_handled, outside)).0

-- The worker has the job.
abbrev pub core_popped : Core
core_popped = taken (worker_pop 0 core_pushed) core_pushed

-- The publication throws.
abbrev core_failed : Core
core_failed = worker_failed 0 job_7 core_popped

abbrev core_stopping : Core
core_stopping = (cleanup_begin core_failed).0

abbrev pub core_cleaned : Core
core_cleaned = (cleanup_finish core_stopping).0

-- A cleanup that begins while the callback is about to push.
abbrev pub core_interrupted : Core
core_interrupted = (cleanup_begin core_handled).0

started_run : Reach (at core_started outside)
unfolding initial new_core default_core_config start validate_config
started_run = later constructed (starts default_core_config good_replies refl)

delivered_run : Reach (at core_started (at_items (item_7 ∷ []) (λ id. false)))
unfolding initial new_core default_core_config start validate_config callback_enter
delivered_run = later started_run (delivers (some set_7) refl)

pub handled_run : Reach (at core_handled (at_push job_7 0 [] seen_0))
unfolding initial new_core default_core_config start validate_config handle_item handle_frame
    is_valid_info retain_item count_source
handled_run = later delivered_run (handles good_item item_7 [] (λ id. false) refl)

pushed_run : Reach (at core_pushed (at_items [] seen_0))
unfolding initial new_core default_core_config start validate_config handle_item handle_frame
    is_valid_info retain_item count_source callback_push push_on after_push push new_queue
pushed_run =
    later handled_run (enters_push job_7 0 [] seen_0 core_pushed (at_items [] seen_0) refl refl)

pub left_run : Reach (at core_pushed outside)
left_run = later pushed_run (leaves seen_0 refl)

pub popped_run : Reach (at core_popped outside)
unfolding initial new_core default_core_config start validate_config handle_item handle_frame
    is_valid_info retain_item count_source callback_push push_on after_push push new_queue
    worker_pop pop_on after_pop pop
popped_run = later left_run (pops_job 0 core_popped refl refl)

failed_run : Reach (at core_failed outside)
unfolding initial new_core default_core_config start validate_config handle_item handle_frame
    is_valid_info retain_item count_source callback_push push_on after_push push new_queue
    worker_pop pop_on after_pop pop
failed_run = later popped_run (fails 0 job_7 refl)

stopping_run : Reach (record { core = core_stopping; callback = outside; owner = joining })
unfolding initial new_core default_core_config start validate_config handle_item handle_frame
    is_valid_info retain_item count_source callback_push push_on after_push push new_queue
    worker_pop pop_on after_pop pop worker_failed cleanup_begin
stopping_run = later failed_run (cleans refl)

all-IsDone : (id : ℕ) → id < max_cameras → IsDone (core_stopping.lanes id).worker
unfolding initial new_core default_core_config start validate_config handle_item handle_frame
    is_valid_info retain_item count_source callback_push push_on after_push push new_queue
    worker_pop pop_on after_pop pop worker_failed cleanup_begin
all-IsDone zero h = inr (inl refl)
all-IsDone (suc zero) h = inl refl
all-IsDone (suc (suc zero)) h = inl refl
all-IsDone (suc (suc (suc zero))) h = inl refl
all-IsDone (suc (suc (suc (suc id)))) h = absurd (omega (arith, h))

pub cleaned_run : Reach (at core_cleaned outside)
unfolding initial new_core default_core_config start validate_config handle_item handle_frame
    is_valid_info retain_item count_source callback_push push_on after_push push new_queue
    worker_pop pop_on after_pop pop worker_failed cleanup_begin
cleaned_run = later stopping_run (finishes refl all-IsDone refl)

pub interrupted_run :
    Reach
      (record { core = core_interrupted; callback = at_push job_7 0 [] seen_0; owner = joining })
unfolding initial new_core default_core_config start validate_config handle_item handle_frame
    is_valid_info retain_item count_source cleanup_begin
interrupted_run = later handled_run (cleans refl)

pub at_pop : (core_pushed.lanes 0).worker ≡ popping
unfolding initial new_core default_core_config start validate_config handle_item handle_frame
    is_valid_info retain_item count_source callback_push push_on after_push push new_queue
    worker_pop pop_on after_pop pop
at_pop = refl

pub interrupted_terminal : core_interrupted.terminal ≡ true
unfolding initial new_core default_core_config start validate_config handle_item handle_frame
    is_valid_info retain_item count_source callback_push push_on after_push push new_queue
    worker_pop pop_on after_pop pop cleanup_begin
interrupted_terminal = refl

pub interrupted_at_pop : (core_interrupted.lanes 0).worker ≡ popping
unfolding initial new_core default_core_config start validate_config handle_item handle_frame
    is_valid_info retain_item count_source callback_push push_on after_push push new_queue
    worker_pop pop_on after_pop pop cleanup_begin
interrupted_at_pop = refl
