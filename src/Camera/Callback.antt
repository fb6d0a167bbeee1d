-- ===== src/Camera/Callback.antt =====
-- The two consumers of frames in src/camera_publisher.cpp: FrameSetTrampoline with HandleFrameSet,
-- which runs on the thread of libsc132, and WorkerLoop, which runs on a thread for each camera. Both
-- are cut at Push and Pop, where they can block.
use robo_baton_4p_ros2_demo.Prelude.{
  ℕ, zero, suc, Bool, true, false, ◌||◌, not, Option, none, some, List, [], ◌∷◌, ltb, ◌==◌,
  if◌then◌else◌, ℤ, pos, ◌==ℤ◌,
}
use robo_baton_4p_ros2_demo.Metrics.{record_source, record_drop}
use robo_baton_4p_ros2_demo.Camera.Frame.{
  FrameInfo, FrameSetItem, FrameSet, RetainedFrameJob, frame_retain, release_frame,
}
use robo_baton_4p_ros2_demo.Camera.Queue.{
  FrameQueue, Pushed, accepted, rejected, Popped, popped, closed, push, push_resume, pop,
}
use robo_baton_4p_ros2_demo.Camera.Core.{
  max_cameras, sizeof_frame_set, sizeof_frame_info, CameraCoreConfig, popping, publishing, exited,
  Core, set_lane, set_worker, camera_enabled, enabled_camera_count, record_failure,
  close_admission_and_request_stop,
}

-- Which camera ids the frame set has shown so far.
abbrev pub Seen : Type 0
Seen = ℕ → Bool

-- Where the callback stands: outside, before the next item, at the entry of Push or in its wait with
-- a job for a camera, or about to leave HandleFrameSet by an exception.
pub data Callback : Type 0 where
  outside raising : Callback
  at_items : List FrameSetItem → Seen → Callback
  at_push in_wait : RetainedFrameJob → ℕ → List FrameSetItem → Seen → Callback

abbrev take : ℕ → List FrameSetItem → List FrameSetItem
take zero items = []
take (suc n) [] = []
take (suc n) (item ∷ rest) = item ∷ take n rest

-- The check of the header, and the entry of the loop over the first `camera_count` items. `none` is a
-- null frame set.
unfoldable pub check_header : CameraCoreConfig → Option FrameSet → Callback
check_header config none = raising
check_header config (some s) =
    if not (s.struct_size == sizeof_frame_set)
      || not (s.camera_count == enabled_camera_count config)
      || s.camera_count == 0
      || ltb max_cameras s.camera_count
    then raising
    else at_items (take s.camera_count s.items) (λ id. false)

-- FrameSetTrampoline up to the loop over the items.
unfoldable pub callback_enter : Option FrameSet → Core → Callback
unfolding check_header
callback_enter frame_set c =
    if not c.bridge_accepting then outside else check_header c.config frame_set

-- What libsc132 answers for one item, and the steady clock's time at it.
pub record ItemReplies : Type 0 where
  pub info_status : ℤ
  pub info : FrameInfo
  pub retain_status : ℤ
  pub now_ns : ℕ

abbrev pub is_null : Option ℕ → Bool
is_null none = true
is_null (some p) = false

-- The metadata checks, in the order of the source.
unfoldable pub is_valid_info : ItemReplies → ℕ → Bool
is_valid_info r camera_id = not (
    not (r.info_status ==ℤ pos 0)
    || not (r.info.struct_size == sizeof_frame_info)
    || not (r.info.camera_id == camera_id)
    || is_null r.info.y_data
    || is_null r.info.uv_data
    || r.info.y_size == 0
    || r.info.uv_size == 0
    || r.info.width == 0
    || r.info.height == 0
    || r.info.stride == 0
    || r.info.vstride == 0)

abbrev pub mark : Seen → ℕ → Seen
mark seen id j = if id == j then true else seen j

unfoldable pub count_source : ItemReplies → ℕ → Core → Core
count_source r id c =
    if c.config.rate_metrics_enabled
    then (let lane = c.lanes id in
        set_lane c id (record lane {
          metrics = record_source r.info.sequence r.info.timestamp_ns r.now_ns lane.metrics;
        }))
    else c

-- From a valid item on: the metrics, the retain, and the job.
unfoldable pub retain_item : ItemReplies → ℕ → ℕ → List FrameSetItem → Seen → Core → Core × Callback
retain_item r frame id rest seen c =
    let counted = count_source r id c in
    if not (r.retain_status ==ℤ pos 0) then (counted, raising) else (
      record counted { calls = frame_retain frame ∷ counted.calls },
      at_push (record { frame = some frame; info = r.info }) id rest seen,
    )

-- The item's frame, which may be null, and its metadata.
unfoldable pub handle_frame :
    ItemReplies → Option ℕ → ℕ → List FrameSetItem → Seen → Core → Core × Callback
handle_frame r none id rest seen c = (c, raising)
handle_frame r (some frame) id rest seen c =
    if is_valid_info r id then retain_item r frame id rest (mark seen id) c else (c, raising)

-- One round of the loop, up to Push.
unfoldable pub handle_item :
    ItemReplies → FrameSetItem → List FrameSetItem → Seen → Core → Core × Callback
handle_item r item rest seen c =
    if not (camera_enabled c.config item.camera_id) || seen item.camera_id
    then (c, raising)
    else handle_frame r item.frame item.camera_id rest seen c

-- A Push that returned false destroys its job and is counted as a drop.
unfoldable pub drop_job : RetainedFrameJob → ℕ → Core → Core
drop_job job id c =
    let released = record c { calls = release_frame job.frame c.calls } in
    if c.config.rate_metrics_enabled
    then (let lane = released.lanes id in
        set_lane released id (record lane { metrics = record_drop lane.metrics }))
    else released

unfoldable pub after_push :
    FrameQueue → Pushed → RetainedFrameJob → ℕ → List FrameSetItem → Seen → Core → Core × Callback
after_push q accepted job id rest seen c =
    (set_lane c id (record (c.lanes id) { queue = some q }), at_items rest seen)
after_push q rejected job id rest seen c = (drop_job job id c, at_items rest seen)
after_push q Pushed.waits job id rest seen c = (c, in_wait job id rest seen)

abbrev pub push_stretch : Bool → RetainedFrameJob → FrameQueue → FrameQueue × Pushed
push_stretch woken job q = if woken then push_resume job q else push job q

unfoldable pub push_on :
    Option FrameQueue
    → Bool
    → RetainedFrameJob
    → ℕ
    → List FrameSetItem
    → Seen
    → Core
    → Option (Core × Callback)
push_on none woken job id rest seen c = none
push_on (some q) woken job id rest seen c =
    let (q', r) = push_stretch woken job q in some (after_push q' r job id rest seen c)

-- One stretch of Push, from its entry or from a wake. The result `none` is the dereference of a null
-- queue pointer.
unfoldable pub callback_push :
    Bool → RetainedFrameJob → ℕ → List FrameSetItem → Seen → Core → Option (Core × Callback)
callback_push woken job id rest seen c = push_on (c.lanes id).queue woken job id rest seen c

-- The `catch` of the trampoline.
unfoldable pub callback_catch : Core → Core
callback_catch c = record_failure (close_admission_and_request_stop c)

unfoldable pub after_pop : FrameQueue → Popped → ℕ → Core → Core
after_pop q (popped job) id c =
    set_lane c id (record (c.lanes id) { queue = some q; worker = publishing job })
after_pop q closed id c = set_worker c id exited
after_pop q Popped.waits id c = c

unfoldable pub pop_on : Option FrameQueue → ℕ → Core → Option Core
pop_on none id c = none
pop_on (some q) id c = let (q', r) = pop q in some (after_pop q' r id c)

-- One stretch of Pop in WorkerLoop, from its entry or from a wake; `none` is a null queue pointer.
unfoldable pub worker_pop : ℕ → Core → Option Core
worker_pop id c = pop_on (c.lanes id).queue id c

-- `sink_` returned: the job is reset and the loop goes back to Pop.
unfoldable pub worker_published : ℕ → RetainedFrameJob → Core → Core
worker_published id job c =
    set_worker (record c { calls = release_frame job.frame c.calls }) id popping

-- `sink_` threw: unwinding destroys the job, and the `catch` records the failure and closes admission.
unfoldable pub worker_failed : ℕ → RetainedFrameJob → Core → Core
worker_failed id job c =
    set_worker
      (close_admission_and_request_stop
        (record_failure (record c { calls = release_frame job.frame c.calls })))
      id exited
