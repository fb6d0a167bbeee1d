-- ===== src/Camera/System/Ownership.antt =====
-- The references to frames: none is lost, and none is given back twice.
mod Defs
mod Start
mod Moves
mod Workers
unfoldable pub use Defs.*
use robo_baton_4p_ros2_demo.Prelude.{
  ℕ, ◌+◌, ◌≤◌, ◌<◌, ◌≡◌, ◌⊎◌, inl, inr, refl, Bool, true, false, ◌&&◌, ◌||◌, not, Option, none,
  some, List, [], ◌∷◌, ◌++◌, arith, ltb, ◌==◌, if◌then◌else◌, Bool-cases, ap,
}
use robo_baton_4p_ros2_demo.Camera.Frame.{
  Call, set_fps, set_output_rotation, FrameSetItem, FrameSet, RetainedFrameJob, holds, retains,
  releases, release_frame,
}
use robo_baton_4p_ros2_demo.Camera.Queue.{FrameQueue, new_queue, is_empty, push, push_resume, pop}
use robo_baton_4p_ros2_demo.Camera.Core.{
  max_cameras, CameraCoreConfig, Worker, absent, popping, publishing, exited, joined, Lane, Core,
  new_core, camera_enabled, update, validate_config, record_failure,
  close_admission_and_request_stop, close_queue,
}
use robo_baton_4p_ros2_demo.Camera.Lifecycle.{
  StartReplies, StartOutcome, refused, started, cleans_up, start, CleanupEntry, returns, joins,
  cleanup_begin, cleanup_join_failed, cleanup_finish, detach_queue, detach_queues, release_all,
  queued, start_workers, initialize_queues, start_producer, is_ok, throws_at, thread_limit,
}
use robo_baton_4p_ros2_demo.Camera.Callback.{
  Callback, outside, raising, at_items, at_push, in_wait, Seen, ItemReplies, callback_enter,
  handle_item, callback_push, callback_catch, worker_pop, worker_published, worker_failed,
}
use robo_baton_4p_ros2_demo.Camera.System.{
  Owner, idle, joining, System, initial, entered, after_start, IsDone, Step, starts, cleans,
  finishes, join_fails, delivers, handles, leaves, enters_push, wakes_push, catches, pops,
  publishes, fails, Reach, constructed, later,
}
use robo_baton_4p_ros2_demo.Camera.System.Inv.{
  has_queue, is_closed, is_absent, is_done, is_outside, pushes_enabled, is_joining, LaneOk, FlagsOk,
  active, Inv, SystemInv, Reach-Inv, Step-Inv,
}
use Start.{cleanup_begin-Balanced, cleanup_finish-Balanced, join_failed-Balanced, start-Balanced}
use Moves.{
  callback_enter-Balanced, handle_item-Balanced, callback_push-Balanced, callback_catch-Balanced,
}
use Workers.{worker_pop-Balanced, worker_published-Balanced, worker_failed-Balanced}

idle_lane-held :
    (f : ℕ) (lane : Lane)
    → is_closed lane.queue ≡ true
    → is_done lane.worker ≡ true
    → held_lane f lane ≡ 0
unfolding held_lane held_jobs
idle_lane-held f lane q w = ground arith

outside-held : (f : ℕ) (cb : Callback) → is_outside cb ≡ true → held_callback f cb ≡ 0
outside-held f cb h = ground arith

abbrev AllBalanced : System → Type 0
AllBalanced s = (f : ℕ) → Balanced f s.core s.callback

enabled_in_range : (config : CameraCoreConfig) (id : ℕ) → camera_enabled config id ≡ true → id < 4
enabled_in_range config id h = ground arith

initial-Balanced : (f : ℕ) → Balanced f new_core outside
unfolding new_core held_lane held_jobs
initial-Balanced f = omega arith

-- A camera whose worker is not absent has one of the four ids.
worker_in_range :
    (c : Core) (a : Bool) (id : ℕ) → LaneOk c a id → is_absent (c.lanes id).worker ≡ false → id < 4
worker_in_range c a id v w = ground arith

Step-Balanced : {s t : System} → Step s t → SystemInv s → AllBalanced s → AllBalanced t
Step-Balanced {s} (starts config r e) v b f =
    start-Balanced f config r s.core s.callback (rw e at v) (b f)
Step-Balanced {s} (cleans e) v b f = cleanup_begin-Balanced f s.core s.callback (b f)
Step-Balanced {s} (finishes e d o) v b f = cleanup_finish-Balanced f s.core s.callback d (b f)
Step-Balanced {s} (join_fails e) v b f = join_failed-Balanced f s.core s.callback (b f)
Step-Balanced {s} (delivers fs e) v b f = callback_enter-Balanced f fs s.core (rw e at (b f))
Step-Balanced {s} (handles r item rest seen e) v b f =
    handle_item-Balanced f r item rest seen s.core (rw e at (b f))
Step-Balanced {s} (leaves seen e) v b f = rw e at (b f)
Step-Balanced {s} (enters_push job id rest seen c cb e h) v b f =
    callback_push-Balanced f false job id rest seen s.core s.callback c cb
      (enabled_in_range s.core.config id (rw e at (v.pushing))) (ap (held_callback f) e) h (b f)
Step-Balanced {s} (wakes_push job id rest seen c cb e h) v b f =
    callback_push-Balanced f true job id rest seen s.core s.callback c cb
      (enabled_in_range s.core.config id (rw e at (v.pushing))) (ap (held_callback f) e) h (b f)
Step-Balanced {s} (catches e) v b f = callback_catch-Balanced f s.core (rw e at (b f))
Step-Balanced {s} (pops id c w h) v b f =
    worker_pop-Balanced f id s.core s.callback c
      (worker_in_range s.core _ id (v.lane id) (ap is_absent w)) w h (b f)
Step-Balanced {s} (publishes id job w) v b f =
    worker_published-Balanced f id job s.core s.callback
      (worker_in_range s.core _ id (v.lane id) (ap is_absent w)) w (b f)
Step-Balanced {s} (fails id job w) v b f =
    worker_failed-Balanced f id job s.core s.callback
      (worker_in_range s.core _ id (v.lane id) (ap is_absent w)) w (b f)

-- In every state that the threads can reach, each frame has been retained as often as it has been
-- given back and is held by a queue, a worker or the callback together: no reference is lost, and none
-- is given back that is not held.
pub Reach-Balanced :
    {s : System}
    → Reach s
    → (f : ℕ) → retains f s.core.calls ≡ releases f s.core.calls + held f s.core s.callback
unfolding initial
Reach-Balanced constructed f = initial-Balanced f
Reach-Balanced (later r st) f = Step-Balanced st (Reach-Inv r) (Reach-Balanced r) f

-- Once a cleanup is complete in a reachable state, every frame has been given back exactly as often as it was retained.
pub quiescent-released :
    {s : System}
    → Reach s
    → s.core.cleanup_complete ≡ true
    → (f : ℕ) → releases f s.core.calls ≡ retains f s.core.calls
quiescent-released {s} r h f =
    let v = Reach-Inv r in
    let (ended, out, _) = v.flags.cleaned h in
    let nothing = λ (id : ℕ).
      idle_lane-held f (s.core.lanes id) ((v.lane id).closed ended) ((v.lane id).complete h) in
    omega (
      arith,
      Reach-Balanced r f,
      nothing 0,
      nothing 1,
      nothing 2,
      nothing 3,
      outside-held f s.callback out,
    )

-- A core that was never claimed has taken no frame that it has not given back.
pub unclaimed-released :
    {s : System}
    → Reach s
    → s.core.start_claimed ≡ false
    → (f : ℕ) → releases f s.core.calls ≡ retains f s.core.calls
unclaimed-released {s} r h f =
    let v = Reach-Inv r in
    let nothing = λ (id : ℕ).
      let (idle_worker, no_queue) = (v.lane id).blank h in
      blank-held f (s.core.lanes id) no_queue idle_worker in
    omega (
      arith,
      Reach-Balanced r f,
      nothing 0,
      nothing 1,
      nothing 2,
      nothing 3,
      outside-held f s.callback (v.flags.unclaimed h).0,
    )
