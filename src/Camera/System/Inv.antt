-- ===== src/Camera/System/Inv.antt =====
-- What holds of the core between any two steps of its threads.
mod Defs
mod Start
mod Moves
pub use Defs.*
use robo_baton_4p_ros2_demo.Prelude.{
  ℕ, ◌≤◌, ◌<◌, ◌≡◌, ◌⊎◌, inl, inr, refl, Bool, true, false, ◌&&◌, ◌||◌, not, Option, none, some,
  List, [], ◌∷◌, arith, ltb, ◌==◌, if◌then◌else◌, Bool-cases,
}
use robo_baton_4p_ros2_demo.Camera.Frame.{Call, FrameSetItem, FrameSet, RetainedFrameJob}
use robo_baton_4p_ros2_demo.Camera.Queue.{FrameQueue, is_empty, push, push_resume, pop}
use robo_baton_4p_ros2_demo.Camera.Core.{
  max_cameras, CameraCoreConfig, Worker, absent, popping, publishing, exited, joined, Lane, Core,
  new_core, camera_enabled, validate_config, record_failure, close_admission_and_request_stop,
  close_queue,
}
use robo_baton_4p_ros2_demo.Camera.Lifecycle.{
  StartReplies, StartOutcome, refused, started, cleans_up, start, CleanupEntry, returns, joins,
  cleanup_begin, cleanup_join_failed, cleanup_finish, detach_queue, start_workers,
  initialize_queues, start_producer, is_ok, throws_at, thread_limit,
}
use robo_baton_4p_ros2_demo.Camera.Callback.{
  Callback, outside, raising, at_items, at_push, in_wait, Seen, ItemReplies, callback_enter,
  handle_item, callback_push, callback_catch, worker_pop, worker_published, worker_failed,
}
use robo_baton_4p_ros2_demo.Camera.System.{
  Owner, idle, joining, System, initial, entered, after_start, IsDone, Step, starts, cleans,
  finishes, join_fails, delivers, handles, leaves, enters_push, wakes_push, catches, pops,
  publishes, fails, Reach, constructed, later,
}
use Start.{
  initial-Inv, cleanup_begin-Inv, start_core-Inv, after_start-Inv, cleanup_finish-Inv,
  join_failed-Inv,
}
use Moves.{
  callback_enter-Inv, handle_item-Inv, callback_push-Inv, callback_catch-Inv, worker_pop-Inv,
  worker_published-Inv, worker_failed-Inv, leaves-Inv,
}

abbrev pub SystemInv : System → Type 0
SystemInv s = Inv s.core s.callback s.owner

-- Every step of the owner, of the callback and of a worker keeps the invariant.
pub Step-Inv : {s t : System} → Step s t → SystemInv s → SystemInv t
Step-Inv {s} (starts config r e) v =
    after_start-Inv s.callback (start config r s.core).0 (start config r s.core).1
      (start_core-Inv config r s.core s.callback (rw e at v))
Step-Inv {s} (cleans e) v = cleanup_begin-Inv s.core s.callback (rw e at v)
Step-Inv {s} (finishes e d o) v = cleanup_finish-Inv s.core s.callback (rw o refl) (rw e at v)
Step-Inv {s} (join_fails e) v = join_failed-Inv s.core s.callback (rw e at v)
Step-Inv {s} (delivers fs e) v = callback_enter-Inv fs s.core s.owner (rw e at v)
Step-Inv {s} (handles r item rest seen e) v =
    handle_item-Inv r item rest seen s.core s.owner (rw e at v)
Step-Inv {s} (leaves seen e) v = leaves-Inv seen s.core s.owner (rw e at v)
Step-Inv {s} (enters_push job id rest seen c cb e h) v =
    callback_push-Inv false job id rest seen s.core s.callback s.owner c cb (rw e refl)
      (rw e at (v.pushing)) h v
Step-Inv {s} (wakes_push job id rest seen c cb e h) v =
    callback_push-Inv true job id rest seen s.core s.callback s.owner c cb (rw e refl)
      (rw e at (v.pushing)) h v
Step-Inv {s} (catches e) v = callback_catch-Inv s.core s.owner (rw e at v)
Step-Inv {s} (pops id c w h) v = worker_pop-Inv id s.core s.callback s.owner c w h v
Step-Inv {s} (publishes id job w) v = worker_published-Inv id job s.core s.callback s.owner w v
Step-Inv {s} (fails id job w) v = worker_failed-Inv id job s.core s.callback s.owner w v

pub Reach-Inv : {s : System} → Reach s → SystemInv s
unfolding initial
Reach-Inv constructed = initial-Inv
Reach-Inv (later r st) = Step-Inv st (Reach-Inv r)
