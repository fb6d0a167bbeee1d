-- ===== src/Camera/System.antt =====
-- The threads of CameraLifecycleCore (src/camera_publisher.cpp) as a step relation: the owner, which
-- calls Start and Cleanup under `lifecycle_mutex_`, the thread of libsc132, which delivers frame sets
-- one after the other, and a worker for each camera.
--
-- A step is a stretch of one thread up to the next point at which it can block or another thread can
-- tell the difference; Start up to its return or its joins is one step, and so is a stop request with
-- the closing of the queues. The steps choose what libsc132 answers, which frame sets come, whether a
-- publication throws, and whether a join fails.
pub mod Inv
pub mod Ownership
pub mod Safety
pub mod Calls
pub mod Ending
pub mod Completion
use robo_baton_4p_ros2_demo.Prelude.{
  ℕ, ◌<◌, ◌≡◌, ◌⊎◌, Bool, true, false, Option, none, some, List, [], ◌∷◌,
}
use robo_baton_4p_ros2_demo.Camera.Frame.{FrameSetItem, FrameSet, RetainedFrameJob}
use robo_baton_4p_ros2_demo.Camera.Core.{
  max_cameras, CameraCoreConfig, Worker, absent, popping, publishing, exited, joined, Core,
  new_core,
}
use robo_baton_4p_ros2_demo.Camera.Lifecycle.{
  StartReplies, StartOutcome, refused, started, cleans_up, start, CleanupEntry, returns, joins,
  cleanup_begin, cleanup_join_failed, cleanup_finish,
}
use robo_baton_4p_ros2_demo.Camera.Callback.{
  Callback, outside, raising, at_items, at_push, in_wait, Seen, ItemReplies, callback_enter,
  handle_item, callback_push, callback_catch, worker_pop, worker_published, worker_failed,
}

-- The owner is outside Start and Cleanup, or at the joins of CleanupLocked.
pub data Owner : Type 0 where
  idle joining : Owner

pub record System : Type 0 where
  pub core : Core
  pub callback : Callback
  pub owner : Owner

unfoldable pub initial : System
initial = record { core = new_core; callback = outside; owner = idle }

-- CleanupLocked up to its return or its joins.
abbrev pub entered : Callback → Core × CleanupEntry → System
entered cb (c, returns b) = record { core = c; callback = cb; owner = idle }
entered cb (c, joins) = record { core = c; callback = cb; owner = joining }

abbrev pub after_start : Callback → Core × StartOutcome → System
after_start cb (c, refused) = record { core = c; callback = cb; owner = idle }
after_start cb (c, started) = record { core = c; callback = cb; owner = idle }
after_start cb (c, cleans_up) = entered cb (cleanup_begin c)

-- The workers that `join` waits for no more.
abbrev pub IsDone : Worker → Type 0
IsDone w = (w ≡ absent) ⊎ ((w ≡ exited) ⊎ (w ≡ joined))

pub data Step (s : System) : System → Type 0 where
  starts :
      (config : CameraCoreConfig) (r : StartReplies)
      → s.owner ≡ idle
      → Step s (after_start s.callback (start config r s.core))
  cleans : s.owner ≡ idle → Step s (entered s.callback (cleanup_begin s.core))
  -- `sc132_stop` returns when no callback is under way.
  finishes :
      s.owner ≡ joining
      → ((id : ℕ) → id < max_cameras → IsDone (s.core.lanes id).worker)
      → s.callback ≡ outside
      → Step s (record s { core = (cleanup_finish s.core).0; owner = idle })
  join_fails :
      s.owner ≡ joining → Step s (record s { core = (cleanup_join_failed s.core).0; owner = idle })
  delivers :
      (frame_set : Option FrameSet)
      → s.callback ≡ outside
      → Step s (record s { callback = callback_enter frame_set s.core })
  handles :
      (r : ItemReplies) (item : FrameSetItem) (rest : List FrameSetItem) (seen : Seen)
      → s.callback ≡ at_items (item ∷ rest) seen
      → Step s (record s {
        core = (handle_item r item rest seen s.core).0;
        callback = (handle_item r item rest seen s.core).1;
      })
  leaves : (seen : Seen) → s.callback ≡ at_items [] seen → Step s (record s { callback = outside })
  enters_push :
      (job : RetainedFrameJob) (id : ℕ) (rest : List FrameSetItem) (seen : Seen)
      → (c : Core) (cb : Callback) → s.callback ≡ at_push job id rest seen
      → callback_push false job id rest seen s.core ≡ some (c, cb)
      → Step s (record s { core = c; callback = cb })
  wakes_push :
      (job : RetainedFrameJob) (id : ℕ) (rest : List FrameSetItem) (seen : Seen)
      → (c : Core) (cb : Callback) → s.callback ≡ in_wait job id rest seen
      → callback_push true job id rest seen s.core ≡ some (c, cb)
      → Step s (record s { core = c; callback = cb })
  catches :
      s.callback ≡ raising → Step s (record s { core = callback_catch s.core; callback = outside })
  pops :
      (id : ℕ) (c : Core)
      → (s.core.lanes id).worker ≡ popping
      → worker_pop id s.core ≡ some c
      → Step s (record s { core = c })
  publishes :
      (id : ℕ) (job : RetainedFrameJob)
      → (s.core.lanes id).worker ≡ publishing job
      → Step s (record s { core = worker_published id job s.core })
  fails :
      (id : ℕ) (job : RetainedFrameJob)
      → (s.core.lanes id).worker ≡ publishing job
      → Step s (record s { core = worker_failed id job s.core })

-- The systems that are reached from the constructed core.
pub data Reach : System → Type 0 where
  constructed : Reach initial
  later : {s t : System} → Reach s → Step s t → Reach t
