-- ===== src/Camera/System/Safety.antt =====
-- What no thread of the core does: it follows no null queue pointer, and it does not block once the
-- shutdown has begun.
use robo_baton_4p_ros2_demo.Prelude.{ℕ, ◌≡◌, ◌⊎◌, ◌≢◌, Bool, true, none, some, List, arith}
use robo_baton_4p_ros2_demo.Camera.Frame.{FrameSetItem, RetainedFrameJob}
use robo_baton_4p_ros2_demo.Camera.Queue.{push, push_resume, pop}
use robo_baton_4p_ros2_demo.Camera.Core.{popping, exited, set_worker}
use robo_baton_4p_ros2_demo.Camera.Callback.{
  at_items, at_push, in_wait, Seen, push_on, pop_on, drop_job, after_push, after_pop, callback_push,
  worker_pop,
}
use robo_baton_4p_ros2_demo.Camera.System.{System, Reach}
use robo_baton_4p_ros2_demo.Camera.System.Inv.{Reach-Inv}

-- In every reachable state in which the callback is at the entry of Push or in its wait with a job for a
-- camera, that camera has a queue: neither stretch of Push follows a null pointer.
pub push_has_queue :
    {s : System} (woken : Bool) (job : RetainedFrameJob) (id : ℕ) (rest : List FrameSetItem)
    (seen : Seen)
    → Reach s
    → (s.callback ≡ at_push job id rest seen) ⊎ (s.callback ≡ in_wait job id rest seen)
    → callback_push woken job id rest seen s.core ≢ none
unfolding callback_push push_on
push_has_queue {s} woken job id rest seen r at =
    let v = Reach-Inv r in ground (arith, v.pushing, v.lane id)

-- In every reachable state in which the worker of a camera is at Pop, the camera has a queue: Pop
-- follows no null pointer.
pub pop_has_queue :
    {s : System} (id : ℕ)
    → Reach s
    → (s.core.lanes id).worker ≡ popping
    → worker_pop id s.core ≢ none
unfolding worker_pop pop_on
pop_has_queue {s} id r w = let v = Reach-Inv r in ground (arith, v.lane id)

-- In a reachable state in which a shutdown has begun, a callback that is at the entry of Push or in its
-- wait does not wait: it gives its job back as a drop, leaves the queue as it is, and goes on to the
-- next item.
pub shutdown_ends_push :
    {s : System} (woken : Bool) (job : RetainedFrameJob) (id : ℕ) (rest : List FrameSetItem)
    (seen : Seen)
    → Reach s
    → s.core.terminal ≡ true
    → (s.callback ≡ at_push job id rest seen) ⊎ (s.callback ≡ in_wait job id rest seen)
    → callback_push woken job id rest seen s.core
      ≡ some (drop_job job id s.core, at_items rest seen)
unfolding callback_push push_on after_push push push_resume
shutdown_ends_push {s} woken job id rest seen r t at =
    let v = Reach-Inv r in ground (arith, v.pushing, v.lane id, (v.lane id).closed t)

-- In a reachable state in which a shutdown has begun, a worker that is at Pop does not wait: it leaves
-- its loop, and nothing else changes.
pub shutdown_ends_pop :
    {s : System} (id : ℕ)
    → Reach s
    → s.core.terminal ≡ true
    → (s.core.lanes id).worker ≡ popping
    → worker_pop id s.core ≡ some (set_worker s.core id exited)
unfolding worker_pop pop_on after_pop pop
shutdown_ends_pop {s} id r t w =
    let v = Reach-Inv r in ground (arith, v.lane id, (v.lane id).closed t)
