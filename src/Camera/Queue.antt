-- ===== src/Camera/Queue.antt =====
-- FrameQueue of src/camera_publisher.cpp: Push, Pop, CloseAdmission and StopAndDetach.
--
-- A call holds the mutex from its entry to its return or to its wait, and again from its wake to its
-- return or to its next wait. Each such stretch is one step, `push` and `pop`; `waits` says that the
-- predicate of the condition variable is false, so the call stays blocked and the queue is unchanged.
pub mod Laws
pub mod Fifo
use robo_baton_4p_ros2_demo.Prelude.{
  ℕ, Bool, true, false, ◌&&◌, ◌||◌, not, Option, List, [], ◌∷◌, ◌++◌, ltb, leb, if◌then◌else◌,
  length,
}
use robo_baton_4p_ros2_demo.Camera.Frame.{RetainedFrameJob}

pub record FrameQueue : Type 0 where
  pub capacity : ℕ
  pub drop_newest : Bool
  pub queue : List RetainedFrameJob
  pub stopped : Bool

-- What a stretch of Push does: it returns true, it returns false, or it waits.
pub data Pushed : Type 0 where
  accepted rejected waits : Pushed

-- What a stretch of Pop does: it returns true with a job, it returns false, or it waits.
pub data Popped : Type 0 where
  popped : RetainedFrameJob → Popped
  closed waits : Popped

unfoldable pub new_queue : ℕ → Bool → FrameQueue
new_queue capacity drop_newest = record {
  capacity = capacity;
  drop_newest = drop_newest;
  queue = [];
  stopped = false;
}

-- From a wake of `not_full_` on: the predicate, the second test of `stopped_`, and the insertion.
unfoldable pub push_resume : RetainedFrameJob → FrameQueue → FrameQueue × Pushed
push_resume job q =
    if not (q.stopped || ltb (length q.queue) q.capacity)
    then (q, Pushed.waits)
    else if q.stopped
    then (q, rejected)
    else (record q { queue = q.queue ++ job ∷ [] }, accepted)

-- From the entry on.
unfoldable pub push : RetainedFrameJob → FrameQueue → FrameQueue × Pushed
unfolding push_resume
push job q =
    if q.stopped
    then (q, rejected)
    else if q.drop_newest && leb q.capacity (length q.queue)
    then (q, rejected)
    else push_resume job q

pop_front : List RetainedFrameJob → FrameQueue → FrameQueue × Popped
pop_front [] q = (q, closed)
pop_front (job ∷ rest) q = (record q { queue = rest }, popped job)

abbrev pub is_empty : List RetainedFrameJob → Bool
is_empty [] = true
is_empty (_ ∷ _) = false

-- The same code runs from the entry and from a wake of `not_empty_`.
unfoldable pub pop : FrameQueue → FrameQueue × Popped
unfolding pop_front
pop q =
    if not (q.stopped || not (is_empty q.queue))
    then (q, Popped.waits)
    else if q.stopped || is_empty q.queue
    then (q, closed)
    else pop_front q.queue q

unfoldable pub close_admission : FrameQueue → FrameQueue
close_admission q = record q { stopped = true }

-- The caller's deque is empty, so the swap leaves the queue empty.
unfoldable pub stop_and_detach : FrameQueue → FrameQueue × List RetainedFrameJob
stop_and_detach q = (record q { stopped = true; queue = [] }, q.queue)
