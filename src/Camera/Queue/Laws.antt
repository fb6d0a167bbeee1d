-- ===== src/Camera/Queue/Laws.antt =====
-- Push and Pop of one queue: who waits, and who is woken.
use robo_baton_4p_ros2_demo.Prelude.{
  ◌≤◌, ◌<◌, ◌≡◌, ◌↔◌, false, List, [], ◌∷◌, ◌++◌, List-cases, inl, inr, length, length-append,
  arith,
}
use robo_baton_4p_ros2_demo.Camera.Frame.{RetainedFrameJob}
use robo_baton_4p_ros2_demo.Camera.Queue.{
  FrameQueue, Pushed, accepted, rejected, Popped, popped, closed, push, push_resume, pop,
  close_admission,
}

-- A queue that is bounded and never stays blocked for want of capacity.
pub record IsQueue (q : FrameQueue) : Type 0 where
  pub bounded : length q.queue ≤ q.capacity
  pub room : 0 < q.capacity

-- A Push keeps a queue with a positive capacity and at most that many jobs such a queue.
pub push-IsQueue : (job : RetainedFrameJob) (q : FrameQueue) → IsQueue q → IsQueue (push job q).0
unfolding push
push-IsQueue job q h = ground (arith, length-append q.queue (job ∷ []))

pub pop-IsQueue : (q : FrameQueue) → IsQueue q → IsQueue (pop q).0
unfolding pop
pop-IsQueue q h = ground arith

-- Push waits exactly on a full open queue that blocks, Pop exactly on an empty open one.
pub waits_iff :
    (job : RetainedFrameJob) (q : FrameQueue)
    → (((push job q).1 ≡ Pushed.waits)
        ↔ ((q.stopped ≡ false) × (q.drop_newest ≡ false) × (q.capacity ≤ length q.queue)))
      × (((pop q).1 ≡ Popped.waits) ↔ ((q.stopped ≡ false) × (q.queue ≡ [])))
unfolding push pop
waits_iff job q = ((λ h. ground arith, λ h. ground arith), (λ h. ground arith, λ h. ground arith))

-- On a bounded queue with room for a job, a Push that waits is not stuck: the queue then has a job
-- for Pop, and once that is taken the waiting Push is accepted behind all that was there before.
pub blocked_push_resumes :
    (job : RetainedFrameJob) (q : FrameQueue)
    → IsQueue q
    → (push job q).1 ≡ Pushed.waits
    → (first : RetainedFrameJob) × (rest : List RetainedFrameJob) × (q.queue ≡ first ∷ rest)
      × ((pop q).1 ≡ popped first)
      × (push_resume job (pop q).0 ≡ (record q { queue = rest ++ job ∷ [] }, accepted))
unfolding push pop
blocked_push_resumes job q h e = elim (List-cases q.queue) [
  | inl none_left ↦ absurd (ground arith)
  | inr (first, rest, q_is) ↦ (first, rest, q_is, ground arith, ground arith)
]

-- Once admission is closed nothing waits and nothing changes: Push is rejected, from its
-- entry and from a wait, and Pop returns false even where jobs are left.
pub closed_never_waits :
    (job : RetainedFrameJob) (q : FrameQueue)
    → let c = close_admission q in
      (push job c ≡ (c, rejected)) × (push_resume job c ≡ (c, rejected)) × (pop c ≡ (c, closed))
unfolding push pop close_admission
closed_never_waits job q = ground arith
