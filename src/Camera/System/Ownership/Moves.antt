-- ===== src/Camera/System/Ownership/Moves.antt =====
-- The callback keeps the balance of references.
use robo_baton_4p_ros2_demo.Prelude.{
  ℕ, ◌+◌, ◌<◌, ◌≡◌, inl, inr, refl, Bool, ◌||◌, not, Option, none, some, List, [], ◌∷◌, arith,
  Bool-cases, subst,
}
use robo_baton_4p_ros2_demo.Metrics.{PublicationRateMetrics}
use robo_baton_4p_ros2_demo.Camera.Frame.{
  FrameSetItem, FrameSet, RetainedFrameJob, holds, release_frame,
}
use robo_baton_4p_ros2_demo.Camera.Queue.{FrameQueue, Pushed, accepted, rejected, push, push_resume}
use robo_baton_4p_ros2_demo.Camera.Core.{
  Worker, Lane, Core, camera_enabled, update, set_lane, record_failure,
}
use robo_baton_4p_ros2_demo.Camera.Callback.{
  Callback, outside, raising, at_items, Seen, ItemReplies, callback_enter, handle_item,
  handle_frame, push_on, push_stretch, retain_item, mark, is_valid_info, count_source,
  callback_push, after_push, drop_job, callback_catch,
}
use robo_baton_4p_ros2_demo.Camera.System.Ownership.Defs.{
  held_jobs, held_worker, held_lane, held_callback, Balanced, held_jobs-append,
  releases-release_frame, held-update, close-Balanced,
}

pub callback_enter-Balanced :
    (f : ℕ) (frame_set : Option FrameSet) (c : Core)
    → Balanced f c outside
    → Balanced f c (callback_enter frame_set c)
unfolding callback_enter
callback_enter-Balanced f frame_set c b = ground arith

-- A change of a camera's metrics leaves its share alone.
metrics-held :
    (f : ℕ) (lanes : ℕ → Lane) (id : ℕ) (m : PublicationRateMetrics) (j : ℕ)
    → held_lane f (update lanes id (record (lanes id) { metrics = m }) j) ≡ held_lane f (lanes j)
unfolding held_lane
metrics-held f lanes id m j = ground arith

metrics-Balanced :
    (f : ℕ) (c : Core) (cb : Callback) (id : ℕ) (m : PublicationRateMetrics)
    → Balanced f c cb
    → Balanced f (set_lane c id (record (c.lanes id) { metrics = m })) cb
metrics-Balanced f c cb id m b =
    let same = metrics-held f c.lanes id m in omega (arith, same 0, same 1, same 2, same 3)

count_source-Balanced :
    (f : ℕ) (r : ItemReplies) (id : ℕ) (c : Core) (cb : Callback)
    → Balanced f c cb
    → Balanced f (count_source r id c) cb
unfolding count_source
count_source-Balanced f r id c cb b = elim (Bool-cases c.config.rate_metrics_enabled) [
  | inl on ↦ rw on (metrics-Balanced f c cb id _ b)
  | inr off ↦ rw off b
]

-- The job that goes to Push matches the retain.
retain_item-Balanced :
    (f : ℕ) (r : ItemReplies) (frame id : ℕ) (rest : List FrameSetItem) (seen : Seen) (c : Core)
    → Balanced f c raising
    → Balanced f (retain_item r frame id rest seen c).0 (retain_item r frame id rest seen c).1
unfolding retain_item
retain_item-Balanced f r frame id rest seen c b =
    ground (arith, count_source-Balanced f r id c raising b)

handle_frame-Balanced :
    (f : ℕ) (r : ItemReplies) (frame : Option ℕ) (id : ℕ) (rest : List FrameSetItem) (seen : Seen)
    (c : Core)
    → Balanced f c raising
    → Balanced f (handle_frame r frame id rest seen c).0 (handle_frame r frame id rest seen c).1
unfolding handle_frame
handle_frame-Balanced f r none id rest seen c b = b
handle_frame-Balanced f r (some frame) id rest seen c b = elim (Bool-cases (is_valid_info r id)) [
  | inl valid ↦ rw valid (retain_item-Balanced f r frame id rest (mark seen id) c b)
  | inr invalid ↦ rw invalid b
]

pub handle_item-Balanced :
    (f : ℕ) (r : ItemReplies) (item : FrameSetItem) (rest : List FrameSetItem) (seen : Seen)
    (c : Core)
    → Balanced f c (at_items (item ∷ rest) seen)
    → Balanced f (handle_item r item rest seen c).0 (handle_item r item rest seen c).1
unfolding handle_item
handle_item-Balanced f r item rest seen c b =
    elim (Bool-cases (not (camera_enabled c.config item.camera_id) || seen item.camera_id)) [
      | inl bad ↦ rw bad b
      | inr good ↦ rw good (handle_frame-Balanced f r item.frame item.camera_id rest seen c b)
    ]

-- A new queue in a lane changes its share by the difference of the jobs.
queue-held :
    (f : ℕ) (lane : Lane) (q q' : FrameQueue)
    → lane.queue ≡ some q
    → held_lane f (record lane { queue = some q' }) + held_jobs f q.queue
      ≡ held_lane f lane + held_jobs f q'.queue
unfolding held_lane
queue-held f lane q q' e = ground arith

pub worker-held :
    (f : ℕ) (lane : Lane) (w : Worker)
    → held_lane f (record lane { worker = w }) + held_worker f lane.worker
      ≡ held_lane f lane + held_worker f w
unfolding held_lane
worker-held f lane w = omega arith

-- What a stretch of Push adds to the jobs of the queue.
push-held :
    (f : ℕ) (woken : Bool) (job : RetainedFrameJob) (q : FrameQueue)
    → (push_stretch woken job q).1 ≡ accepted
    → held_jobs f (push_stretch woken job q).0.queue ≡ held_jobs f q.queue + holds f job.frame
unfolding push push_resume held_jobs
push-held f woken job q e = ground (arith, held_jobs-append f q.queue (job ∷ []))

drop_job-Balanced :
    (f : ℕ) (job : RetainedFrameJob) (id : ℕ) (c : Core) (cb cb' : Callback)
    → held_callback f cb ≡ holds f job.frame
    → held_callback f cb' ≡ 0
    → Balanced f c cb
    → Balanced f (drop_job job id c) cb'
unfolding drop_job
drop_job-Balanced f job id c cb cb' h h' b = elim (Bool-cases c.config.rate_metrics_enabled) [
  | inl on ↦ rw on (metrics-Balanced f released cb' id _ given_back)
  | inr off ↦ rw off given_back
]
  where
    released : Core
    released = record c { calls = release_frame job.frame c.calls }

    given_back : Balanced f released cb'
    given_back = omega (arith, releases-release_frame f job.frame c.calls)

after_push-Balanced :
    (f : ℕ) (q q' : FrameQueue) (r : Pushed) (job : RetainedFrameJob) (id : ℕ)
    (rest : List FrameSetItem) (seen : Seen) (c : Core) (cb : Callback)
    → id < 4
    → (c.lanes id).queue ≡ some q
    → (r ≡ accepted → held_jobs f q'.queue ≡ held_jobs f q.queue + holds f job.frame)
    → held_callback f cb ≡ holds f job.frame
    → Balanced f c cb
    → Balanced f (after_push q' r job id rest seen c).0 (after_push q' r job id rest seen c).1
unfolding after_push
after_push-Balanced f q q' accepted job id rest seen c cb lt e g h b = omega (
  arith,
  held-update f c.lanes id (record (c.lanes id) { queue = some q' }) lt,
  queue-held f (c.lanes id) q q' e,
  g refl,
)
after_push-Balanced f q q' rejected job id rest seen c cb lt e g h b =
    drop_job-Balanced f job id c cb (at_items rest seen) h refl b
after_push-Balanced f q q' Pushed.waits job id rest seen c cb lt e g h b = omega arith

push_on-Balanced :
    (f : ℕ) (queue : Option FrameQueue) (woken : Bool) (job : RetainedFrameJob) (id : ℕ)
    (rest : List FrameSetItem) (seen : Seen) (c : Core) (cb : Callback) (c' : Core) (cb' : Callback)
    → id < 4
    → (c.lanes id).queue ≡ queue
    → held_callback f cb ≡ holds f job.frame
    → push_on queue woken job id rest seen c ≡ some (c', cb')
    → Balanced f c cb
    → Balanced f c' cb'
unfolding push_on
push_on-Balanced f none woken job id rest seen c cb c' cb' lt q h e b = cc
push_on-Balanced f (some q) woken job id rest seen c cb c' cb' lt qe h e b =
    let out : after_push (push_stretch woken job q).0 (push_stretch woken job q).1 job id rest seen
          c
        ≡ (c', cb') =
      cc in
    subst (λ (p : Core × Callback). Balanced f p.0 p.1) out
      (after_push-Balanced f q (push_stretch woken job q).0 (push_stretch woken job q).1 job id rest
        seen c cb lt qe (push-held f woken job q) h b)

pub callback_push-Balanced :
    (f : ℕ) (woken : Bool) (job : RetainedFrameJob) (id : ℕ) (rest : List FrameSetItem)
    (seen : Seen) (c : Core) (cb : Callback) (c' : Core) (cb' : Callback)
    → id < 4
    → held_callback f cb ≡ holds f job.frame
    → callback_push woken job id rest seen c ≡ some (c', cb')
    → Balanced f c cb
    → Balanced f c' cb'
unfolding callback_push
callback_push-Balanced f woken job id rest seen c cb c' cb' lt h e b =
    push_on-Balanced f (c.lanes id).queue woken job id rest seen c cb c' cb' lt refl h e b

pub callback_catch-Balanced :
    (f : ℕ) (c : Core) → Balanced f c raising → Balanced f (callback_catch c) outside
unfolding callback_catch record_failure
callback_catch-Balanced f c b = close-Balanced f c raising b
