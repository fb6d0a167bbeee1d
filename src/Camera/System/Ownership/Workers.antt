-- ===== src/Camera/System/Ownership/Workers.antt =====
-- The workers keep the balance of references.
use robo_baton_4p_ros2_demo.Prelude.{
  ℕ, ◌+◌, ◌<◌, ◌≡◌, refl, Option, none, some, arith, subst, ap, ◌∙◌,
}
use robo_baton_4p_ros2_demo.Camera.Frame.{RetainedFrameJob, holds, retains, releases, release_frame}
use robo_baton_4p_ros2_demo.Camera.Queue.{FrameQueue, Popped, popped, closed, pop}
use robo_baton_4p_ros2_demo.Camera.Core.{
  Worker, popping, publishing, exited, Lane, Core, set_worker, record_failure,
  close_admission_and_request_stop,
}
use robo_baton_4p_ros2_demo.Camera.Callback.{
  Callback, pop_on, after_pop, worker_pop, worker_published, worker_failed,
}
use robo_baton_4p_ros2_demo.Camera.System.Ownership.Defs.{
  held_jobs, held_worker, held_lane, Balanced, releases-release_frame, held-update, close-held,
}
use robo_baton_4p_ros2_demo.Camera.System.Ownership.Moves.{worker-held}

after_pop-Balanced :
    (f : ℕ) (q q' : FrameQueue) (r : Popped) (id : ℕ) (c : Core) (cb : Callback)
    → id < 4
    → (c.lanes id).queue ≡ some q
    → (c.lanes id).worker ≡ popping
    → ((job : RetainedFrameJob)
        → r ≡ popped job
        → held_jobs f q'.queue + holds f job.frame ≡ held_jobs f q.queue)
    → Balanced f c cb
    → Balanced f (after_pop q' r id c) cb
unfolding after_pop held_lane
after_pop-Balanced f q q' (popped job) id c cb lt e w g b =
    let lane : Lane = record (c.lanes id) { queue = some q'; worker = publishing job } in
    let before : held_lane f (c.lanes id) ≡ held_jobs f q.queue = ground arith in
    omega (arith, held-update f c.lanes id lane lt, before, g job refl)
after_pop-Balanced f q q' closed id c cb lt e w g b = omega (
  arith,
  held-update f c.lanes id (record (c.lanes id) { worker = exited }) lt,
  worker-held f (c.lanes id) exited,
  ap (held_worker f) w,
)
after_pop-Balanced f q q' Popped.waits id c cb lt e w g b = b

pop-held :
    (f : ℕ) (q : FrameQueue) (job : RetainedFrameJob)
    → (pop q).1 ≡ popped job
    → held_jobs f (pop q).0.queue + holds f job.frame ≡ held_jobs f q.queue
unfolding pop held_jobs
pop-held f q job e = ground arith

pop_on-Balanced :
    (f : ℕ) (queue : Option FrameQueue) (id : ℕ) (c : Core) (cb : Callback) (c' : Core)
    → id < 4
    → (c.lanes id).queue ≡ queue
    → (c.lanes id).worker ≡ popping
    → pop_on queue id c ≡ some c'
    → Balanced f c cb
    → Balanced f c' cb
unfolding pop_on
pop_on-Balanced f none id c cb c' lt q w e b = cc
pop_on-Balanced f (some q) id c cb c' lt qe w e b =
    let out : after_pop (pop q).0 (pop q).1 id c ≡ c' = cc in
    subst (λ (d : Core). Balanced f d cb) out
      (after_pop-Balanced f q (pop q).0 (pop q).1 id c cb lt qe w (pop-held f q) b)

pub worker_pop-Balanced :
    (f id : ℕ) (c : Core) (cb : Callback) (c' : Core)
    → id < 4
    → (c.lanes id).worker ≡ popping
    → worker_pop id c ≡ some c'
    → Balanced f c cb
    → Balanced f c' cb
unfolding worker_pop
worker_pop-Balanced f id c cb c' lt w e b =
    pop_on-Balanced f (c.lanes id).queue id c cb c' lt refl w e b

-- A worker gives back its job's reference and stands elsewhere, holding nothing.
give_back-Balanced :
    (f id : ℕ) (job : RetainedFrameJob) (w : Worker) (c : Core) (cb : Callback)
    → id < 4
    → (c.lanes id).worker ≡ publishing job
    → held_worker f w ≡ 0
    → Balanced f c cb
    → Balanced f (set_worker (record c { calls = release_frame job.frame c.calls }) id w) cb
give_back-Balanced f id job w c cb lt at h b = omega (
  arith,
  held-update f c.lanes id (record (c.lanes id) { worker = w }) lt,
  worker-held f (c.lanes id) w,
  ap (held_worker f) at,
  h,
  releases-release_frame f job.frame c.calls,
)

pub worker_published-Balanced :
    (f id : ℕ) (job : RetainedFrameJob) (c : Core) (cb : Callback)
    → id < 4
    → (c.lanes id).worker ≡ publishing job
    → Balanced f c cb
    → Balanced f (worker_published id job c) cb
unfolding worker_published
worker_published-Balanced f id job c cb lt w b =
    give_back-Balanced f id job popping c cb lt w refl b

closed-held :
    (f : ℕ) (c : Core) (id : ℕ)
    → held_lane f ((close_admission_and_request_stop c).lanes id) ≡ held_lane f (c.lanes id)
unfolding close_admission_and_request_stop
closed-held f c id = ground (arith, close-held f (c.lanes id))

closed-worker :
    (c : Core) (id : ℕ)
    → ((close_admission_and_request_stop c).lanes id).worker ≡ (c.lanes id).worker
unfolding close_admission_and_request_stop
closed-worker c id = ground arith

closed-calls :
    (f : ℕ) (c : Core)
    → (retains f (close_admission_and_request_stop c).calls ≡ retains f c.calls)
      × (releases f (close_admission_and_request_stop c).calls ≡ releases f c.calls)
unfolding close_admission_and_request_stop
closed-calls f c = ground arith

pub worker_failed-Balanced :
    (f id : ℕ) (job : RetainedFrameJob) (c : Core) (cb : Callback)
    → id < 4
    → (c.lanes id).worker ≡ publishing job
    → Balanced f c cb
    → Balanced f (worker_failed id job c) cb
unfolding worker_failed record_failure
worker_failed-Balanced f id job c cb lt w b =
    let released : Core = record_failure (record c { calls = release_frame job.frame c.calls }) in
    let d = close_admission_and_request_stop released in
    let same = closed-held f released in
    omega (
      arith,
      held-update f d.lanes id (record (d.lanes id) { worker = exited }) lt,
      worker-held f (d.lanes id) exited,
      ap (held_worker f) (closed-worker released id ∙ w),
      closed-calls f released,
      same 0,
      same 1,
      same 2,
      same 3,
      same id,
      releases-release_frame f job.frame c.calls,
    )
