-- ===== src/Camera/System/Ownership/Defs.antt =====
-- How many references to a frame the core holds.
use robo_baton_4p_ros2_demo.Prelude.{
  ℕ, ◌+◌, ◌<◌, ◌≡◌, refl, true, false, Option, none, some, List, [], ◌∷◌, ◌++◌, arith,
}
use robo_baton_4p_ros2_demo.Camera.Frame.{
  Call, RetainedFrameJob, holds, retains, releases, release_frame,
}
use robo_baton_4p_ros2_demo.Camera.Core.{
  Worker, publishing, Lane, Core, update, close_admission_and_request_stop, close_queue,
}
use robo_baton_4p_ros2_demo.Camera.Lifecycle.{detach_queue, detach_queues, release_all, queued}
use robo_baton_4p_ros2_demo.Camera.Callback.{Callback, at_push, in_wait}
use robo_baton_4p_ros2_demo.Camera.System.Inv.{has_queue, is_absent}

-- How many references to a frame a list of jobs, a lane, and the callback hold.
unfoldable pub held_jobs : ℕ → List RetainedFrameJob → ℕ
held_jobs f [] = 0
held_jobs f (job ∷ rest) = holds f job.frame + held_jobs f rest

abbrev pub held_worker : ℕ → Worker → ℕ
held_worker f (publishing job) = holds f job.frame
held_worker f _ = 0

unfoldable pub held_lane : ℕ → Lane → ℕ
held_lane f lane = held_jobs f (queued lane.queue) + held_worker f lane.worker

abbrev pub held_callback : ℕ → Callback → ℕ
held_callback f (at_push job id rest seen) = holds f job.frame
held_callback f (in_wait job id rest seen) = holds f job.frame
held_callback f _ = 0

abbrev pub held : ℕ → Core → Callback → ℕ
held f c cb =
    held_lane f (c.lanes 0)
    + held_lane f (c.lanes 1)
    + held_lane f (c.lanes 2)
    + held_lane f (c.lanes 3)
    + held_callback f cb

-- The references that libsc132 has given out for a frame are those given back and those held.
abbrev pub Balanced : ℕ → Core → Callback → Type 0
Balanced f c cb = retains f c.calls ≡ releases f c.calls + held f c cb

pub held_jobs-append :
    (f : ℕ) (xs ys : List RetainedFrameJob)
    → held_jobs f (xs ++ ys) ≡ held_jobs f xs + held_jobs f ys
unfolding held_jobs
held_jobs-append f [] ys = omega arith
held_jobs-append f (x ∷ xs) ys = omega (arith, held_jobs-append f xs ys)

pub releases-release_frame :
    (f : ℕ) (frame : Option ℕ) (calls : List Call)
    → (releases f (release_frame frame calls) ≡ holds f frame + releases f calls)
      × (retains f (release_frame frame calls) ≡ retains f calls)
releases-release_frame f none calls = (omega arith, refl)
releases-release_frame f (some g) calls = (refl, refl)

pub releases-release_all :
    (f : ℕ) (jobs : List RetainedFrameJob) (calls : List Call)
    → (releases f (release_all jobs calls) ≡ held_jobs f jobs + releases f calls)
      × (retains f (release_all jobs calls) ≡ retains f calls)
unfolding held_jobs
releases-release_all f [] calls = (omega arith, refl)
releases-release_all f (job ∷ rest) calls =
    ground (arith, releases-release_all f rest (release_frame job.frame calls))

-- A change of one camera's lane.
pub held-update :
    (f : ℕ) (lanes : ℕ → Lane) (id : ℕ) (lane : Lane)
    → id < 4
    → let l = update lanes id lane in
      held_lane f (l 0)
        + held_lane f (l 1)
        + held_lane f (l 2)
        + held_lane f (l 3)
        + held_lane f (lanes id)
      ≡ held_lane f (lanes 0)
        + held_lane f (lanes 1)
        + held_lane f (lanes 2)
        + held_lane f (lanes 3)
        + held_lane f lane
held-update f lanes id lane h = ground arith

pub blank-held :
    (f : ℕ) (lane : Lane)
    → has_queue lane.queue ≡ false
    → is_absent lane.worker ≡ true
    → held_lane f lane ≡ 0
unfolding held_lane held_jobs
blank-held f lane q w = ground arith

pub close-held :
    (f : ℕ) (lane : Lane)
    → held_lane f (record lane { queue = close_queue lane.queue }) ≡ held_lane f lane
unfolding held_lane close_queue
close-held f lane = ground arith

pub detach-held :
    (f : ℕ) (lane : Lane)
    → held_lane f (record lane { queue = detach_queue lane.queue })
        + held_jobs f (queued lane.queue)
      ≡ held_lane f lane
unfolding held_lane held_jobs detach_queue
detach-held f lane = ground arith

pub close-Balanced :
    (f : ℕ) (c : Core) (cb : Callback)
    → Balanced f c cb
    → Balanced f (close_admission_and_request_stop c) cb
unfolding close_admission_and_request_stop
close-Balanced f c cb b = ground (
  arith,
  close-held f (c.lanes 0),
  close-held f (c.lanes 1),
  close-held f (c.lanes 2),
  close-held f (c.lanes 3),
)

pub detach-Balanced :
    (f : ℕ) (c : Core) (cb : Callback) → Balanced f c cb → Balanced f (detach_queues c) cb
unfolding detach_queues
detach-Balanced f c cb b =
    let jobs = λ (id : ℕ). queued (c.lanes id).queue in
    let c₀ = release_all (jobs 0) c.calls in
    let c₁ = release_all (jobs 1) c₀ in
    let c₂ = release_all (jobs 2) c₁ in
    omega (
      arith,
      detach-held f (c.lanes 0),
      detach-held f (c.lanes 1),
      detach-held f (c.lanes 2),
      detach-held f (c.lanes 3),
      releases-release_all f (jobs 0) c.calls,
      releases-release_all f (jobs 1) c₀,
      releases-release_all f (jobs 2) c₁,
      releases-release_all f (jobs 3) c₂,
    )

-- The balance speaks of the calls, the lanes and the callback only.
