-- ===== src/Camera/Impl/Threads.antt =====
-- What the steps of the core's threads keep, and the owner does not look at.
use robo_baton_4p_ros2_demo.Prelude.{
  ℕ, ◌≡◌, refl, sym, ap, ◌∙◌, Bool, true, false, Option, none, some, List, arith,
}
use robo_baton_4p_ros2_demo.Camera.Frame.{FrameSetItem, RetainedFrameJob}
use robo_baton_4p_ros2_demo.Camera.Queue.{FrameQueue, Pushed}
use robo_baton_4p_ros2_demo.Camera.Core.{Core, record_failure, close_admission_and_request_stop}
use robo_baton_4p_ros2_demo.Camera.Callback.{
  Callback, Seen, ItemReplies, handle_item, handle_frame, retain_item, count_source, callback_push,
  push_on, push_stretch, after_push, drop_job, callback_catch, worker_pop, pop_on, after_pop,
  worker_published, worker_failed,
}
use robo_baton_4p_ros2_demo.Camera.System.{
  System, Step, starts, cleans, finishes, join_fails, delivers, handles, leaves, enters_push,
  wakes_push, catches, pops, publishes, fails,
}
use robo_baton_4p_ros2_demo.Camera.Impl.{is_owner_step}
use robo_baton_4p_ros2_demo.Camera.Impl.Inv.{is_quiet}

-- The core is claimed and cleaned up as before, and a failure stays.
pub record Keeps (c c' : Core) : Type 0 where
  pub quiet : is_quiet c' ≡ is_quiet c
  pub failed : c'.failed ≡ false → c.failed ≡ false

handle_item-Keeps :
    (r : ItemReplies) (item : FrameSetItem) (rest : List FrameSetItem) (seen : Seen) (c : Core)
    → Keeps c (handle_item r item rest seen c).0
unfolding handle_item handle_frame retain_item count_source
handle_item-Keeps r item rest seen c = record {
  quiet = ground arith;
  failed = λ fine. ground (arith, fine);
}

after_push-Keeps :
    (q : FrameQueue) (r : Pushed) (job : RetainedFrameJob) (id : ℕ) (rest : List FrameSetItem)
    (seen : Seen) (c : Core)
    → Keeps c (after_push q r job id rest seen c).0
unfolding after_push drop_job
after_push-Keeps q r job id rest seen c = record {
  quiet = ground arith;
  failed = λ fine. ground (arith, fine);
}

push_on-Keeps :
    (q : Option FrameQueue) (woken : Bool) (job : RetainedFrameJob) (id : ℕ)
    (rest : List FrameSetItem) (seen : Seen) (c c' : Core) (cb : Callback)
    → push_on q woken job id rest seen c ≡ some (c', cb)
    → Keeps c c'
unfolding push_on
push_on-Keeps none woken job id rest seen c c' cb h = absurd (ground (arith, h))
push_on-Keeps (some q) woken job id rest seen c c' cb h =
    let (q', r) = push_stretch woken job q in
    let same : (after_push q' r job id rest seen c).0 ≡ c' = cc h in
    let kept = after_push-Keeps q' r job id rest seen c in
    record {
      quiet = ap is_quiet (sym same) ∙ kept.quiet;
      failed = λ fine. kept.failed (ap (λ k. k.failed) same ∙ fine);
    }

pop_on-Keeps : (q : Option FrameQueue) (id : ℕ) (c c' : Core) → pop_on q id c ≡ some c' → Keeps c c'
unfolding pop_on after_pop
pop_on-Keeps none id c c' h = absurd (ground (arith, h))
pop_on-Keeps (some q) id c c' h = record {
  quiet = ground (arith, h);
  failed = λ fine. ground (arith, h, fine);
}

catch_Keeps : (c : Core) → Keeps c (callback_catch c)
unfolding callback_catch record_failure close_admission_and_request_stop
catch_Keeps c = record { quiet = refl; failed = λ fine. absurd (ground (arith, fine)) }

published_Keeps : (id : ℕ) (job : RetainedFrameJob) (c : Core) → Keeps c (worker_published id job c)
unfolding worker_published
published_Keeps id job c = record { quiet = refl; failed = λ fine. fine }

failed_Keeps : (id : ℕ) (job : RetainedFrameJob) (c : Core) → Keeps c (worker_failed id job c)
unfolding worker_failed record_failure close_admission_and_request_stop
failed_Keeps id job c = record { quiet = refl; failed = λ fine. absurd (ground (arith, fine)) }

same_Keeps : (c : Core) → Keeps c c
same_Keeps c = record { quiet = refl; failed = λ fine. fine }

-- The owner is where it was, and the core is kept.
pub thread_step :
    {s t : System}
    → (step : Step s t) → is_owner_step step ≡ false
    → (t.owner ≡ s.owner) × Keeps s.core t.core
unfolding callback_push worker_pop
thread_step (starts config r e) h = absurd (ground (arith, h))
thread_step (cleans e) h = absurd (ground (arith, h))
thread_step (finishes e d o) h = absurd (ground (arith, h))
thread_step (join_fails e) h = absurd (ground (arith, h))
thread_step {s} (delivers fs e) h = (refl, same_Keeps s.core)
thread_step {s} (handles r item rest seen e) h = (refl, handle_item-Keeps r item rest seen s.core)
thread_step {s} (leaves seen e) h = (refl, same_Keeps s.core)
thread_step {s} (enters_push job id rest seen c cb e x) h =
    (refl, push_on-Keeps (s.core.lanes id).queue false job id rest seen s.core c cb x)
thread_step {s} (wakes_push job id rest seen c cb e x) h =
    (refl, push_on-Keeps (s.core.lanes id).queue true job id rest seen s.core c cb x)
thread_step {s} (catches e) h = (refl, catch_Keeps s.core)
thread_step {s} (pops id c w x) h = (refl, pop_on-Keeps (s.core.lanes id).queue id s.core c x)
thread_step {s} (publishes id job w) h = (refl, published_Keeps id job s.core)
thread_step {s} (fails id job w) h = (refl, failed_Keeps id job s.core)
