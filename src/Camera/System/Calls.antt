-- ===== src/Camera/System/Calls.antt =====
-- What the core asks of libsc132 and of its failure notifier, over a whole run.
mod Defs
mod Start
pub use Defs.*
use robo_baton_4p_ros2_demo.Prelude.{
  ℕ, ◌+◌, ◌≤◌, ◌<◌, ◌≡◌, ◌⊎◌, inl, inr, refl, Bool, true, false, ◌&&◌, ◌||◌, not, Option, none,
  some, List, [], ◌∷◌, ◌++◌, arith, ltb, ◌==◌, if◌then◌else◌, Bool-cases, Option-cases, ap,
}
use robo_baton_4p_ros2_demo.Camera.Frame.{
  Call, set_fps, set_output_rotation, start_frame_set, request_stop, stop, FrameSetItem, FrameSet,
  RetainedFrameJob, release_frame,
}
use robo_baton_4p_ros2_demo.Camera.Queue.{
  FrameQueue, Pushed, accepted, rejected, Popped, popped, closed,
}
use robo_baton_4p_ros2_demo.Camera.Core.{
  CameraCoreConfig, Worker, Lane, Core, new_core, update, validate_config, record_failure,
  close_admission_and_request_stop,
}
use robo_baton_4p_ros2_demo.Camera.Lifecycle.{
  StartReplies, StartOutcome, refused, started, cleans_up, start, CleanupEntry, returns, joins,
  cleanup_begin, cleanup_join_failed, cleanup_finish, detach_queues, release_all, queued,
  start_workers, initialize_queues, start_producer, is_ok, throws_at, thread_limit,
}
use robo_baton_4p_ros2_demo.Camera.Callback.{
  Callback, outside, raising, at_items, at_push, in_wait, Seen, ItemReplies, callback_enter,
  handle_item, handle_frame, retain_item, is_valid_info, count_source, push_on, push_stretch,
  pop_on, after_push, after_pop, drop_job, callback_push, callback_catch, worker_pop,
  worker_published, worker_failed,
}
use robo_baton_4p_ros2_demo.Camera.System.{
  System, initial, entered, after_start, Step, starts, cleans, finishes, join_fails, delivers,
  handles, leaves, enters_push, wakes_push, catches, pops, publishes, fails, Reach, constructed,
  later,
}
use robo_baton_4p_ros2_demo.Camera.System.Inv.{is_joining, SystemInv, Reach-Inv}
use Start.{cleanup_begin-Once, cleanup_finish-Once, start-Once, after_start-Once}

handle_item-Once :
    (r : ItemReplies) (item : FrameSetItem) (rest : List FrameSetItem) (seen : Seen) (c : Core)
    → Once c
    → Once (handle_item r item rest seen c).0
unfolding handle_item handle_frame retain_item count_source
handle_item-Once r item rest seen c o = record {
  silent = ground (arith, o);
  notified_once = ground (arith, o);
  launched_once = ground (arith, o);
  unclaimed = ground (arith, o);
  requested_once = ground (arith, o);
  ended = ground (arith, o);
  stopped_twice = ground (arith, o);
  complete = ground (arith, o);
}

released-Once :
    (frame : Option ℕ) (c : Core) → Once c → Once (record c { calls = release_frame frame c.calls })
released-Once frame c o =
    calls-Once (release_frame frame c.calls) c.lanes c (release_frame-SameRequests frame c.calls) o

lanes-Once : (lanes : ℕ → Lane) (c : Core) → Once c → Once (record c { lanes = lanes })
lanes-Once lanes c o =
    calls-Once c.calls lanes c (record { launched = refl; requested = refl; stopped = refl }) o

either-Once : (b : Bool) {x y : Core} → Once x → Once y → Once (if b then x else y)
either-Once true ox oy = ox
either-Once false ox oy = oy

drop_job-Once : (job : RetainedFrameJob) (id : ℕ) (c : Core) → Once c → Once (drop_job job id c)
unfolding drop_job
drop_job-Once job id c o =
    let released = released-Once job.frame c o in
    either-Once c.config.rate_metrics_enabled (lanes-Once _ _ released) released

after_push-Once :
    (q : FrameQueue) (p : Pushed) (job : RetainedFrameJob) (id : ℕ) (rest : List FrameSetItem)
    (seen : Seen) (c : Core)
    → Once c
    → Once (after_push q p job id rest seen c).0
unfolding after_push
after_push-Once q accepted job id rest seen c o = lanes-Once _ c o
after_push-Once q rejected job id rest seen c o = drop_job-Once job id c o
after_push-Once q Pushed.waits job id rest seen c o = o

abbrev core_or : Core → Option (Core × Callback) → Core
core_or c none = c
core_or c (some (d, cb)) = d

push_on-Once :
    (queue : Option FrameQueue) (woken : Bool) (job : RetainedFrameJob) (id : ℕ)
    (rest : List FrameSetItem) (seen : Seen) (c c' : Core) (cb' : Callback)
    → push_on queue woken job id rest seen c ≡ some (c', cb')
    → Once c
    → Once c'
unfolding push_on
push_on-Once none woken job id rest seen c c' cb' e o = absurd (ground (arith, e))
push_on-Once (some q) woken job id rest seen c c' cb' e o =
    let (q', r) = push_stretch woken job q in
    rw (ap (core_or c) e) at (after_push-Once q' r job id rest seen c o)

worker_pop-Once : (id : ℕ) (c c' : Core) → worker_pop id c ≡ some c' → Once c → Once c'
unfolding worker_pop pop_on after_pop
worker_pop-Once id c c' e o = record {
  silent = ground (arith, o);
  notified_once = ground (arith, o);
  launched_once = ground (arith, o);
  unclaimed = ground (arith, o);
  requested_once = ground (arith, o);
  ended = ground (arith, o);
  stopped_twice = ground (arith, o);
  complete = ground (arith, o);
}

initial-Once : Once new_core
unfolding new_core
initial-Once = record {
  silent = λ e. refl;
  notified_once = omega arith;
  launched_once = refl;
  unclaimed = λ e. refl;
  requested_once = refl;
  ended = ground arith;
  stopped_twice = refl;
  complete = ground arith;
}

join_failed-Once : (c : Core) → Once c → Once (cleanup_join_failed c).0
unfolding cleanup_join_failed
join_failed-Once c o =
    record_failure-Once (record c { cleanup_quiesced = false })
      (record {
        silent = o.silent;
        notified_once = o.notified_once;
        launched_once = o.launched_once;
        unclaimed = o.unclaimed;
        requested_once = o.requested_once;
        ended = o.ended;
        stopped_twice = o.stopped_twice;
        complete = o.complete;
      })

callback_catch-Once : (c : Core) → Once c → Once (callback_catch c)
unfolding callback_catch
callback_catch-Once c o = record_failure-Once (close_admission_and_request_stop c) (close-Once c o)

worker_published-Once :
    (id : ℕ) (job : RetainedFrameJob) (c : Core) → Once c → Once (worker_published id job c)
unfolding worker_published
worker_published-Once id job c o = lanes-Once _ _ (released-Once job.frame c o)

worker_failed-Once :
    (id : ℕ) (job : RetainedFrameJob) (c : Core) → Once c → Once (worker_failed id job c)
unfolding worker_failed
worker_failed-Once id job c o =
    lanes-Once _ _ (close-Once _ (record_failure-Once _ (released-Once job.frame c o)))

Step-Once : {s t : System} → Step s t → SystemInv s → Once s.core → Once t.core
unfolding callback_push
Step-Once {s} (starts config r e) v o =
    let (c, outcome) = start config r s.core in
    after_start-Once s.callback c outcome (start-Once config r s.core o)
Step-Once {s} (cleans e) v o = cleanup_begin-Once s.core s.callback o
Step-Once {s} (finishes e d out) v o =
    let ended : s.core.terminal ≡ true = ground (arith, e, v.flags) in
    cleanup_finish-Once s.core (ground (arith, ended, v.flags)) ended (ground (arith, e, v.flags)) o
Step-Once {s} (join_fails e) v o = join_failed-Once s.core o
Step-Once {s} (delivers fs e) v o = o
Step-Once {s} (handles r item rest seen e) v o = handle_item-Once r item rest seen s.core o
Step-Once {s} (leaves seen e) v o = o
Step-Once {s} (enters_push job id rest seen c cb e h) v o =
    push_on-Once (s.core.lanes id).queue false job id rest seen s.core c cb h o
Step-Once {s} (wakes_push job id rest seen c cb e h) v o =
    push_on-Once (s.core.lanes id).queue true job id rest seen s.core c cb h o
Step-Once {s} (catches e) v o = callback_catch-Once s.core o
Step-Once {s} (pops id c w h) v o = worker_pop-Once id s.core c h o
Step-Once {s} (publishes id job w) v o = worker_published-Once id job s.core o
Step-Once {s} (fails id job w) v o = worker_failed-Once id job s.core o

-- In every reachable state the failure notifier has been called at most once and not at all without a
-- failure; the producer has been started at most once, exactly when Start attempted it, which an
-- unclaimed core has not; it has been asked to stop exactly once if a stop was requested and not
-- otherwise, and a stop was requested once a shutdown has begun; and it has been stopped twice if a
-- cleanup is complete, which only a claimed and shut down core is, and not otherwise.
pub Reach-Once : {s : System} → Reach s → Once s.core
unfolding initial
Reach-Once constructed = initial-Once
Reach-Once (later r st) = Step-Once st (Reach-Inv r) (Reach-Once r)
