-- ===== src/Camera/System/Calls/Defs.antt =====
-- How often the core calls libsc132 and its failure notifier.
use robo_baton_4p_ros2_demo.Prelude.{
  ℕ, ◌+◌, ◌≤◌, ◌≡◌, refl, true, false, Option, none, some, List, [], ◌∷◌, arith, if◌then◌else◌,
}
use robo_baton_4p_ros2_demo.Camera.Frame.{
  Call, start_frame_set, request_stop, stop, RetainedFrameJob, release_frame,
}
use robo_baton_4p_ros2_demo.Camera.Core.{
  Lane, Core, record_failure, close_admission_and_request_stop,
}
use robo_baton_4p_ros2_demo.Camera.Lifecycle.{detach_queues, release_all, queued}

-- How often a list of calls starts the producer, asks it to stop, and stops it.
abbrev pub launches : List Call → ℕ
launches [] = 0
launches (start_frame_set config mask ∷ calls) = 1 + launches calls
launches (_ ∷ calls) = launches calls

abbrev pub stop_requests : List Call → ℕ
stop_requests [] = 0
stop_requests (request_stop ∷ calls) = 1 + stop_requests calls
stop_requests (_ ∷ calls) = stop_requests calls

abbrev pub stops : List Call → ℕ
stops [] = 0
stops (stop ∷ calls) = 1 + stops calls
stops (_ ∷ calls) = stops calls

-- Two lists with the same requests to the producer.
pub record SameRequests (xs ys : List Call) : Type 0 where
  pub launched : launches xs ≡ launches ys
  pub requested : stop_requests xs ≡ stop_requests ys
  pub stopped : stops xs ≡ stops ys

-- What the counts of the calls have to do with the flags of the core.
pub record Once (c : Core) : Type 0 where
  pub silent : c.failed ≡ false → c.notified ≡ 0
  pub notified_once : c.notified ≤ 1
  pub launched_once : launches c.calls ≡ (if c.start_attempted then 1 else 0)
  pub unclaimed : c.start_claimed ≡ false → c.start_attempted ≡ false
  pub requested_once : stop_requests c.calls ≡ (if c.stop_requested then 1 else 0)
  pub ended : c.terminal ≡ true → c.stop_requested ≡ true
  pub stopped_twice : stops c.calls ≡ (if c.cleanup_complete then 2 else 0)
  pub complete : c.cleanup_complete ≡ true → (c.start_claimed ≡ true) × (c.terminal ≡ true)

pub release_frame-SameRequests :
    (frame : Option ℕ) (calls : List Call) → SameRequests (release_frame frame calls) calls
release_frame-SameRequests none calls = record { launched = refl; requested = refl; stopped = refl }
release_frame-SameRequests (some f) calls = record {
  launched = refl;
  requested = refl;
  stopped = refl;
}

pub release_all-SameRequests :
    (jobs : List RetainedFrameJob) (calls : List Call) → SameRequests (release_all jobs calls) calls
release_all-SameRequests [] calls = record { launched = refl; requested = refl; stopped = refl }
release_all-SameRequests (job ∷ rest) calls =
    let a = release_all-SameRequests rest (release_frame job.frame calls) in
    let b = release_frame-SameRequests job.frame calls in
    record {
      launched = ground (arith, a, b);
      requested = ground (arith, a, b);
      stopped = ground (arith, a, b);
    }

pub record_failure-Once : (c : Core) → Once c → Once (record_failure c)
unfolding record_failure
record_failure-Once c o = record {
  silent = ground (arith, o);
  notified_once = ground (arith, o);
  launched_once = o.launched_once;
  unclaimed = o.unclaimed;
  requested_once = o.requested_once;
  ended = o.ended;
  stopped_twice = o.stopped_twice;
  complete = o.complete;
}

pub close-Once : (c : Core) → Once c → Once (close_admission_and_request_stop c)
unfolding close_admission_and_request_stop
close-Once c o = record {
  silent = o.silent;
  notified_once = o.notified_once;
  launched_once = ground (arith, o);
  unclaimed = o.unclaimed;
  requested_once = ground (arith, o);
  ended = λ t. refl;
  stopped_twice = ground (arith, o);
  complete = o.complete;
}

-- Neither the lanes nor the calls about frames matter.
pub calls-Once :
    (calls : List Call) (lanes : ℕ → Lane) (c : Core)
    → SameRequests calls c.calls
    → Once c
    → Once (record c { calls = calls; lanes = lanes })
calls-Once calls lanes c same o = record {
  silent = o.silent;
  notified_once = o.notified_once;
  launched_once = ground (arith, o, same);
  unclaimed = o.unclaimed;
  requested_once = ground (arith, o, same);
  ended = o.ended;
  stopped_twice = ground (arith, o, same);
  complete = o.complete;
}

pub trans-SameRequests :
    {xs ys zs : List Call} → SameRequests xs ys → SameRequests ys zs → SameRequests xs zs
trans-SameRequests a b = record {
  launched = ground (arith, a, b);
  requested = ground (arith, a, b);
  stopped = ground (arith, a, b);
}

pub detach_queues-Once : (c : Core) → Once c → Once (detach_queues c)
unfolding detach_queues
detach_queues-Once c o =
    let jobs = λ (id : ℕ). queued (c.lanes id).queue in
    calls-Once _ _ c
      (trans-SameRequests (release_all-SameRequests (jobs 3) _) (
        trans-SameRequests (release_all-SameRequests (jobs 2) _) (
          trans-SameRequests (release_all-SameRequests (jobs 1) _)
            (release_all-SameRequests (jobs 0) c.calls))))
      o
