-- ===== src/Camera/Impl/Released.antt =====
-- What a Stop of the publisher that returns leaves.
use robo_baton_4p_ros2_demo.Prelude.{
  ℕ, ◌<◌, ◌≡◌, inl, inr, refl, Bool, true, false, ◌&&◌, not, Bool-cases, arith,
}
use robo_baton_4p_ros2_demo.Options.{Environment}
use robo_baton_4p_ros2_demo.Camera.Frame.{retains, releases}
use robo_baton_4p_ros2_demo.Camera.Core.{max_cameras, Core}
use robo_baton_4p_ros2_demo.Camera.Lifecycle.{
  CleanupEntry, returns, joins, cleanup_begin, cleanup_finish,
}
use robo_baton_4p_ros2_demo.Camera.Callback.{outside}
use robo_baton_4p_ros2_demo.Camera.System.{System, IsDone, Reach}
use robo_baton_4p_ros2_demo.Camera.System.Inv.{Reach-Inv, is_done, is_outside}
use robo_baton_4p_ros2_demo.Camera.System.Ownership.{quiescent-released, unclaimed-released}
use robo_baton_4p_ros2_demo.Camera.Publish.{Config}
use robo_baton_4p_ros2_demo.Camera.Impl.{
  at_rest, in_stop, Publisher, returned, stop_cleanup, begin_stop, end_stop, Comes, moved,
  calls_stop, leaves_stop,
}
use robo_baton_4p_ros2_demo.Camera.Impl.Inv.{is_quiet, PublisherOk}
use robo_baton_4p_ros2_demo.Camera.Impl.Stops.{Comes-Ok, cleanup_begin-quiet}

-- A Stop that returns: at once, or after the joins.
pub data Stops {Env : Type 0} (p : Publisher Env) : Publisher Env → Type 0 where
  at_once : p.phase ≡ at_rest → (begin_stop p).1 ≡ returned → Stops p (begin_stop p).0
  after_joins :
      p.phase ≡ in_stop
      → ((id : ℕ) → id < max_cameras → IsDone (p.system.core.lanes id).worker)
      → p.system.callback ≡ outside
      → Stops p (end_stop false p).0

-- Every frame is given back, no thread of the core runs, the timer is off, and a failure was recorded.
pub record LeavesNothing {Env : Type 0} (p : Publisher Env) : Type 0 where
  pub released : (f : ℕ) → releases f p.system.core.calls ≡ retains f p.system.core.calls
  pub ended : (id : ℕ) → is_done (p.system.core.lanes id).worker ≡ true
  pub no_callback : is_outside p.system.callback ≡ true
  pub stopped : p.is_started ≡ false
  pub timer_off : p.has_timer ≡ false
  pub recorded : p.system.core.failed ≡ true → p.failure_recorded ≡ true

-- What a quiet core leaves.
quiet_system :
    {s : System}
    → Reach s
    → is_quiet s.core ≡ true
    → ((f : ℕ) → releases f s.core.calls ≡ retains f s.core.calls)
      × ((id : ℕ) → is_done (s.core.lanes id).worker ≡ true)
      × (is_outside s.callback ≡ true)
quiet_system {s} r quiet =
    let v = Reach-Inv r in
    elim (Bool-cases s.core.cleanup_complete) [
      | inl complete ↦ (
        quiescent-released r complete,
        λ id. (v.lane id).complete complete,
        (v.flags.cleaned complete).1,
      )
      | inr incomplete ↦
          let unclaimed : s.core.start_claimed ≡ false = ground (arith, quiet, incomplete) in
          (
            unclaimed-released r unclaimed,
            λ id. ground (arith, ((v.lane id).blank unclaimed).0),
            (v.flags.unclaimed unclaimed).0,
          )
    ]

-- What a Stop that returns leaves at once.
record Rests {Env : Type 0} (p : Publisher Env) : Type 0 where
  pub quiet : is_quiet p.system.core ≡ true
  pub stopped : p.is_started ≡ false
  pub timer_off : p.has_timer ≡ false
  pub recorded : p.system.core.failed ≡ true → p.failure_recorded ≡ true

stop_cleanup-Rests :
    {Env : Type 0} (p : Publisher Env) (x : Core × CleanupEntry)
    → (stop_cleanup p x).1 ≡ returned
    → p.has_timer ≡ false
    → ((b : Bool) → x.1 ≡ returns b → is_quiet x.0 ≡ true)
    → Rests (stop_cleanup p x).0
stop_cleanup-Rests p (c, returns true) h off quiet = record {
  quiet = quiet true refl;
  stopped = refl;
  timer_off = off;
  recorded = λ bad. ground (arith, bad);
}
stop_cleanup-Rests p (c, returns false) h off quiet = absurd (ground (arith, h))
stop_cleanup-Rests p (c, joins) h off quiet = absurd (ground (arith, h))

begin_stop-Rests :
    {Env : Type 0} (p : Publisher Env)
    → p.phase ≡ at_rest
    → PublisherOk p
    → (begin_stop p).1 ≡ returned
    → Rests (begin_stop p).0
unfolding begin_stop
begin_stop-Rests p rest v h =
    let quiet = record p { has_timer = false } in
    let end = stop_cleanup quiet (cleanup_begin p.system.core) in
    elim (Bool-cases (not p.is_started && not p.system.core.failed)) [
      | inl nothing ↦
          let unstarted : p.is_started ≡ false = ground (arith, nothing) in
          let fine : p.system.core.failed ≡ false = ground (arith, nothing) in
          rw nothing (record {
            quiet = v.unstarted rest unstarted fine;
            stopped = unstarted;
            timer_off = refl;
            recorded = λ bad. absurd (ground (arith, bad, fine));
          })
      | inr something ↦
          let cleaned : end.1 ≡ returned = ground (arith, h, something) in
          rw something (
            stop_cleanup-Rests quiet (cleanup_begin p.system.core) cleaned refl
              (cleanup_begin-quiet p.system.core))
    ]

end_stop-Rests :
    {Env : Type 0} (p : Publisher Env) → p.has_timer ≡ false → Rests (end_stop false p).0
unfolding end_stop cleanup_finish
end_stop-Rests p off = record {
  quiet = ground arith;
  stopped = refl;
  timer_off = off;
  recorded = λ bad. ground (arith, bad);
}

Rests-LeavesNothing : {Env : Type 0} {p : Publisher Env} → PublisherOk p → Rests p → LeavesNothing p
Rests-LeavesNothing v rests =
    let (released, ended, out) = quiet_system v.reach rests.quiet in
    record {
      released = released;
      ended = ended;
      no_callback = out;
      stopped = rests.stopped;
      timer_off = rests.timer_off;
      recorded = rests.recorded;
    }

-- In whatever order Start and Stop were called before, and whatever libsc132, the environment, the
-- publications and the joins did: when a Stop of the publisher returns, every retained frame has been
-- given back, every worker has ended, no callback is under way, the timer is off, and a failure of the
-- core has been recorded.
pub stop-LeavesNothing :
    (c : Environment) (config : Config) {p q : Publisher c.Env}
    → Comes c config p
    → Stops p q
    → LeavesNothing q
stop-LeavesNothing c config {p} comes (at_once rest h) =
    Rests-LeavesNothing (Comes-Ok c config (moved comes (calls_stop rest)))
      (begin_stop-Rests p rest (Comes-Ok c config comes) h)
stop-LeavesNothing c config {p} comes (after_joins e done out) =
    Rests-LeavesNothing (Comes-Ok c config (moved comes (leaves_stop e done out)))
      (end_stop-Rests p ((Comes-Ok c config comes).timer_off e))
