-- ===== src/Imu/Impl/Stopped.antt =====
-- What a Stop of the IMU's publisher that returns leaves.
use robo_baton_4p_ros2_demo.Prelude.{
  ◌≡◌, ◌⊎◌, inl, inr, refl, true, false, ◌&&◌, ◌||◌, not, ℤ, Bool-cases, arith,
}
use robo_baton_4p_ros2_demo.Imu.Core.{Core}
use robo_baton_4p_ros2_demo.Imu.Ring.{outside}
use robo_baton_4p_ros2_demo.Imu.Lifecycle.{
  StopOutcome, returns, asks_driver_to_stop, finishes_publisher, stop_begin,
}
use robo_baton_4p_ros2_demo.Imu.System.{idle, joining, System, IsDone, Reach}
use robo_baton_4p_ros2_demo.Imu.System.Flags.{FlagsOk, is_absent, is_over, is_outside}
use robo_baton_4p_ros2_demo.Imu.System.Inv.{Reach-Inv}
use robo_baton_4p_ros2_demo.Imu.System.Delivery.{deliveries_in_order, stopped-drained}
use robo_baton_4p_ros2_demo.Imu.System.Driver.{phase, fresh, gone, driver_protocol}
use robo_baton_4p_ros2_demo.Imu.Publish.{Config}
use robo_baton_4p_ros2_demo.Imu.Impl.{
  at_rest, in_stop, Publisher, returned, stop_core, begin_stop, end_stop, Comes, moved, calls_stop,
  returns_stop,
}
use robo_baton_4p_ros2_demo.Imu.Impl.Threads.{is_quiet}
use robo_baton_4p_ros2_demo.Imu.Impl.Inv.{
  PublisherOk, Comes-Ok, stop_begin-terminal, stop_finish-terminal,
}

-- A Stop that returns: at once, or after the join.
pub data Stops (p : Publisher) : Publisher → Type 0 where
  at_once : p.phase ≡ at_rest → (begin_stop p).1 ≡ returned → Stops p (begin_stop p).0
  after_join :
      (status : ℤ)
      → p.phase ≡ in_stop
      → p.system.owner ≡ joining status
      → IsDone p.system.publisher
      → p.system.producer ≡ outside
      → Stops p (end_stop status p)

-- The driver was given back or never asked, no thread is left, the timer is off, a failure was recorded,
-- and without one every sample was handed on.
pub record GivesBack (p : Publisher) : Type 0 where
  pub no_handle : p.system.core.has_handle ≡ false
  pub protocol : (phase p.system.core.calls ≡ fresh) ⊎ (phase p.system.core.calls ≡ gone)
  pub no_driver : p.system.driver ≡ false
  pub no_callback : is_outside p.system.producer ≡ true
  pub no_thread : is_absent p.system.publisher || is_over p.system.publisher ≡ true
  pub drained : p.system.core.failed ≡ false → p.system.delivered ≡ p.system.admitted
  pub stopped : p.is_started ≡ false
  pub timer_off : p.has_timer ≡ false
  pub recorded : p.system.core.failed ≡ true → p.failure_recorded ≡ true

-- What a quiet core leaves.
record Quiet (s : System) : Type 0 where
  pub no_handle : s.core.has_handle ≡ false
  pub no_thread : is_absent s.publisher || is_over s.publisher ≡ true
  pub drained : s.core.failed ≡ false → s.delivered ≡ s.admitted

Quiet-system : (s : System) → Reach s → s.owner ≡ idle → is_quiet s.core ≡ true → Quiet s
Quiet-system s r o quiet =
    let flags = (Reach-Inv r).flags in
    elim (Bool-cases s.core.terminal) [
      | inl ended ↦
          let (over, no_handle) = flags.settled (ground (arith, o)) ended in
          record {
            no_handle = no_handle;
            no_thread = over;
            drained = λ fine. stopped-drained s r o ended fine;
          }
      | inr open_ ↦
          let unclaimed : s.core.start_claimed ≡ false = ground (arith, quiet, open_) in
          let (no_loop, no_driver, no_handle, fine, closed) = flags.unclaimed unclaimed in
          record {
            no_handle = no_handle;
            no_thread = rw no_loop refl;
            drained =
                λ fine'. omega (arith, (flags.created no_loop).0, (deliveries_in_order s r).1);
          }
    ]

not_driven : (s : System) → FlagsOk s → s.core.has_handle ≡ false → s.driver ≡ false
not_driven s v h = elim (Bool-cases s.driver) [
  | inl on ↦ absurd (ground (arith, (v.running on).1, h))
  | inr off ↦ off
]

-- What Stop leaves at once.
record Rests (p : Publisher) : Type 0 where
  pub owner : p.system.owner ≡ idle
  pub quiet : is_quiet p.system.core ≡ true
  pub stopped : p.is_started ≡ false
  pub timer_off : p.has_timer ≡ false
  pub recorded : p.system.core.failed ≡ true → p.failure_recorded ≡ true

stop_core-Rests :
    (p : Publisher) (x : Core × StopOutcome)
    → (stop_core p x).1 ≡ returned
    → p.system.owner ≡ idle
    → p.has_timer ≡ false
    → x.0.terminal ≡ true
    → Rests (stop_core p x).0
stop_core-Rests p (c, returns b) h o off ended = record {
  owner = o;
  quiet = rw ended refl;
  stopped = refl;
  timer_off = off;
  recorded = λ bad. ground (arith, bad);
}
stop_core-Rests p (c, asks_driver_to_stop) h o off ended = absurd (ground (arith, h))
stop_core-Rests p (c, finishes_publisher) h o off ended = absurd (ground (arith, h))

begin_stop-Rests :
    (p : Publisher)
    → p.phase ≡ at_rest
    → PublisherOk p
    → (begin_stop p).1 ≡ returned
    → Rests (begin_stop p).0
unfolding begin_stop
begin_stop-Rests p rest v h =
    let quiet = record p { has_timer = false } in
    let end = stop_core quiet (stop_begin p.system.core) in
    elim (Bool-cases (not p.is_started && not p.system.core.failed)) [
      | inl nothing ↦
          let unstarted : p.is_started ≡ false = ground (arith, nothing) in
          let fine : p.system.core.failed ≡ false = ground (arith, nothing) in
          rw nothing (record {
            owner = v.owner rest;
            quiet = v.unstarted rest unstarted fine;
            stopped = unstarted;
            timer_off = refl;
            recorded = λ bad. absurd (ground (arith, bad, fine));
          })
      | inr something ↦
          let cleaned : end.1 ≡ returned = ground (arith, h, something) in
          rw something (
            stop_core-Rests quiet (stop_begin p.system.core) cleaned (v.owner rest) refl
              (stop_begin-terminal p.system.core))
    ]

end_stop-Rests :
    (status : ℤ) (p : Publisher)
    → p.system.core.terminal ≡ true
    → p.has_timer ≡ false
    → Rests (end_stop status p)
unfolding end_stop
end_stop-Rests status p ended off = record {
  owner = refl;
  quiet = rw (stop_finish-terminal status p.system.core, ended) refl;
  stopped = refl;
  timer_off = off;
  recorded = λ bad. ground (arith, bad);
}

Rests-GivesBack : (p : Publisher) → PublisherOk p → Rests p → GivesBack p
Rests-GivesBack p v rests =
    let flags = (Reach-Inv v.reach).flags in
    let system = Quiet-system p.system v.reach rests.owner rests.quiet in
    let off = not_driven p.system flags system.no_handle in
    record {
      no_handle = system.no_handle;
      protocol = (driver_protocol p.system v.reach rests.owner).1 system.no_handle;
      no_driver = off;
      no_callback = flags.quiet off;
      no_thread = system.no_thread;
      drained = system.drained;
      stopped = rests.stopped;
      timer_off = rests.timer_off;
      recorded = rests.recorded;
    }

-- In whatever order Start and Stop were called before, and whatever the driver answered: when a Stop of
-- the IMU's publisher returns, the handle was given back in the order that the driver asks for, or there
-- never was one; the driver calls no more, no callback is under way and the publishing thread has ended;
-- the timer is off, and a failure was recorded; and without a failure every sample that was let in was
-- handed on.
pub stop-GivesBack : (config : Config) {p q : Publisher} → Comes config p → Stops p q → GivesBack q
stop-GivesBack config {p} comes (at_once rest h) =
    Rests-GivesBack (begin_stop p).0 (Comes-Ok config (moved comes (calls_stop rest)))
      (begin_stop-Rests p rest (Comes-Ok config comes) h)
stop-GivesBack config {p} comes (after_join status e o done out) =
    let (ended, off) = (Comes-Ok config comes).stopping e in
    Rests-GivesBack (end_stop status p)
      (Comes-Ok config (moved comes (returns_stop status e o done out)))
      (end_stop-Rests status p ended off)
