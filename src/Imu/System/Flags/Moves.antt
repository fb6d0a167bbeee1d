-- ===== src/Imu/System/Flags/Moves.antt =====
-- The callback and the publishing thread keep the invariant of the flags.
use robo_baton_4p_ros2_demo.Prelude.{ℕ, ◌+◌, ◌≡◌, Bool, true, arith, subst, Option, none, some}
use robo_baton_4p_ros2_demo.Imu.Core.{PendingSample, record_failure, Sample}
use robo_baton_4p_ros2_demo.Imu.Ring.{
  outside, checking, filling, filled, Publisher, absent, top, comparing, copying, copied,
  publishing, empty, last_check, ended, joined, enter, check_room, fill, store_write, publish_next,
  publish_sample, count_sample, fail_closed,
}
use robo_baton_4p_ros2_demo.Imu.System.{System, step_from}
use robo_baton_4p_ros2_demo.Imu.System.Ring.{RingOk, PublisherOk}
use robo_baton_4p_ros2_demo.Imu.System.Flags.Defs.{FlagsOk}

pub enter-FlagsOk :
    (sample : Option Sample) (now_ns : ℕ) (s : System)
    → s.driver ≡ true
    → FlagsOk s
    → FlagsOk (record s {
      core = (enter sample now_ns s.core).0;
      producer = (enter sample now_ns s.core).1;
    })
unfolding enter
enter-FlagsOk none now_ns s d v = ground (arith, v)
enter-FlagsOk (some x) now_ns s d v = ground (arith, v)

pub check_room-FlagsOk :
    (p : PendingSample) (s : System)
    → s.producer ≡ checking p
    → FlagsOk s
    → FlagsOk (record s { core = (check_room p s.core).0; producer = (check_room p s.core).1 })
unfolding check_room fail_closed
check_room-FlagsOk p s e v = ground (arith, e, v)

pub fill-FlagsOk :
    (w : ℕ) (p : PendingSample) (s : System)
    → s.producer ≡ filling w p
    → FlagsOk s
    → FlagsOk (record s { core = fill w p s.core; producer = filled w p })
unfolding fill
fill-FlagsOk w p s e v = ground (arith, e, v)

pub store_write-FlagsOk :
    (w : ℕ) (p : PendingSample) (s : System) (arrivals : ℕ → PendingSample)
    → s.producer ≡ filled w p
    → FlagsOk s
    → FlagsOk (record s {
      core = store_write w s.core;
      producer = outside;
      admitted = s.admitted + 1;
      arrivals = arrivals;
    })
unfolding store_write
store_write-FlagsOk w p s arrivals e v = ground (arith, e, v)

last_read : (i : ℕ) (s : System) → s.publisher ≡ last_check i → RingOk s → i ≡ s.core.read
last_read i s e r =
    (subst (PublisherOk s.core s.admitted s.handed s.delivered s.arrivals) e r.consuming).0

pub step_from-FlagsOk :
    (throws : Bool) (s : System) (p : Publisher)
    → s.publisher ≡ p
    → RingOk s
    → FlagsOk s
    → FlagsOk (step_from throws s p)
unfolding step_from publish_next publish_sample count_sample record_failure
step_from-FlagsOk throws s absent e r v = ground (arith, e, v)
step_from-FlagsOk throws s top e r v = ground (arith, e, v)
step_from-FlagsOk throws s comparing e r v = ground (arith, e, v)
step_from-FlagsOk throws s ended e r v = ground (arith, e, v)
step_from-FlagsOk throws s joined e r v = ground (arith, e, v)
step_from-FlagsOk throws s (copying i) e r v = ground (arith, e, v)
step_from-FlagsOk throws s (copied i p) e r v = ground (arith, e, v)
step_from-FlagsOk throws s (publishing p) e r v = ground (arith, e, v)
step_from-FlagsOk throws s (empty i) e r v = ground (arith, e, v)
step_from-FlagsOk throws s (last_check i) e r v =
    let known : i ≡ s.core.read = last_read i s e r in
    let same : s.core.read ≡ s.core.write → s.admitted ≡ s.handed =
      λ h. omega (arith, h, r.read_is, r.write_is, r.ordered, r.bounded) in
    ground (arith, e, v, known, same)
