-- ===== src/Imu/System/Failure.antt =====
-- What a failure of the IMU's core does: it is reported once, and it closes the core.
use robo_baton_4p_ros2_demo.Prelude.{
  ℕ, ◌+◌, ◌≤◌, ◌≡◌, refl, Bool, true, false, if◌then◌else◌, arith, Option, none, some,
}
use robo_baton_4p_ros2_demo.Imu.Core.{ImuCoreConfig, Core, new_core, record_failure, Sample}
use robo_baton_4p_ros2_demo.Imu.Ring.{
  Producer, outside, Publisher, absent, top, comparing, copying, copied, publishing, empty,
  last_check, ended, joined, enter, check_room, fill, store_write, publish_next, publish_sample,
  count_sample, count_arrival, fail_closed,
}
use robo_baton_4p_ros2_demo.Imu.Lifecycle.{
  StartReplies, start_begin, start_with_handle, give_up, create_failed, start_failed,
  driver_stopped, start_abandon, stop_begin, stop_finish,
}
use robo_baton_4p_ros2_demo.Imu.System.{
  System, initial, after_start, Step, calls_start, start_succeeds, start_fails, start_stops,
  start_abandons, calls_stop, stops, finishes, enters, checks, fills, stores, publishes, Reach,
  constructed, later, publisher_step, step_from,
}
use robo_baton_4p_ros2_demo.Imu.System.Flags.{FlagsOk}
use robo_baton_4p_ros2_demo.Imu.System.Inv.{Reach-Inv}

-- The systems that come after one.
pub data After (s : System) : System → Type 0 where
  at_once : After s s
  then_ : {t u : System} → After s t → Step t u → After s u

-- A sample that the callback has let in and not stored yet.
unfoldable pub in_callback : Producer → ℕ
in_callback outside = 0
in_callback _ = 1

-- A sample that the publishing thread may still hand to the sink before it looks at `failed_`.
in_loop : Publisher → ℕ
in_loop comparing = 1
in_loop (copying r) = 1
in_loop (copied r p) = 1
in_loop (publishing p) = 1
in_loop _ = 0

-- From `s` to `t` the core stays failed and nothing is let in anew.
record Closing (s t : System) : Type 0 where
  still_failed : t.core.failed ≡ true
  no_more_in : t.admitted + in_callback t.producer ≤ s.admitted + in_callback s.producer
  no_more_out : t.delivered + in_loop t.publisher ≤ s.delivered + in_loop s.publisher

start_begin-Closing :
    (config : ImuCoreConfig) (r : StartReplies) (s : System)
    → s.core.failed ≡ true
    → Closing s (after_start s (start_begin config r s.core))
unfolding start_begin start_with_handle give_up create_failed record_failure in_loop
start_begin-Closing config r s f = ground (arith, f)

enter-Closing :
    (sample : Option Sample) (now_ns : ℕ) (s : System)
    → s.core.failed ≡ true
    → s.core.admission ≡ false
    → Closing s (record s {
      core = (enter sample now_ns s.core).0;
      producer = (enter sample now_ns s.core).1;
    })
unfolding enter count_arrival in_callback
enter-Closing sample now_ns s f a = ground (arith, f, a)

step_from-Closing :
    (throws : Bool) (s : System) (p : Publisher)
    → s.publisher ≡ p
    → s.core.failed ≡ true
    → Closing s (step_from throws s p)
unfolding step_from publish_next publish_sample count_sample record_failure in_loop
step_from-Closing throws s absent e f = ground (arith, e, f)
step_from-Closing throws s top e f = ground (arith, e, f)
step_from-Closing throws s comparing e f = ground (arith, e, f)
step_from-Closing throws s ended e f = ground (arith, e, f)
step_from-Closing throws s joined e f = ground (arith, e, f)
step_from-Closing throws s (copying i) e f = ground (arith, e, f)
step_from-Closing throws s (copied i p) e f = ground (arith, e, f)
step_from-Closing throws s (publishing p) e f = ground (arith, e, f)
step_from-Closing throws s (empty i) e f = ground (arith, e, f)
step_from-Closing throws s (last_check i) e f = ground (arith, e, f)

step-Closing : {s t : System} → Step s t → FlagsOk s → s.core.failed ≡ true → Closing s t
unfolding publisher_step start_failed driver_stopped start_abandon stop_begin stop_finish
    record_failure check_room fill store_write in_callback in_loop
step-Closing {s} (calls_start config r e) w f = start_begin-Closing config r s f
step-Closing {s} (start_succeeds e) w f = ground (arith, f)
step-Closing {s} (start_fails e) w f = ground (arith, f)
step-Closing {s} (start_stops status e o) w f = ground (arith, f)
step-Closing {s} (start_abandons e d o) w f = ground (arith, f)
step-Closing {s} (calls_stop e) w f = ground (arith, f)
step-Closing {s} (stops status e o) w f = ground (arith, f)
step-Closing {s} (finishes status e d o) w f = ground (arith, f)
step-Closing {s} (enters sample now_ns d o) w f = enter-Closing sample now_ns s f (w.closed f)
step-Closing {s} (checks p e) w f = ground (arith, e, f)
step-Closing {s} (fills write p e) w f = ground (arith, e, f)
step-Closing {s} (stores write p e) w f = ground (arith, e, f)
step-Closing {s} (publishes throws) w f = step_from-Closing throws s s.publisher refl f

After-Closing : {s t : System} → Reach s → s.core.failed ≡ true → After s t → Reach t × Closing s t
After-Closing {s} r f at_once =
    (r, record { still_failed = f; no_more_in = omega arith; no_more_out = omega arith })
After-Closing {s} r f (then_ {t} {u} path step) =
    let (reached, so_far) = After-Closing r f path in
    let now = step-Closing step (Reach-Inv reached).flags so_far.still_failed in
    (
      later reached step,
      record {
        still_failed = now.still_failed;
        no_more_in = omega (arith, so_far.no_more_in, now.no_more_in);
        no_more_out = omega (arith, so_far.no_more_out, now.no_more_out);
      },
    )

pub in_callback-bound : (p : Producer) → in_callback p ≤ 1
unfolding in_callback
in_callback-bound p = ground arith

in_loop-bound : (p : Publisher) → in_loop p ≤ 1
unfolding in_loop
in_loop-bound p = ground arith

-- Once a failure is recorded in a system that is reached, then however the threads go on, the failure
-- stays recorded and the admission closed, at most one more sample is admitted (the one that the
-- callback is at), and the sink is called at most once more.
pub failure_closes :
    (s t : System)
    → Reach s
    → s.core.failed ≡ true
    → After s t
    → (t.core.failed ≡ true)
      × (t.core.admission ≡ false)
      × (t.admitted ≤ s.admitted + 1)
      × (t.delivered ≤ s.delivered + 1)
failure_closes s t r f path =
    let (reached, closing) = After-Closing r f path in
    (
      closing.still_failed,
      (Reach-Inv reached).flags.closed closing.still_failed,
      omega (arith, closing.no_more_in, in_callback-bound s.producer),
      omega (arith, closing.no_more_out, in_loop-bound s.publisher),
    )

-- How often the notifier was called, and that it was called for a failure.
record NotifiedOk (c : Core) : Type 0 where
  at_most : c.notified ≤ (if c.failure_notified then 1 else 0)
  for_failure : c.failure_notified ≡ true → c.failed ≡ true

publish_next-NotifiedOk :
    (throws : Bool) (c : Core) (p : Publisher)
    → NotifiedOk c
    → NotifiedOk (publish_next throws c p).0
unfolding publish_next publish_sample count_sample record_failure
publish_next-NotifiedOk throws c absent v = ground (arith, v)
publish_next-NotifiedOk throws c top v = ground (arith, v)
publish_next-NotifiedOk throws c comparing v = ground (arith, v)
publish_next-NotifiedOk throws c ended v = ground (arith, v)
publish_next-NotifiedOk throws c joined v = ground (arith, v)
publish_next-NotifiedOk throws c (copying i) v = ground (arith, v)
publish_next-NotifiedOk throws c (copied i p) v = ground (arith, v)
publish_next-NotifiedOk throws c (publishing p) v = ground (arith, v)
publish_next-NotifiedOk throws c (empty i) v = ground (arith, v)
publish_next-NotifiedOk throws c (last_check i) v = ground (arith, v)

start_begin-NotifiedOk :
    (config : ImuCoreConfig) (r : StartReplies) (s : System)
    → NotifiedOk s.core
    → NotifiedOk (after_start s (start_begin config r s.core)).core
unfolding start_begin start_with_handle give_up create_failed record_failure
start_begin-NotifiedOk config r s v = ground (arith, v)

enter-NotifiedOk :
    (sample : Option Sample) (now_ns : ℕ) (c : Core)
    → NotifiedOk c
    → NotifiedOk (enter sample now_ns c).0
unfolding enter count_arrival fail_closed
enter-NotifiedOk none now_ns c v = ground (arith, v)
enter-NotifiedOk (some x) now_ns c v = ground (arith, v)

step-NotifiedOk : {s t : System} → Step s t → NotifiedOk s.core → NotifiedOk t.core
unfolding publisher_step step_from start_failed driver_stopped start_abandon stop_begin stop_finish
    record_failure check_room fail_closed fill store_write
step-NotifiedOk {s} (calls_start config r e) v = start_begin-NotifiedOk config r s v
step-NotifiedOk {s} (start_succeeds e) v = ground (arith, v)
step-NotifiedOk {s} (start_fails e) v = ground (arith, v)
step-NotifiedOk {s} (start_stops status e o) v = ground (arith, v)
step-NotifiedOk {s} (start_abandons e d o) v = ground (arith, v)
step-NotifiedOk {s} (calls_stop e) v = ground (arith, v)
step-NotifiedOk {s} (stops status e o) v = ground (arith, v)
step-NotifiedOk {s} (finishes status e d o) v = ground (arith, v)
step-NotifiedOk {s} (enters sample now_ns d o) v = enter-NotifiedOk sample now_ns s.core v
step-NotifiedOk {s} (checks p e) v = ground (arith, v)
step-NotifiedOk {s} (fills write p e) v = ground (arith, v)
step-NotifiedOk {s} (stores write p e) v = ground (arith, v)
step-NotifiedOk {s} (publishes throws) v = publish_next-NotifiedOk throws s.core s.publisher v

Reach-NotifiedOk : {s : System} → Reach s → NotifiedOk s.core
unfolding initial new_core
Reach-NotifiedOk constructed = ground arith
Reach-NotifiedOk (later r step) = step-NotifiedOk step (Reach-NotifiedOk r)

-- In every system that is reached, the failure notifier was called at most once, and only if a failure
-- is recorded.
pub notified_once :
    (s : System) → Reach s → (s.core.notified ≤ 1) × (s.core.notified ≡ 1 → s.core.failed ≡ true)
notified_once s r =
    let v = Reach-NotifiedOk r in
    (ground (arith, v.at_most), λ e. ground (arith, e, v.at_most, v.for_failure))
