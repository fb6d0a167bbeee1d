-- ===== src/Imu/System/Measure.antt =====
-- A measure of the publishing thread's way to its end, and how its own steps change it.
use robo_baton_4p_ros2_demo.Prelude.{
  ℕ, ◌*◌, ◌+◌, ◌-◌, ◌≤◌, ◌<◌, ◌≡◌, ◌⊎◌, Bool, true, false, ◌==◌, if◌then◌else◌, arith, subst,
}
use robo_baton_4p_ros2_demo.Imu.Core.{record_failure}
use robo_baton_4p_ros2_demo.Imu.Ring.{
  Publisher, absent, top, comparing, copying, copied, publishing, empty, last_check, ended, joined,
  publish_next, publish_sample, count_sample,
}
use robo_baton_4p_ros2_demo.Imu.System.{System, step_from}
use robo_baton_4p_ros2_demo.Imu.System.Ring.{RingOk, PublisherOk}
use robo_baton_4p_ros2_demo.Imu.System.Flags.{is_absent, is_over}

-- How many more steps the thread takes before it looks at the ring again, with `n` samples in it.
unfoldable pub rank : ℕ → Publisher → ℕ
rank n top = 9
rank n comparing = 8
rank n (copying r) = 3
rank n (copied r p) = 2
rank n (publishing p) = 10
rank n (empty r) = if n == 0 then 2 else 11
rank n (last_check r) = if n == 0 then 1 else 10
rank n _ = 0

-- A bound of the steps of the thread until it ends.
unfoldable pub measure : System → ℕ
measure s = rank (s.admitted - s.handed) s.publisher + 12 * (s.admitted - s.handed)

-- A thread that was created takes a step towards its end, or is there.
pub step_down :
    (throws : Bool) (s : System) (p : Publisher)
    → s.publisher ≡ p
    → is_absent p ≡ false
    → s.core.publisher_stop ≡ true
    → RingOk s
    → let t = step_from throws s p in
      (t.core.publisher_stop ≡ true)
      × (is_absent t.publisher ≡ false)
      × ((is_over t.publisher ≡ true) ⊎ (measure t < measure s))
unfolding step_from publish_next publish_sample count_sample record_failure measure rank
step_down throws s absent e n f v = ground (arith, n)
step_down throws s ended e n f v = ground (arith, f)
step_down throws s joined e n f v = ground (arith, f)
step_down throws s top e n f v = ground (arith, e, f, v.ordered)
step_down throws s comparing e n f v =
    let full : s.core.read ≡ s.core.write → s.admitted ≡ s.handed =
      λ h. omega (arith, h, v.read_is, v.write_is, v.ordered, v.bounded) in
    let none_left : s.admitted ≡ s.handed → s.core.read ≡ s.core.write =
      λ h. omega (arith, h, v.read_is, v.write_is) in
    ground (arith, e, f, full, none_left, v.ordered)
step_down throws s (copying i) e n f v = ground (arith, e, f, v.ordered)
step_down throws s (copied i p) e n f v =
    let known =
      subst (PublisherOk s.core s.admitted s.handed s.delivered s.arrivals) e v.consuming in
    ground (arith, e, f, known, v.ordered)
step_down throws s (publishing p) e n f v = ground (arith, e, f, v.ordered)
step_down throws s (empty i) e n f v = ground (arith, e, f, v.ordered)
step_down throws s (last_check i) e n f v =
    let known =
      subst (PublisherOk s.core s.admitted s.handed s.delivered s.arrivals) e v.consuming in
    let none_left : s.admitted ≡ s.handed → s.core.read ≡ s.core.write =
      λ h. omega (arith, h, v.read_is, v.write_is) in
    ground (arith, e, f, known, none_left, v.ordered)

pub stays_over :
    (throws : Bool) (s : System) (p : Publisher)
    → is_over p ≡ true
    → is_over (step_from throws s p).publisher ≡ true
unfolding step_from publish_next
stays_over throws s p e = ground (arith, e)

pub unmeasured :
    (s : System) → is_absent s.publisher ≡ false → measure s ≤ 0 → is_over s.publisher ≡ true
unfolding measure rank
unmeasured s a m = ground (arith, a, m)

pub measure-bound : (s : System) → measure s ≤ 12 * (s.admitted - s.handed) + 12
unfolding measure rank
measure-bound s = ground arith
