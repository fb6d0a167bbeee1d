-- ===== src/Imu/System/Delivery.antt =====
-- What the sink of the IMU's samples is called with: every sample that the callback admits, in order.
use robo_baton_4p_ros2_demo.Prelude.{
  ℕ, ◌+◌, ◌%◌, ◌≤◌, ◌<◌, ◌≡◌, true, false, ◌||◌, ◌==◌, arith, subst,
}
use robo_baton_4p_ros2_demo.Imu.Core.{pending_capacity, PendingSample, Core}
use robo_baton_4p_ros2_demo.Imu.Ring.{
  filling, Publisher, absent, top, comparing, copying, copied, publishing, empty, last_check, ended,
  joined,
}
use robo_baton_4p_ros2_demo.Imu.System.{idle, System, Reach}
use robo_baton_4p_ros2_demo.Imu.System.Ring.{RingOk, PublisherOk, ProducerOk}
use robo_baton_4p_ros2_demo.Imu.System.Flags.{FlagsOk, is_absent, is_over, is_idle, is_blamed}
use robo_baton_4p_ros2_demo.Imu.System.Inv.{Reach-Inv}

taken_once :
    (c : Core) (a h d : ℕ) (arrivals : ℕ → PendingSample) (p : Publisher)
    → PublisherOk c a h d arrivals p
    → (d ≤ h) × (h ≤ d + 1)
taken_once c a h d f absent o = omega (arith, o)
taken_once c a h d f top o = omega (arith, o)
taken_once c a h d f comparing o = omega (arith, o)
taken_once c a h d f ended o = omega (arith, o)
taken_once c a h d f joined o = omega (arith, o)
taken_once c a h d f (copying r) o = omega (arith, o)
taken_once c a h d f (empty r) o = omega (arith, o)
taken_once c a h d f (last_check r) o = omega (arith, o)
taken_once c a h d f (copied r p) o = omega (arith, o)
taken_once c a h d f (publishing p) o = omega (arith, o)

resting :
    (c : Core) (a h d : ℕ) (arrivals : ℕ → PendingSample) (p : Publisher)
    → is_absent p || is_over p ≡ true
    → PublisherOk c a h d arrivals p
    → d ≡ h
resting c a h d arrivals p e o = ground (arith, e, o)

drained :
    (s : System)
    → RingOk s
    → FlagsOk s
    → is_absent s.publisher || is_over s.publisher ≡ true
    → s.core.failed ≡ false
    → s.core.stop_failed ≡ false
    → s.delivered ≡ s.admitted
drained s v w e f g =
    let all : s.delivered ≡ s.handed =
      resting s.core s.admitted s.handed s.delivered s.arrivals s.publisher e v.consuming in
    ground (arith, e, f, g, all, v.ordered, w.created, w.over)

-- In every system that is reached, the sink was called with the samples that the callback admitted, in
-- the order in which it admitted them, without a gap or a repetition; and at most 1025 are admitted and
-- not yet handed to the sink, the 1024 of the ring and the one that the sink is about to be called with.
pub deliveries_in_order :
    (s : System)
    → Reach s
    → ((k : ℕ) → k < s.delivered → s.deliveries k ≡ s.arrivals k)
      × (s.delivered ≤ s.admitted)
      × (s.admitted ≤ s.delivered + 1025)
deliveries_in_order s r =
    let v = (Reach-Inv r).ring in
    let near : (s.delivered ≤ s.handed) × (s.handed ≤ s.delivered + 1) =
      taken_once s.core s.admitted s.handed s.delivered s.arrivals s.publisher v.consuming in
    (v.faithful, omega (arith, near, v.ordered), omega (arith, near, v.bounded))

-- In every system that is reached, while the callback writes one slot of the ring and the publishing
-- thread copies one, the two slots are different.
pub slots_apart :
    (s : System) (w r : ℕ) (p : PendingSample)
    → Reach s
    → s.producer ≡ filling w p
    → s.publisher ≡ copying r
    → (w % pending_capacity == r % pending_capacity) ≡ false
slots_apart s w r p reached e f =
    let v = (Reach-Inv reached).ring in
    let writes : (w ≡ s.core.write) × (s.admitted < s.handed + pending_capacity) =
      subst (ProducerOk s.core s.admitted s.handed) e v.producing in
    let reads : (r ≡ s.core.read) × (s.delivered ≡ s.handed) × (s.handed < s.admitted) =
      subst (PublisherOk s.core s.admitted s.handed s.delivered s.arrivals) f v.consuming in
    ground (arith, writes, reads, v.write_is, v.read_is)

-- In every system that is reached in which the owner has stopped for good and no failure was recorded,
-- every sample that was admitted was handed to the sink.
pub stopped-drained :
    (s : System)
    → Reach s
    → s.owner ≡ idle
    → s.core.terminal ≡ true
    → s.core.failed ≡ false
    → s.delivered ≡ s.admitted
stopped-drained s r e t f =
    let v = (Reach-Inv r).ring in
    let w = (Reach-Inv r).flags in
    let idle_ : is_idle s.owner ≡ true = ground (arith, e) in
    let unblamed : is_blamed s.owner ≡ false = ground (arith, e) in
    drained s v w ((w.settled idle_ t).0) f (ground (arith, w.reported, unblamed, f))
