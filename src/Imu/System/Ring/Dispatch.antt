-- ===== src/Imu/System/Ring/Dispatch.antt =====
-- The publishing thread keeps the invariant of the ring.
use robo_baton_4p_ros2_demo.Prelude.{ℕ, ◌+◌, ◌%◌, ◌<◌, ◌≡◌, refl, Bool, arith, ap, ◌∙◌, sym}
use robo_baton_4p_ros2_demo.Imu.Core.{pending_capacity, Core, record_failure}
use robo_baton_4p_ros2_demo.Imu.Ring.{
  Publisher, absent, top, comparing, copying, copied, publishing, empty, last_check, ended, joined,
  publish_next, publish_sample,
}
use robo_baton_4p_ros2_demo.Imu.System.{System, step_from}
use robo_baton_4p_ros2_demo.Imu.System.Ring.Defs.{PublisherOk, RingOk}
use robo_baton_4p_ros2_demo.Imu.System.Ring.Moves.{
  core-RingOk, publish_sample-known, ProducerOk-core,
}

-- A step that touches neither the ring nor the histories.
still-RingOk :
    (s : System) (c : Core) (p : Publisher)
    → (c.pending ≡ s.core.pending)
      × (c.write ≡ s.core.write)
      × (c.read ≡ s.core.read)
      × PublisherOk c s.admitted s.handed s.delivered s.arrivals p
    → RingOk s
    → RingOk (record s { core = c; publisher = p })
still-RingOk s c p (same_slots, same_write, same_read, known) v =
    core-RingOk s c s.producer p s.owner s.driver same_slots same_write same_read
      (ProducerOk-core s.core c s.admitted s.handed s.handed s.producer same_slots same_write
        (omega arith) v.producing)
      known v

compared :
    (throws : Bool) (s : System)
    → RingOk s
    → s.delivered ≡ s.handed
    → let (c, p) = publish_next throws s.core comparing in
      PublisherOk c s.admitted s.handed s.delivered s.arrivals p
unfolding publish_next
compared throws s v o = ground (arith, o, v.write_is, v.read_is, v.ordered)

copied_ok :
    (r : ℕ) (s : System)
    → RingOk s
    → (r ≡ s.core.read) × (s.delivered ≡ s.handed) × (s.handed < s.admitted)
    → PublisherOk s.core s.admitted s.handed s.delivered s.arrivals
        (copied r (s.core.pending (r % pending_capacity)))
copied_ok r s v (e, f, g) =
    let slot : r % pending_capacity ≡ s.handed % pending_capacity = omega (arith, e, v.read_is) in
    (e, f, g, ap s.core.pending slot ∙ v.slots s.handed (omega arith) g)

pub step_from-RingOk :
    (throws : Bool) (s : System) (p : Publisher)
    → PublisherOk s.core s.admitted s.handed s.delivered s.arrivals p
    → RingOk s
    → RingOk (step_from throws s p)
unfolding step_from publish_next record_failure
step_from-RingOk throws s absent o v = still-RingOk s s.core absent (refl, refl, refl, o) v
step_from-RingOk throws s ended o v = still-RingOk s s.core ended (refl, refl, refl, o) v
step_from-RingOk throws s joined o v = still-RingOk s s.core joined (refl, refl, refl, o) v
step_from-RingOk throws s top o v =
    still-RingOk s _ _ (ground arith, ground arith, ground arith, ground (arith, o)) v
step_from-RingOk throws s comparing o v =
    still-RingOk s _ _ (ground arith, ground arith, ground arith, compared throws s v o) v
step_from-RingOk throws s (copying r) o v =
    still-RingOk s s.core _ (refl, refl, refl, copied_ok r s v o) v
step_from-RingOk throws s (copied r p) o v = record {
  write_is = v.write_is;
  read_is = omega (arith, o.0, v.read_is);
  ordered = omega (arith, o.2);
  bounded = omega (arith, v.bounded);
  slots = λ k low high. v.slots k (omega (arith, low)) high;
  producing =
      ProducerOk-core s.core s.core s.admitted s.handed (s.handed + 1) s.producer refl refl
        (omega arith) v.producing;
  consuming = (omega (arith, o.1), o.3 ∙ ap s.arrivals (sym o.1));
  faithful = v.faithful;
}
step_from-RingOk throws s (publishing p) o v =
    let (same_slots, same_write, same_read, known) =
      publish_sample-known throws p s.core s.admitted s.handed (s.delivered + 1) s.arrivals
        (omega (arith, o.0)) in
    record {
      write_is = same_write ∙ v.write_is;
      read_is = same_read ∙ v.read_is;
      ordered = v.ordered;
      bounded = v.bounded;
      slots =
          λ k low high. ap (λ slots. slots (k % pending_capacity)) same_slots ∙ v.slots k low high;
      producing =
          ProducerOk-core s.core (publish_sample throws p s.core).0 s.admitted s.handed s.handed
            s.producer same_slots same_write (omega arith) v.producing;
      consuming = known;
      faithful = λ k h. ground (arith, h, o.1, v.faithful k);
    }
step_from-RingOk throws s (empty r) o v =
    still-RingOk s _ _ (ground arith, ground arith, ground arith, ground (arith, o)) v
step_from-RingOk throws s (last_check r) o v =
    still-RingOk s _ _ (ground arith, ground arith, ground arith, ground (arith, o)) v
