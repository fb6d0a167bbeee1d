-- ===== src/Imu/System/Inv.antt =====
-- The invariant of the ring and of the flags holds in every system that is reached.
use robo_baton_4p_ros2_demo.Prelude.{ℕ, ◌≡◌, inl, inr, refl, true, false, ◌||◌, arith}
use robo_baton_4p_ros2_demo.Imu.Core.{ImuCoreConfig, PendingSample, Core}
use robo_baton_4p_ros2_demo.Imu.Ring.{Publisher}
use robo_baton_4p_ros2_demo.Imu.Lifecycle.{
  StartReplies, asks_driver, start_begin, start_with_handle, stop_begin,
}
use robo_baton_4p_ros2_demo.Imu.System.{
  idle, start_stopping, start_joining, joining, System, join, IsDone, Step, calls_start,
  start_succeeds, start_fails, start_stops, start_abandons, calls_stop, stops, finishes, enters,
  checks, fills, stores, publishes, Reach, constructed, later, publisher_step,
}
use robo_baton_4p_ros2_demo.Imu.System.Ring.{
  RingOk, PublisherOk, owner-RingOk, start_begin-SameRing, stop_begin-SameRing,
  stop_finish-SameRing, start_failed-SameRing, driver_stopped-SameRing, start_abandon-SameRing,
  initial-RingOk, enter-RingOk, check_room-RingOk, fill-RingOk, store_write-RingOk,
  step_from-RingOk, join_known, after_start-RingOk, after_stop-RingOk,
}
use robo_baton_4p_ros2_demo.Imu.System.Flags.{
  FlagsOk, initial-FlagsOk, is_absent, is_over, start_begin-FlagsOk, start_succeeds-FlagsOk,
  start_failed-FlagsOk, driver_stopped-FlagsOk, start_abandon-FlagsOk, stop_begin-FlagsOk,
  stop_finish-FlagsOk, enter-FlagsOk, check_room-FlagsOk, fill-FlagsOk, store_write-FlagsOk,
  step_from-FlagsOk,
}

absent_delivered :
    (c : Core) (a h d : ℕ) (arrivals : ℕ → PendingSample) (p : Publisher)
    → is_absent p ≡ true
    → PublisherOk c a h d arrivals p
    → d ≡ h
absent_delivered c a h d arrivals p e o = ground (arith, e, o)

absent_known : (s : System) → RingOk s → is_absent s.publisher ≡ true → s.delivered ≡ s.handed
absent_known s v e =
    absent_delivered s.core s.admitted s.handed s.delivered s.arrivals s.publisher e v.consuming

begins_first :
    (config : ImuCoreConfig) (r : StartReplies) (s : System)
    → RingOk s
    → FlagsOk s
    → (start_begin config r s.core).1 ≡ asks_driver
    → s.delivered ≡ s.handed
unfolding start_begin start_with_handle
begins_first config r s v w e =
    let fresh : s.core.start_claimed ≡ false = ground (arith, e) in
    absent_known s v ((w.unclaimed fresh).0)

pub record Inv (s : System) : Type 0 where
  pub ring : RingOk s
  pub flags : FlagsOk s

pub step-RingOk : {s t : System} → Step s t → RingOk s → FlagsOk s → RingOk t
unfolding publisher_step
step-RingOk {s} (calls_start config r e) v w =
    after_start-RingOk s (start_begin config r s.core) (start_begin-SameRing config r s.core)
      (begins_first config r s v w) v
step-RingOk {s} (start_succeeds e) v w =
    owner-RingOk s s.core s.publisher idle s.driver (refl, refl, refl) v.consuming v
step-RingOk {s} (start_fails e) v w =
    owner-RingOk s _ s.publisher start_stopping s.driver (start_failed-SameRing s.core) v.consuming
      v
step-RingOk {s} (start_stops status e o) v w =
    owner-RingOk s _ s.publisher start_joining _ (driver_stopped-SameRing status s.core) v.consuming
      v
step-RingOk {s} (start_abandons e d o) v w =
    owner-RingOk s _ (join s.publisher) idle false (start_abandon-SameRing s.core)
      (join_known s.core s.admitted s.handed s.delivered s.arrivals s.publisher d v.consuming) v
step-RingOk {s} (calls_stop e) v w =
    after_stop-RingOk s (stop_begin s.core) (stop_begin-SameRing s.core) v
step-RingOk {s} (stops status e o) v w =
    owner-RingOk s _ s.publisher (joining status) _ (driver_stopped-SameRing status s.core)
      v.consuming v
step-RingOk {s} (finishes status e d o) v w =
    owner-RingOk s _ (join s.publisher) idle false (stop_finish-SameRing status s.core)
      (join_known s.core s.admitted s.handed s.delivered s.arrivals s.publisher d v.consuming) v
step-RingOk {s} (enters sample now_ns d o) v w = enter-RingOk sample now_ns s v
step-RingOk {s} (checks p e) v w = check_room-RingOk p s v
step-RingOk {s} (fills write p e) v w = fill-RingOk write p s e v
step-RingOk {s} (stores write p e) v w = store_write-RingOk write p s e v
step-RingOk {s} (publishes throws) v w = step_from-RingOk throws s s.publisher v.consuming v

done_over : (p : Publisher) → IsDone p → is_absent p || is_over p ≡ true
done_over p (inl e) = ground (arith, e)
done_over p (inr (inl e)) = ground (arith, e)
done_over p (inr (inr e)) = ground (arith, e)

pub step-FlagsOk : {s t : System} → Step s t → RingOk s → FlagsOk s → FlagsOk t
unfolding publisher_step
step-FlagsOk {s} (calls_start config r e) v w = start_begin-FlagsOk config r s e w
step-FlagsOk {s} (start_succeeds e) v w = start_succeeds-FlagsOk s e w
step-FlagsOk {s} (start_fails e) v w = start_failed-FlagsOk s e w
step-FlagsOk {s} (start_stops status e o) v w =
    driver_stopped-FlagsOk status start_joining s (inl (e, refl)) o w
step-FlagsOk {s} (start_abandons e d o) v w =
    start_abandon-FlagsOk s e (done_over s.publisher d) o w
step-FlagsOk {s} (calls_stop e) v w = stop_begin-FlagsOk s e w
step-FlagsOk {s} (stops status e o) v w =
    driver_stopped-FlagsOk status (joining status) s (inr (e, refl)) o w
step-FlagsOk {s} (finishes status e d o) v w =
    stop_finish-FlagsOk status s e (done_over s.publisher d) o w
step-FlagsOk {s} (enters sample now_ns d o) v w = enter-FlagsOk sample now_ns s d w
step-FlagsOk {s} (checks p e) v w = check_room-FlagsOk p s e w
step-FlagsOk {s} (fills write p e) v w = fill-FlagsOk write p s e w
step-FlagsOk {s} (stores write p e) v w = store_write-FlagsOk write p s _ e w
step-FlagsOk {s} (publishes throws) v w = step_from-FlagsOk throws s s.publisher refl v w

pub Reach-Inv : {s : System} → Reach s → Inv s
Reach-Inv constructed = record { ring = initial-RingOk; flags = initial-FlagsOk }
Reach-Inv (later r step) =
    let v = Reach-Inv r in
    record { ring = step-RingOk step v.ring v.flags; flags = step-FlagsOk step v.ring v.flags }
