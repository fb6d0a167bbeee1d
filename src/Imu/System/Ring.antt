-- ===== src/Imu/System/Ring.antt =====
-- What holds of the ring of samples between any two steps: its indices are the numbers of samples
-- stored and taken, and its slots hold the samples in between.
mod Defs
mod Moves
mod Dispatch
pub use Defs.*
use robo_baton_4p_ros2_demo.Prelude.{
  ℕ, ◌+◌, ◌-◌, ◌%◌, ◌^◌, ◌≤◌, ◌<◌, ◌≡◌, ◌⊎◌, ◌≢◌, inl, inr, refl, Bool, true, false, ◌&&◌, ◌||◌,
  not, ◌==◌, if◌then◌else◌, arith, ap, subst, sym, ℤ, pos, Option, none, some,
}
use robo_baton_4p_ros2_demo.Imu.Core.{
  pending_capacity, ImuCoreConfig, Sample, PendingSample, Core, new_core, record_failure,
}
use robo_baton_4p_ros2_demo.Imu.Ring.{
  enter, check_room, Producer, outside, checking, filling, filled, Publisher, absent, top,
  comparing, copying, copied, publishing, empty, last_check, ended, joined,
}
use robo_baton_4p_ros2_demo.Imu.Lifecycle.{
  StartReplies, is_ok, StartOutcome, refused, asks_driver, start_begin, start_with_handle, give_up,
  create_failed, start_failed, driver_stopped, start_abandon, StopOutcome, returns,
  asks_driver_to_stop, finishes_publisher, stop_begin, stop_finish,
}
use robo_baton_4p_ros2_demo.Imu.System.{
  Owner, idle, starting, stopping, joining, System, initial, after_start, after_stop, join, IsDone,
  Step, calls_start, start_succeeds, start_fails, start_stops, start_abandons, calls_stop, stops,
  finishes, enters, checks, fills, stores, publishes, Reach, constructed, later, publisher_step,
}
pub use Moves.{fill-RingOk, store_write-RingOk}
pub use Dispatch.{step_from-RingOk}
use Moves.{core-RingOk, enter-outside, check_room-known, ProducerOk-core}

-- Two cores with the same ring.
abbrev pub SameRing : Core → Core → Type 0
SameRing c d = (c.pending ≡ d.pending) × (c.write ≡ d.write) × (c.read ≡ d.read)

pub start_begin-SameRing :
    (config : ImuCoreConfig) (r : StartReplies) (c : Core) → SameRing (start_begin config r c).0 c
unfolding start_begin start_with_handle give_up create_failed record_failure
start_begin-SameRing config r c = (ground arith, ground arith, ground arith)

pub stop_begin-SameRing : (c : Core) → SameRing (stop_begin c).0 c
unfolding stop_begin driver_stopped
stop_begin-SameRing c = (ground arith, ground arith, ground arith)

pub stop_finish-SameRing : (status : ℤ) (c : Core) → SameRing (stop_finish status c).0 c
unfolding stop_finish record_failure
stop_finish-SameRing status c = (ground arith, ground arith, ground arith)

pub start_failed-SameRing : (c : Core) → SameRing (start_failed c) c
unfolding start_failed
start_failed-SameRing c = (refl, refl, refl)

pub driver_stopped-SameRing : (status : ℤ) (c : Core) → SameRing (driver_stopped status c) c
unfolding driver_stopped
driver_stopped-SameRing status c = (refl, refl, refl)

pub start_abandon-SameRing : (c : Core) → SameRing (start_abandon c) c
unfolding start_abandon record_failure
start_abandon-SameRing c = (refl, refl, refl)

-- The owner changes the publishing thread where it creates it or joins it.
pub owner-RingOk :
    (s : System) (c : Core) (p : Publisher) (o : Owner) (d : Bool)
    → SameRing c s.core
    → PublisherOk s.core s.admitted s.handed s.delivered s.arrivals p
    → RingOk s
    → RingOk (record s { core = c; publisher = p; owner = o; driver = d })
owner-RingOk s c p o d (e, f, g) known v =
    core-RingOk s c s.producer p o d e f g
      (ProducerOk-core s.core c s.admitted s.handed s.handed s.producer e f (omega arith)
        v.producing)
      (PublisherOk-mono s.core c s.admitted s.admitted s.handed s.delivered s.arrivals s.arrivals p
        g (omega arith) (λ k h. refl) v.ordered known)
      v

pub initial-RingOk : RingOk initial
unfolding initial new_core
initial-RingOk = record {
  write_is = refl;
  read_is = refl;
  ordered = omega arith;
  bounded = omega arith;
  slots = λ k low high. ground (arith, high);
  producing = tt;
  consuming = refl;
  faithful = λ k h. ground (arith, h);
}

-- The callback, where it leaves the ring as it is.
producer-RingOk :
    (s : System) (c : Core) (q : Producer)
    → SameRing c s.core
    → ProducerOk c s.admitted s.handed q
    → RingOk s
    → RingOk (record s { core = c; producer = q })
producer-RingOk s c q (e, f, g) known v =
    core-RingOk s c q s.publisher s.owner s.driver e f g known
      (PublisherOk-mono s.core c s.admitted s.admitted s.handed s.delivered s.arrivals s.arrivals
        s.publisher g (omega arith) (λ k h. refl) v.ordered v.consuming)
      v

pub enter-RingOk :
    (sample : Option Sample) (now_ns : ℕ) (s : System)
    → RingOk s
    → RingOk (record s {
      core = (enter sample now_ns s.core).0;
      producer = (enter sample now_ns s.core).1;
    })
enter-RingOk sample now_ns s v =
    let (e, f, g, known) = enter-outside sample now_ns s.core in
    producer-RingOk s (enter sample now_ns s.core).0 (enter sample now_ns s.core).1 (e, f, g)
      (known s.admitted s.handed) v

pub check_room-RingOk :
    (p : PendingSample) (s : System)
    → RingOk s
    → RingOk (record s { core = (check_room p s.core).0; producer = (check_room p s.core).1 })
check_room-RingOk p s v =
    let (e, f, g, known) = check_room-known p s v in
    producer-RingOk s (check_room p s.core).0 (check_room p s.core).1 (e, f, g) known v

-- A publishing thread that is waited for has handed on all that it took.
pub join_known :
    (c : Core) (a h d : ℕ) (arrivals : ℕ → PendingSample) (p : Publisher)
    → IsDone p
    → PublisherOk c a h d arrivals p
    → PublisherOk c a h d arrivals (join p)
join_known c a h d arrivals p (inl e) o = ground (arith, e, o)
join_known c a h d arrivals p (inr (inl e)) o = ground (arith, e, o)
join_known c a h d arrivals p (inr (inr e)) o = ground (arith, e, o)

-- A thread that Start creates is the first one.
pub after_start-RingOk :
    (s : System) (x : Core × StartOutcome)
    → SameRing x.0 s.core
    → (x.1 ≡ asks_driver → s.delivered ≡ s.handed)
    → RingOk s
    → RingOk (after_start s x)
after_start-RingOk s (c, refused) same known v =
    owner-RingOk s c s.publisher s.owner s.driver same v.consuming v
after_start-RingOk s (c, asks_driver) same known v =
    owner-RingOk s c top starting true same (known refl) v

pub after_stop-RingOk :
    (s : System) (x : Core × StopOutcome) → SameRing x.0 s.core → RingOk s → RingOk (after_stop s x)
after_stop-RingOk s (c, returns b) same v =
    owner-RingOk s c s.publisher s.owner s.driver same v.consuming v
after_stop-RingOk s (c, asks_driver_to_stop) same v =
    owner-RingOk s c s.publisher stopping s.driver same v.consuming v
after_stop-RingOk s (c, finishes_publisher) same v =
    owner-RingOk s c s.publisher (joining (pos 0)) s.driver same v.consuming v
