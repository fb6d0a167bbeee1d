-- ===== src/Imu/System/Driver.antt =====
-- The calls of the driver of the IMU: in which order, and how often.
use robo_baton_4p_ros2_demo.Prelude.{
  ℕ, ◌≡◌, ◌⊎◌, inl, inr, refl, Bool, true, false, ◌&&◌, if◌then◌else◌, arith, ap, ◌∙◌, sym, ℤ,
  Option, none, some, List, [], ◌∷◌,
}
use robo_baton_4p_ros2_demo.Imu.Core.{
  ImuCoreConfig, Core, new_core, record_failure, Sample, DriverCall, create, set_callback, start,
  stop, destroy,
}
use robo_baton_4p_ros2_demo.Imu.Ring.{
  Publisher, absent, top, comparing, copying, copied, publishing, empty, last_check, ended, joined,
  enter, check_room, fill, store_write, publish_next, publish_sample, count_sample, count_arrival,
  fail_closed,
}
use robo_baton_4p_ros2_demo.Imu.Lifecycle.{
  StartReplies, start_begin, start_with_handle, give_up, create_failed, start_failed,
  driver_stopped, start_abandon, stop_begin, stop_finish,
}
use robo_baton_4p_ros2_demo.Imu.System.{
  Owner, idle, starting, start_stopping, start_joining, stopping, joining, System, initial,
  after_start, after_stop, join, Step, calls_start, start_succeeds, start_fails, start_stops,
  start_abandons, calls_stop, stops, finishes, enters, checks, fills, stores, publishes, Reach,
  constructed, later, publisher_step, step_from,
}
use robo_baton_4p_ros2_demo.Imu.System.Flags.{FlagsOk}
use robo_baton_4p_ros2_demo.Imu.System.Inv.{Reach-Inv}

-- The use of a handle, apart from the code: it is created, gets its callback, is started once, is
-- stopped once if it was started, and is destroyed once; nothing is called with it after that.
pub data Phase : Type 0 where
  fresh created hooked running halted gone invalid : Phase

unfoldable pub advance : DriverCall → Phase → Phase
advance (create config) fresh = created
advance set_callback created = hooked
advance start hooked = running
advance stop running = halted
advance destroy created = gone
advance destroy hooked = gone
advance destroy halted = gone
advance _ _ = invalid

-- The phase after some calls, newest first.
unfoldable pub phase : List DriverCall → Phase
unfolding advance
phase [] = fresh
phase (call ∷ calls) = advance call (phase calls)

is_running : Phase → Bool
is_running running = true
is_running _ = false

is_halted : Phase → Bool
is_halted halted = true
is_halted _ = false

-- No handle was created, or it was destroyed.
is_released : Phase → Bool
is_released fresh = true
is_released gone = true
is_released _ = false

-- The phases that are right where the owner stands, with a handle or without.
expected : Owner → Bool → Phase → Bool
expected idle h p = if h then is_running p else is_released p
expected starting h p = h && is_running p
expected start_stopping h p = h && is_halted p
expected start_joining h p = is_halted p
expected stopping h p = h && is_halted p
expected (joining status) h p = if h then is_halted p else is_released p

record DriverOk (s : System) : Type 0 where
  untouched : s.core.start_claimed ≡ false → phase s.core.calls ≡ fresh
  in_phase : expected s.owner s.core.has_handle (phase s.core.calls) ≡ true

initial-DriverOk : DriverOk initial
unfolding initial new_core phase expected is_released
initial-DriverOk = ground arith

after_start-DriverOk :
    (config : ImuCoreConfig) (r : StartReplies) (s : System)
    → s.owner ≡ idle
    → FlagsOk s
    → DriverOk s
    → DriverOk (after_start s (start_begin config r s.core))
unfolding start_begin start_with_handle give_up create_failed record_failure phase advance expected
    is_running is_released
after_start-DriverOk config r s e w v = ground (arith, e, w.unclaimed, v.untouched, v.in_phase)

start_fails-DriverOk :
    (s : System)
    → s.owner ≡ starting
    → DriverOk s
    → DriverOk (record s { core = start_failed s.core; owner = start_stopping })
unfolding start_failed phase advance expected is_running is_halted
start_fails-DriverOk s e v = ground (arith, e, v.untouched, v.in_phase)

after_stop-DriverOk :
    (s : System)
    → s.owner ≡ idle
    → FlagsOk s
    → DriverOk s
    → DriverOk (after_stop s (stop_begin s.core))
unfolding stop_begin driver_stopped phase advance expected is_running is_released is_halted
after_stop-DriverOk s e w v = ground (arith, e, w.usable, w.handled, v.untouched, v.in_phase)

driver_stopped-DriverOk :
    (status : ℤ) (o : Owner) (d : Bool) (s : System)
    → ((s.owner ≡ start_stopping) × (o ≡ start_joining))
      ⊎ ((s.owner ≡ stopping) × (o ≡ joining status))
    → DriverOk s
    → DriverOk (record s { core = driver_stopped status s.core; owner = o; driver = d })
unfolding driver_stopped expected is_halted
driver_stopped-DriverOk status o d s (inl (e, f)) v = ground (arith, e, f, v.untouched, v.in_phase)
driver_stopped-DriverOk status o d s (inr (e, f)) v = ground (arith, e, f, v.untouched, v.in_phase)

start_abandon-DriverOk :
    (s : System)
    → s.owner ≡ start_joining
    → FlagsOk s
    → DriverOk s
    → DriverOk (record s {
      core = start_abandon s.core;
      publisher = join s.publisher;
      owner = idle;
      driver = false;
    })
unfolding start_abandon record_failure phase advance expected is_halted is_released
start_abandon-DriverOk s e w v = ground (arith, e, w.blamed, v.untouched, v.in_phase)

stop_finish-DriverOk :
    (status : ℤ) (s : System)
    → s.owner ≡ joining status
    → FlagsOk s
    → DriverOk s
    → DriverOk (record s {
      core = (stop_finish status s.core).0;
      publisher = join s.publisher;
      owner = idle;
      driver = false;
    })
unfolding stop_finish record_failure phase advance expected is_halted is_released
stop_finish-DriverOk status s e w v = ground (arith, e, w.handled, v.untouched, v.in_phase)

-- What neither the callback nor the publishing thread touches.
SameDriver : Core → Core → Type 0
SameDriver c d =
    (c.calls ≡ d.calls) × (c.has_handle ≡ d.has_handle) × (c.start_claimed ≡ d.start_claimed)

enter-SameDriver :
    (sample : Option Sample) (now_ns : ℕ) (c : Core) → SameDriver (enter sample now_ns c).0 c
unfolding enter count_arrival fail_closed SameDriver
enter-SameDriver none now_ns c = ground arith
enter-SameDriver (some x) now_ns c = ground arith

publish_next-SameDriver :
    (throws : Bool) (c : Core) (p : Publisher) → SameDriver (publish_next throws c p).0 c
unfolding publish_next publish_sample count_sample record_failure SameDriver
publish_next-SameDriver throws c absent = ground arith
publish_next-SameDriver throws c top = ground arith
publish_next-SameDriver throws c comparing = ground arith
publish_next-SameDriver throws c ended = ground arith
publish_next-SameDriver throws c joined = ground arith
publish_next-SameDriver throws c (copying i) = ground arith
publish_next-SameDriver throws c (copied i p) = ground arith
publish_next-SameDriver throws c (publishing p) = ground arith
publish_next-SameDriver throws c (empty i) = ground arith
publish_next-SameDriver throws c (last_check i) = ground arith

same-DriverOk :
    (s t : System) → t.owner ≡ s.owner → SameDriver t.core s.core → DriverOk s → DriverOk t
unfolding SameDriver
same-DriverOk s t e (f, g, h) v = record {
  untouched = λ c. ap phase f ∙ v.untouched (sym h ∙ c);
  in_phase = rw (e, f, g) v.in_phase;
}

step-DriverOk : {s t : System} → Step s t → FlagsOk s → DriverOk s → DriverOk t
unfolding publisher_step step_from SameDriver check_room fail_closed fill store_write expected
    is_running
step-DriverOk {s} (calls_start config r e) w v = after_start-DriverOk config r s e w v
step-DriverOk {s} (start_succeeds e) w v = ground (arith, e, v.untouched, v.in_phase)
step-DriverOk {s} (start_fails e) w v = start_fails-DriverOk s e v
step-DriverOk {s} (start_stops status e o) w v =
    driver_stopped-DriverOk status start_joining _ s (inl (e, refl)) v
step-DriverOk {s} (start_abandons e d o) w v = start_abandon-DriverOk s e w v
step-DriverOk {s} (calls_stop e) w v = after_stop-DriverOk s e w v
step-DriverOk {s} (stops status e o) w v =
    driver_stopped-DriverOk status (joining status) _ s (inr (e, refl)) v
step-DriverOk {s} (finishes status e d o) w v = stop_finish-DriverOk status s e w v
step-DriverOk {s} {t} (enters sample now_ns d o) w v =
    same-DriverOk s t refl (enter-SameDriver sample now_ns s.core) v
step-DriverOk {s} {t} (checks p e) w v = same-DriverOk s t refl (ground arith) v
step-DriverOk {s} {t} (fills write p e) w v = same-DriverOk s t refl (refl, refl, refl) v
step-DriverOk {s} {t} (stores write p e) w v = same-DriverOk s t refl (refl, refl, refl) v
step-DriverOk {s} {t} (publishes throws) w v =
    same-DriverOk s t refl (publish_next-SameDriver throws s.core s.publisher) v

running_when : (p : Phase) → is_running p ≡ true → p ≡ running
unfolding is_running
running_when p e = ground (arith, e)

released_when : (p : Phase) → is_released p ≡ true → (p ≡ fresh) ⊎ (p ≡ gone)
unfolding is_released
released_when p e = ground (arith, e)

Reach-DriverOk : {s : System} → Reach s → DriverOk s
Reach-DriverOk constructed = initial-DriverOk
Reach-DriverOk (later r step) = step-DriverOk step (Reach-Inv r).flags (Reach-DriverOk r)

-- In every system that is reached in which the owner is outside, the calls of the driver so far are a
-- use of one handle: with a handle left, it was created, got its callback and was started, in this order
-- and once each; with none, no handle was created, or the one that was created was destroyed once, at
-- the end and, if it was started, after a stop.
pub driver_protocol :
    (s : System)
    → Reach s
    → s.owner ≡ idle
    → (s.core.has_handle ≡ true → phase s.core.calls ≡ running)
      × (s.core.has_handle ≡ false → (phase s.core.calls ≡ fresh) ⊎ (phase s.core.calls ≡ gone))
unfolding expected is_running is_released
driver_protocol s r e =
    let v = Reach-DriverOk r in
    (
      λ h. running_when (phase s.core.calls) (ground (arith, e, h, v.in_phase)),
      λ h. released_when (phase s.core.calls) (ground (arith, e, h, v.in_phase)),
    )
