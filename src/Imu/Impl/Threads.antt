-- ===== src/Imu/Impl/Threads.antt =====
-- What the steps of the core's threads keep, and the publisher does not look at.
use robo_baton_4p_ros2_demo.Prelude.{ℕ, ◌≡◌, refl, Bool, false, ◌||◌, not, ℤ, Option, arith}
use robo_baton_4p_ros2_demo.Imu.Core.{Core, record_failure, PendingSample, Sample}
use robo_baton_4p_ros2_demo.Imu.Ring.{
  Publisher as Loop, enter, count_arrival, fail_closed, check_room, fill, store_write, publish_next,
  count_sample, publish_sample,
}
use robo_baton_4p_ros2_demo.Imu.Lifecycle.{start_failed, driver_stopped}
use robo_baton_4p_ros2_demo.Imu.System.{
  idle, System, Step, calls_start as core_starts, start_succeeds, start_fails, start_stops,
  start_abandons, calls_stop as core_stops, stops, finishes, enters, checks, fills, stores,
  publishes, publisher_step, step_from,
}
use robo_baton_4p_ros2_demo.Imu.Impl.{is_boundary}

-- The core was stopped, or never claimed.
abbrev pub is_quiet : Core → Bool
is_quiet c = c.terminal || not c.start_claimed

-- Stopped or claimed as before, and a failure stays.
pub record Keeps (c c' : Core) : Type 0 where
  pub terminal : c'.terminal ≡ c.terminal
  pub claimed : c'.start_claimed ≡ c.start_claimed
  pub failed : c'.failed ≡ false → c.failed ≡ false

same_Keeps : (c : Core) → Keeps c c
same_Keeps c = record { terminal = refl; claimed = refl; failed = λ fine. fine }

driver_stopped-Keeps : (status : ℤ) (c : Core) → Keeps c (driver_stopped status c)
unfolding driver_stopped
driver_stopped-Keeps status c = record { terminal = refl; claimed = refl; failed = λ fine. fine }

start_failed-Keeps : (c : Core) → Keeps c (start_failed c)
unfolding start_failed
start_failed-Keeps c = record { terminal = refl; claimed = refl; failed = λ fine. fine }

enter-Keeps : (sample : Option Sample) (now_ns : ℕ) (c : Core) → Keeps c (enter sample now_ns c).0
unfolding enter count_arrival fail_closed record_failure
enter-Keeps sample now_ns c = record {
  terminal = ground arith;
  claimed = ground arith;
  failed = λ fine. ground (arith, fine);
}

check_room-Keeps : (p : PendingSample) (c : Core) → Keeps c (check_room p c).0
unfolding check_room fail_closed record_failure
check_room-Keeps p c = record {
  terminal = ground arith;
  claimed = ground arith;
  failed = λ fine. ground (arith, fine);
}

fill-Keeps : (write : ℕ) (p : PendingSample) (c : Core) → Keeps c (fill write p c)
unfolding fill
fill-Keeps write p c = record { terminal = refl; claimed = refl; failed = λ fine. fine }

store_write-Keeps : (write : ℕ) (c : Core) → Keeps c (store_write write c)
unfolding store_write
store_write-Keeps write c = record { terminal = refl; claimed = refl; failed = λ fine. fine }

publish_next-Keeps : (throws : Bool) (c : Core) (p : Loop) → Keeps c (publish_next throws c p).0
unfolding publish_next publish_sample count_sample record_failure
publish_next-Keeps throws c p = record {
  terminal = ground arith;
  claimed = ground arith;
  failed = λ fine. ground (arith, fine);
}

-- A step that is no boundary keeps the core.
pub inner_step : {s t : System} → (step : Step s t) → is_boundary step ≡ false → Keeps s.core t.core
unfolding publisher_step step_from
inner_step (core_starts config r e) h = absurd (ground (arith, h))
inner_step (start_succeeds e) h = absurd (ground (arith, h))
inner_step {s} (start_fails e) h = start_failed-Keeps s.core
inner_step {s} (start_stops status e o) h = driver_stopped-Keeps status s.core
inner_step (start_abandons e d o) h = absurd (ground (arith, h))
inner_step (core_stops e) h = absurd (ground (arith, h))
inner_step {s} (stops status e o) h = driver_stopped-Keeps status s.core
inner_step (finishes status e d o) h = absurd (ground (arith, h))
inner_step {s} (enters sample now_ns d o) h = enter-Keeps sample now_ns s.core
inner_step {s} (checks p e) h = check_room-Keeps p s.core
inner_step {s} (fills write p e) h = fill-Keeps write p s.core
inner_step {s} (stores write p e) h = store_write-Keeps write s.core
inner_step {s} (publishes throws) h = publish_next-Keeps throws s.core s.publisher

-- An owner that is outside stays there.
pub inner_idle :
    {s t : System} → (step : Step s t) → is_boundary step ≡ false → s.owner ≡ idle → t.owner ≡ idle
unfolding publisher_step step_from
inner_idle (core_starts config r e) h o = absurd (ground (arith, h))
inner_idle (start_succeeds e) h o = refl
inner_idle (start_fails e) h o = absurd (ground (arith, e, o))
inner_idle (start_stops status e out) h o = absurd (ground (arith, e, o))
inner_idle (start_abandons e d out) h o = refl
inner_idle (core_stops e) h o = absurd (ground (arith, h))
inner_idle (stops status e out) h o = absurd (ground (arith, e, o))
inner_idle (finishes status e d out) h o = refl
inner_idle (enters sample now_ns d out) h o = o
inner_idle (checks p e) h o = o
inner_idle (fills write p e) h o = o
inner_idle (stores write p e) h o = o
inner_idle (publishes throws) h o = o
