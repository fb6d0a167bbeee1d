-- ===== src/Imu/System/Flags/Owner.antt =====
-- The owner keeps the invariant of the flags.
use robo_baton_4p_ros2_demo.Prelude.{◌≡◌, ◌⊎◌, inl, inr, true, false, ◌||◌, if◌then◌else◌, arith, ℤ}
use robo_baton_4p_ros2_demo.Imu.Core.{ImuCoreConfig, new_core, record_failure}
use robo_baton_4p_ros2_demo.Imu.Ring.{outside}
use robo_baton_4p_ros2_demo.Imu.Lifecycle.{
  StartReplies, is_ok, start_begin, start_with_handle, give_up, create_failed, start_failed,
  driver_stopped, start_abandon, stop_begin, stop_finish,
}
use robo_baton_4p_ros2_demo.Imu.System.{
  Owner, idle, starting, start_stopping, start_joining, stopping, joining, System, initial,
  after_start, after_stop, join,
}
use robo_baton_4p_ros2_demo.Imu.System.Flags.Defs.{FlagsOk, is_absent, is_over}

pub initial-FlagsOk : FlagsOk initial
unfolding initial new_core
initial-FlagsOk = ground arith

pub start_begin-FlagsOk :
    (config : ImuCoreConfig) (r : StartReplies) (s : System)
    → s.owner ≡ idle
    → FlagsOk s
    → FlagsOk (after_start s (start_begin config r s.core))
unfolding start_begin start_with_handle give_up create_failed record_failure
start_begin-FlagsOk config r s e v = ground (arith, e, v)

pub start_succeeds-FlagsOk :
    (s : System) → s.owner ≡ starting → FlagsOk s → FlagsOk (record s { owner = idle })
start_succeeds-FlagsOk s e v = ground (arith, e, v)

pub start_failed-FlagsOk :
    (s : System)
    → s.owner ≡ starting
    → FlagsOk s
    → FlagsOk (record s { core = start_failed s.core; owner = start_stopping })
unfolding start_failed
start_failed-FlagsOk s e v = ground (arith, e, v)

pub driver_stopped-FlagsOk :
    (status : ℤ) (o : Owner) (s : System)
    → ((s.owner ≡ start_stopping) × (o ≡ start_joining))
      ⊎ ((s.owner ≡ stopping) × (o ≡ joining status))
    → (is_ok status ≡ true → s.producer ≡ outside)
    → FlagsOk s
    → FlagsOk (record s {
      core = driver_stopped status s.core;
      owner = o;
      driver = if is_ok status then false else s.driver;
    })
unfolding driver_stopped
driver_stopped-FlagsOk status o s (inl (e, f)) g v = ground (arith, e, f, g, v)
driver_stopped-FlagsOk status o s (inr (e, f)) g v = ground (arith, e, f, g, v)

pub start_abandon-FlagsOk :
    (s : System)
    → s.owner ≡ start_joining
    → is_absent s.publisher || is_over s.publisher ≡ true
    → s.producer ≡ outside
    → FlagsOk s
    → FlagsOk (record s {
      core = start_abandon s.core;
      publisher = join s.publisher;
      owner = idle;
      driver = false;
    })
unfolding start_abandon record_failure
start_abandon-FlagsOk s e d o v = ground (arith, e, d, o, v)

pub stop_begin-FlagsOk :
    (s : System) → s.owner ≡ idle → FlagsOk s → FlagsOk (after_stop s (stop_begin s.core))
unfolding stop_begin driver_stopped
stop_begin-FlagsOk s e v = ground (arith, e, v)

pub stop_finish-FlagsOk :
    (status : ℤ) (s : System)
    → s.owner ≡ joining status
    → is_absent s.publisher || is_over s.publisher ≡ true
    → s.producer ≡ outside
    → FlagsOk s
    → FlagsOk (record s {
      core = (stop_finish status s.core).0;
      publisher = join s.publisher;
      owner = idle;
      driver = false;
    })
unfolding stop_finish record_failure
stop_finish-FlagsOk status s e d o v = ground (arith, e, d, o, v)
