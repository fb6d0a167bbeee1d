-- ===== src/Imu/Impl.antt =====
-- Start and Stop of ImuPublisher::Impl (src/imu_publisher.cpp) over the core and its threads.
--
-- The thread of the publisher is in Start while the driver starts, or while a Start that fails is taken
-- back, and in Stop while the driver stops and the publishing thread is joined. `failure_recorded` is what Stop
-- records of the process. The creation of the timer does not throw, and the destructor is a call of Stop.
pub mod Threads
pub mod Inv
pub mod Stopped
mod Tests
use robo_baton_4p_ros2_demo.Prelude.{
  ℕ, ◌≡◌, Bool, true, false, ◌&&◌, ◌||◌, not, if◌then◌else◌, ℤ, Exception, runtime_error,
}
use robo_baton_4p_ros2_demo.Metrics.{PublicationRateSnapshot}
use robo_baton_4p_ros2_demo.Imu.Core.{Core}
use robo_baton_4p_ros2_demo.Imu.Ring.{outside}
use robo_baton_4p_ros2_demo.Imu.Lifecycle.{
  StartReplies, StartOutcome, refused, asks_driver, start_begin, start_abandon, StopOutcome,
  returns, asks_driver_to_stop, finishes_publisher, stop_begin, stop_finish,
}
use robo_baton_4p_ros2_demo.Imu.System.{
  idle, starting, start_joining, joining, System, initial, after_start, after_stop, join, IsDone,
  Step, calls_start as core_starts, start_succeeds, start_abandons, calls_stop as core_stops,
  finishes,
}
use robo_baton_4p_ros2_demo.Imu.Publish.{Config, core_config, core_snapshot}

-- Where the thread of the publisher is: outside both, in Start, or in Stop.
pub data Phase : Type 0 where
  at_rest in_start in_stop : Phase

pub record Publisher : Type 0 where
  pub system : System
  pub is_started : Bool
  pub has_timer : Bool
  pub previous_snapshot : PublicationRateSnapshot
  pub failure_recorded : Bool
  pub phase : Phase

-- How Start or Stop ends or goes on: it returns, throws, or waits.
pub data Ending : Type 0 where
  returned waits : Ending
  threw : Exception → Ending

abbrev pub start_error : Exception
start_error = runtime_error "ICM publisher start failed or restart was rejected"

abbrev pub started_core : Publisher → Core × StartOutcome → Publisher × Ending
started_core p (c, refused) =
    (record p { system = after_start p.system (c, refused) }, threw start_error)
started_core p (c, asks_driver) =
    (record p { system = after_start p.system (c, asks_driver); phase = in_start }, waits)

-- Start up to its wait.
unfoldable pub begin_start : Config → StartReplies → Publisher → Publisher × Ending
unfolding core_config
begin_start config r p = started_core p (start_begin (core_config config) r p.system.core)

-- Start after a driver that started, with the reading of the clock.
unfoldable pub return_start : Config → ℕ → Publisher → Publisher
return_start config now_ns p = record p {
  system = record p.system { owner = idle };
  is_started = true;
  has_timer = if config.rate_metrics_enabled then true else p.has_timer;
  previous_snapshot =
      if config.rate_metrics_enabled
      then core_snapshot now_ns p.system.core
      else p.previous_snapshot;
  phase = at_rest;
}

-- Start after it was taken back: it throws `start_error`.
unfoldable pub abandon_start : Publisher → Publisher
unfolding start_abandon
abandon_start p = record p {
  system = record p.system {
    core = start_abandon p.system.core;
    publisher = join p.system.publisher;
    owner = idle;
    driver = false;
  };
  phase = at_rest;
}

-- The rest of Stop after the core's, with what that returned.
abbrev pub settled : Bool → Publisher → Publisher
settled stopped p = record p {
  failure_recorded = p.failure_recorded || not stopped || p.system.core.failed;
  is_started = false;
  phase = at_rest;
}

abbrev pub stop_core : Publisher → Core × StopOutcome → Publisher × Ending
stop_core p (c, returns b) =
    (settled b (record p { system = after_stop p.system (c, returns b) }), returned)
stop_core p (c, asks_driver_to_stop) =
    (record p { system = after_stop p.system (c, asks_driver_to_stop); phase = in_stop }, waits)
stop_core p (c, finishes_publisher) =
    (record p { system = after_stop p.system (c, finishes_publisher); phase = in_stop }, waits)

-- Stop up to its return or its wait.
unfoldable pub begin_stop : Publisher → Publisher × Ending
unfolding stop_begin
begin_stop p =
    let quiet = record p { has_timer = false } in
    if not p.is_started && not p.system.core.failed
    then (quiet, returned)
    else stop_core quiet (stop_begin p.system.core)

-- Stop after the join, with the status of `icm42688_stop`.
unfoldable pub end_stop : ℤ → Publisher → Publisher
unfolding stop_finish
end_stop status p = settled (stop_finish status p.system.core).1 (record p {
  system = record p.system {
    core = (stop_finish status p.system.core).0;
    publisher = join p.system.publisher;
    owner = idle;
    driver = false;
  };
})

-- A step with which Start or Stop of the core begins or ends.
abbrev pub is_boundary : {s t : System} → Step s t → Bool
is_boundary (core_starts config r e) = true
is_boundary (start_succeeds e) = true
is_boundary (start_abandons e d o) = true
is_boundary (core_stops e) = true
is_boundary (finishes status e d o) = true
is_boundary _ = false

pub data Moves (config : Config) (p : Publisher) : Publisher → Type 0 where
  calls_start : (r : StartReplies) → p.phase ≡ at_rest → Moves config p (begin_start config r p).0
  returns_start :
      (now_ns : ℕ)
      → p.phase ≡ in_start
      → p.system.owner ≡ starting
      → Moves config p (return_start config now_ns p)
  throws_start :
      p.phase ≡ in_start
      → p.system.owner ≡ start_joining
      → IsDone p.system.publisher
      → p.system.producer ≡ outside
      → Moves config p (abandon_start p)
  calls_stop : p.phase ≡ at_rest → Moves config p (begin_stop p).0
  returns_stop :
      (status : ℤ)
      → p.phase ≡ in_stop
      → p.system.owner ≡ joining status
      → IsDone p.system.publisher
      → p.system.producer ≡ outside
      → Moves config p (end_stop status p)
  within :
      (t : System) (step : Step p.system t)
      → is_boundary step ≡ false
      → Moves config p (record p { system = t })

-- The publishers that are reached from the constructed one.
pub data Comes (config : Config) : Publisher → Type 0 where
  made :
      (snapshot : PublicationRateSnapshot)
      → Comes config (record {
        system = initial;
        is_started = false;
        has_timer = false;
        previous_snapshot = snapshot;
        failure_recorded = false;
        phase = at_rest;
      })
  moved : {p q : Publisher} → Comes config p → Moves config p q → Comes config q
