-- ===== src/Camera/Impl.antt =====
-- Start and Stop of CameraPublisher::Impl (src/camera_publisher.cpp) over the core and its threads.
--
-- The publisher is the one of its process, whose core it uses. Its thread is in Start or in Stop while
-- it waits for the workers of the core; between them the threads of the core go on. The state has the
-- environment as well, which a `setenv` that fails leaves as it was; `failure_recorded` is what Stop records
-- of the process. The creation of the timer does not throw, and the destructor is a call of Stop.
pub mod Inv
pub mod Threads
pub mod Stops
pub mod Released
pub mod Starts
mod Tests
use robo_baton_4p_ros2_demo.Prelude.{
  ℕ, ◌<◌, ◌≡◌, Bool, true, false, ◌&&◌, ◌||◌, not, if◌then◌else◌, Exception, Result, ok, throw,
  runtime_error,
}
use robo_baton_4p_ros2_demo.Metrics.{PublicationRateSnapshot}
use robo_baton_4p_ros2_demo.Options.{
  Environment, validate_camera_options, configure_sc132_trigger_mode,
  configure_sc132_sensor_profile,
}
use robo_baton_4p_ros2_demo.Camera.Core.{max_cameras, Core}
use robo_baton_4p_ros2_demo.Camera.Lifecycle.{
  StartReplies, StartOutcome, refused, started, cleans_up, start, CleanupEntry, returns, joins,
  cleanup_begin, cleanup_join_failed, cleanup_finish,
}
use robo_baton_4p_ros2_demo.Camera.Callback.{outside}
use robo_baton_4p_ros2_demo.Camera.System.{
  idle, joining, System, initial, IsDone, Step, starts, cleans, finishes, join_fails,
}
use robo_baton_4p_ros2_demo.Camera.Publish.{Config, core_config}

-- `PublicationRateSnapshot{}`
abbrev pub empty_snapshot : PublicationRateSnapshot
empty_snapshot = record {
  source_count = 0;
  publish_count = 0;
  auxiliary_publish_count = 0;
  drop_count = 0;
  publish_failure_count = 0;
  sequence_gap_count = 0;
  sequence_duplicate_count = 0;
  sequence_regression_count = 0;
  timestamp_duplicate_count = 0;
  timestamp_regression_count = 0;
  publish_latency_count = 0;
  publish_latency_sum_ns = 0;
  publish_latency_max_ns = 0;
  interval_start_monotonic_ns = 0;
  interval_end_monotonic_ns = 0;
}

-- Where the thread of the publisher is: outside both, at the joins of Start or of Stop, or the process
-- has ended.
pub data Phase : Type 0 where
  at_rest in_start in_stop terminated : Phase

pub record Publisher (Env : Type 0) : Type 0 where
  pub system : System
  pub env : Env
  pub is_started : Bool
  pub has_timer : Bool
  pub previous_snapshots : ℕ → PublicationRateSnapshot
  pub failure_recorded : Bool
  pub phase : Phase

-- How Start or Stop ends or goes on: it returns, throws, waits for the workers, or ends the process.
pub data Ending : Type 0 where
  returned waits exits : Ending
  threw : Exception → Ending

abbrev pub start_error : Exception
start_error = runtime_error "SC132 publisher start failed or restart was rejected"

-- A step of the owner of the core.
abbrev pub is_owner_step : {s t : System} → Step s t → Bool
is_owner_step (starts config r e) = true
is_owner_step (cleans e) = true
is_owner_step (finishes e d o) = true
is_owner_step (join_fails e) = true
is_owner_step _ = false

module _ {Env : Type 0} where
  abbrev pub with_core : Publisher Env → Core → Publisher Env
  with_core p c = record p { system = record p.system { core = c; owner = idle } }

  abbrev pub waiting : Publisher Env → Core → Phase → Publisher Env
  waiting p c phase = record p {
    system = record p.system { core = c; owner = joining };
    phase = phase;
  }

  -- CleanupLocked in the core's Start, which returns false after it.
  abbrev pub start_cleanup : Publisher Env → Core × CleanupEntry → Publisher Env × Ending
  start_cleanup p (c, returns b) = (with_core p c, threw start_error)
  start_cleanup p (c, joins) = (waiting p c in_start, waits)

  abbrev pub core_started : Config → Publisher Env → Core × StartOutcome → Publisher Env × Ending
  core_started config p (c, refused) = (with_core p c, threw start_error)
  core_started config p (c, started) = (
    record (with_core p c) {
      is_started = true;
      has_timer = if config.rate_metrics_enabled then true else p.has_timer;
      previous_snapshots =
          if config.rate_metrics_enabled then (λ id. empty_snapshot) else p.previous_snapshots;
    },
    returned,
  )
  core_started config p (c, cleans_up) = start_cleanup p (cleanup_begin c)

  -- After the joins of Start, which then throws `start_error`.
  unfoldable pub end_start : Bool → Publisher Env → Publisher Env
  end_start false p = record (with_core p (cleanup_finish p.system.core).0) { phase = at_rest }
  end_start true p = record (with_core p (cleanup_join_failed p.system.core).0) { phase = at_rest }

  -- Stop after a Cleanup that returned true.
  abbrev pub stopped : Publisher Env → Publisher Env
  stopped p = record p {
    failure_recorded = p.failure_recorded || p.system.core.failed;
    is_started = false;
    phase = at_rest;
  }

  -- Stop after a Cleanup that returned false: `std::_Exit(1)`.
  abbrev pub ended : Publisher Env → Publisher Env
  ended p = record p { failure_recorded = true; phase = terminated }

  abbrev pub stop_cleanup : Publisher Env → Core × CleanupEntry → Publisher Env × Ending
  stop_cleanup p (c, returns true) = (stopped (with_core p c), returned)
  stop_cleanup p (c, returns false) = (ended (with_core p c), exits)
  stop_cleanup p (c, joins) = (waiting p c in_stop, waits)

  -- Stop up to its return or its wait.
  unfoldable pub begin_stop : Publisher Env → Publisher Env × Ending
  unfolding cleanup_begin
  begin_stop p =
      let quiet = record p { has_timer = false } in
      if not p.is_started && not p.system.core.failed
      then (quiet, returned)
      else stop_cleanup quiet (cleanup_begin p.system.core)

  -- After the joins of Stop.
  unfoldable pub end_stop : Bool → Publisher Env → Publisher Env × Ending
  end_stop false p = (stopped (with_core p (cleanup_finish p.system.core).0), returned)
  end_stop true p = (ended (with_core p (cleanup_join_failed p.system.core).0), exits)

module _ (c : Environment) where
  open c use {Env}

  abbrev pub profile_set :
      Config → StartReplies → Publisher Env → Result Env → Publisher Env × Ending
  profile_set config r p (throw e) = (p, threw e)
  profile_set config r p (ok env) =
      core_started config (record p { env = env }) (start (core_config config) r p.system.core)

  abbrev pub trigger_set :
      Config → StartReplies → Publisher Env → Result Env → Publisher Env × Ending
  trigger_set config r p (throw e) = (p, threw e)
  trigger_set config r p (ok env) =
      profile_set config r (record p { env = env })
        (configure_sc132_sensor_profile c config.options env)

  abbrev pub validated :
      Config → StartReplies → Publisher Env → Result (Unit {0}) → Publisher Env × Ending
  validated config r p (throw e) = (p, threw e)
  validated config r p (ok x) =
      trigger_set config r p (configure_sc132_trigger_mode c config.options p.env)

  -- Start up to its return or its wait.
  unfoldable pub begin_start : Config → StartReplies → Publisher Env → Publisher Env × Ending
  unfolding core_config
  begin_start config r p = validated config r p (validate_camera_options config.options)

module _ (c : Environment) (config : Config) where
  open c use {Env}

  pub data Moves (p : Publisher Env) : Publisher Env → Type 0 where
    calls_start : (r : StartReplies) → p.phase ≡ at_rest → Moves p (begin_start c config r p).0
    leaves_start :
        p.phase ≡ in_start
        → ((id : ℕ) → id < max_cameras → IsDone (p.system.core.lanes id).worker)
        → p.system.callback ≡ outside
        → Moves p (end_start false p)
    fails_in_start : p.phase ≡ in_start → Moves p (end_start true p)
    calls_stop : p.phase ≡ at_rest → Moves p (begin_stop p).0
    leaves_stop :
        p.phase ≡ in_stop
        → ((id : ℕ) → id < max_cameras → IsDone (p.system.core.lanes id).worker)
        → p.system.callback ≡ outside
        → Moves p (end_stop false p).0
    fails_in_stop : p.phase ≡ in_stop → Moves p (end_stop true p).0
    thread_moves :
        (t : System) (step : Step p.system t)
        → is_owner_step step ≡ false
        → Moves p (record p { system = t })

  -- The publishers that are reached from the constructed one.
  pub data Comes : Publisher Env → Type 0 where
    made :
        (env : Env)
        → Comes (record {
          system = initial;
          env = env;
          is_started = false;
          has_timer = false;
          previous_snapshots = λ id. empty_snapshot;
          failure_recorded = false;
          phase = at_rest;
        })
    moved : {p q : Publisher Env} → Comes p → Moves p q → Comes q
