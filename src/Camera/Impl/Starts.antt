-- ===== src/Camera/Impl/Starts.antt =====
-- When Start of the publisher returns, and what it has done then.
use robo_baton_4p_ros2_demo.Prelude.{
  ℕ, ◌≡◌, ◌≢◌, refl, sym, subst, ap, ◌∙◌, true, false, none, some, pos, Result, ok, throw, ◌>>=◌,
  String, arith,
}
use robo_baton_4p_ros2_demo.Timestamp.{SensorTimestampMapperSnapshot}
use robo_baton_4p_ros2_demo.Options.{
  Environment, validate_camera_options, configure_sc132_trigger_mode,
  configure_sc132_sensor_profile, sc132_sensor_profile_env, sc132_trigger_mode_env,
}
use robo_baton_4p_ros2_demo.Options.Profile.{SetenvLaws, chosen_profile, configure_both}
use robo_baton_4p_ros2_demo.Camera.Core.{
  CameraCoreConfig, popping, Core, validate_config, camera_enabled,
}
use robo_baton_4p_ros2_demo.Camera.Lifecycle.{
  StartReplies, StartOutcome, refused, started, cleans_up, CleanupEntry, returns, joins,
  cleanup_begin, start, start_producer, initialize_queues, start_workers,
}
use robo_baton_4p_ros2_demo.Camera.System.Inv.{has_queue}
use robo_baton_4p_ros2_demo.Camera.Publish.{Config, construct, core_config}
use robo_baton_4p_ros2_demo.Camera.Publish.Accepted.{
  IsConfigured, core_config-IsConfigured, accepted_core_config,
}
use robo_baton_4p_ros2_demo.Camera.Impl.{
  Publisher, returned, start_cleanup, core_started, profile_set, trigger_set, validated,
  begin_start,
}

-- libsc132 accepts every call, and every thread is created.
pub record IsGood (r : StartReplies) : Type 0 where
  pub threads : r.thread_throws_at ≡ none
  pub fps : r.set_fps_status ≡ pos 0
  pub rotation : r.set_output_rotation_status ≡ pos 0
  pub frame_set : r.start_frame_set_status ≡ pos 0

-- A core that nothing was asked of yet.
abbrev pub IsFresh : Core → Type 0
IsFresh c = (c.start_claimed ≡ false) × (c.terminal ≡ false)

-- What the core does after its start.
pub record IsRunning (config : CameraCoreConfig) (c : Core) : Type 0 where
  pub running : c.running ≡ true
  pub admits : c.bridge_accepting ≡ true
  pub configured : c.config ≡ config
  pub queues : (id : ℕ) → camera_enabled config id ≡ true → has_queue (c.lanes id).queue ≡ true
  pub workers : (id : ℕ) → camera_enabled config id ≡ true → (c.lanes id).worker ≡ popping

start-started :
    (config : CameraCoreConfig) (r : StartReplies) (c : Core)
    → validate_config config ≡ true
    → IsFresh c
    → IsGood r
    → (start config r c).1 ≡ started
unfolding start start_producer
start-started config r c v fresh g =
    ground (arith, v, fresh, g.threads, g.fps, g.rotation, g.frame_set)

start-IsRunning :
    (config : CameraCoreConfig) (r : StartReplies) (c : Core)
    → (start config r c).1 ≡ started
    → IsRunning config (start config r c).0
unfolding start start_producer initialize_queues start_workers
start-IsRunning config r c h = record {
  running = ground (arith, h);
  admits = ground (arith, h);
  configured = ground (arith, h);
  queues = λ id on. ground (arith, h, on);
  workers = λ id on. ground (arith, h, on);
}

-- What Start leaves when it returns.
pub record HasStarted (c : Environment) (config : Config) (before p : Publisher c.Env)
    : Type 0 where
  pub core : IsRunning (core_config config) p.system.core
  pub configured : IsConfigured config p.system.core.config
  pub is_started : p.is_started ≡ true
  pub timed : config.rate_metrics_enabled ≡ true → p.has_timer ≡ true
  pub trigger_mode : c.getenv sc132_trigger_mode_env p.env ≡ some config.options.trigger_mode
  pub profile :
      c.getenv sc132_sensor_profile_env p.env
      ≡ chosen_profile config.options (c.getenv sc132_sensor_profile_env before.env)
  pub others :
      (name : String)
      → name ≢ sc132_trigger_mode_env
      → name ≢ sc132_sensor_profile_env
      → c.getenv name p.env ≡ c.getenv name before.env

module _ {Env : Type 0} where
  -- What is so whatever the environment is.
  record CoreStarted (config : Config) (env : Env) (p : Publisher Env) : Type 0 where
    pub core : IsRunning (core_config config) p.system.core
    pub is_started : p.is_started ≡ true
    pub timed : config.rate_metrics_enabled ≡ true → p.has_timer ≡ true
    pub env_is : p.env ≡ env

  start_cleanup-throws :
      (p : Publisher Env) (x : Core × CleanupEntry) → (start_cleanup p x).1 ≢ returned
  start_cleanup-throws p (c, returns b) h = absurd (ground (arith, h))
  start_cleanup-throws p (c, joins) h = absurd (ground (arith, h))

  core_started-CoreStarted :
      (config : Config) (p : Publisher Env) (x : Core × StartOutcome)
      → (core_started config p x).1 ≡ returned
      → (x.1 ≡ started → IsRunning (core_config config) x.0)
      → CoreStarted config p.env (core_started config p x).0
  core_started-CoreStarted config p (c, refused) h runs = absurd (ground (arith, h))
  core_started-CoreStarted config p (c, started) h runs = record {
    core = runs refl;
    is_started = refl;
    timed = λ on. rw on refl;
    env_is = refl;
  }
  core_started-CoreStarted config p (c, cleans_up) h runs =
      absurd (start_cleanup-throws p (cleanup_begin c) h)

module _ (c : Environment) (config : Config) (r : StartReplies) where
  open c use {Env}

  -- The environment after the profile.
  profile_set-CoreStarted :
      (p : Publisher Env) (x : Result Env)
      → (profile_set c config r p x).1 ≡ returned
      → (env : Env) × (x ≡ ok env) × CoreStarted config env (profile_set c config r p x).0
  profile_set-CoreStarted p (throw e) h = absurd (ground (arith, h))
  profile_set-CoreStarted p (ok env) h = (
    env,
    refl,
    core_started-CoreStarted config (record p { env = env })
        (start (core_config config) r p.system.core) h
        (start-IsRunning (core_config config) r p.system.core),
  )

  trigger_set-CoreStarted :
      (p : Publisher Env) (x : Result Env)
      → (trigger_set c config r p x).1 ≡ returned
      → (env : Env) × ((x >>= configure_sc132_sensor_profile c config.options) ≡ ok env)
        × CoreStarted config env (trigger_set c config r p x).0
  trigger_set-CoreStarted p (throw e) h = absurd (ground (arith, h))
  trigger_set-CoreStarted p (ok env) h =
      profile_set-CoreStarted (record p { env = env })
        (configure_sc132_sensor_profile c config.options env) h

  validated-CoreStarted :
      (p : Publisher Env) (x : Result (Unit {0}))
      → (validated c config r p x).1 ≡ returned
      → (x ≡ ok tt)
        × (env : Env) × ((configure_sc132_trigger_mode c config.options p.env
              >>= configure_sc132_sensor_profile c config.options)
            ≡ ok env)
        × CoreStarted config env (validated c config r p x).0
  validated-CoreStarted p (throw e) h = absurd (ground (arith, h))
  validated-CoreStarted p (ok tt) h =
      let (env, set, run) =
        trigger_set-CoreStarted p (configure_sc132_trigger_mode c config.options p.env) h in
      (refl, env, set, run)

  -- When Start returns and `setenv` obeys POSIX, the options were accepted; the core runs with the
  -- publisher's configuration, at the frame rate of the options, a quarter turn further than they ask
  -- for, on the canvas of 1280 by 1088 or with its sides swapped, as the turn asks; each enabled camera
  -- has a queue and a worker at its Pop; the timer is on
  -- if the rate metrics are; and in the environment the trigger mode and the profile are the chosen ones,
  -- and all else is as it was.
  pub returned_start :
      (laws : SetenvLaws c) (p : Publisher Env)
      → (begin_start c config r p).1 ≡ returned
      → (validate_camera_options config.options ≡ ok tt)
        × HasStarted c config p (begin_start c config r p).0
  unfolding begin_start
  returned_start laws p h =
      let (accepted, env, set, run) =
        validated-CoreStarted p (validate_camera_options config.options) h in
      let (mode, profile, others) = configure_both c laws config.options p.env set in
      (
        accepted,
        record {
          core = run.core;
          configured =
              subst (IsConfigured config) (sym run.core.configured)
                (core_config-IsConfigured config accepted);
          is_started = run.is_started;
          timed = run.timed;
          trigger_mode = ap (c.getenv sc132_trigger_mode_env) run.env_is ∙ mode;
          profile = ap (c.getenv sc132_sensor_profile_env) run.env_is ∙ profile;
          others = λ name ne ne'. ap (c.getenv name) run.env_is ∙ others name ne ne';
        },
      )

  core_started-returned :
      (p : Publisher Env) (x : Core × StartOutcome)
      → x.1 ≡ started
      → (core_started config p x).1 ≡ returned
  core_started-returned p (c, refused) h = absurd (ground (arith, h))
  core_started-returned p (c, started) h = refl
  core_started-returned p (c, cleans_up) h = absurd (ground (arith, h))

  -- Start returns if the publisher was constructed, its options are accepted, the environment can be set,
  -- nothing was asked of the core before, libsc132 accepts every call, and every thread is created.
  pub start_returns :
      (mapper : SensorTimestampMapperSnapshot) (p : Publisher Env) (mid env : Env)
      → construct false config ≡ ok mapper
      → validate_camera_options config.options ≡ ok tt
      → configure_sc132_trigger_mode c config.options p.env ≡ ok mid
      → configure_sc132_sensor_profile c config.options mid ≡ ok env
      → IsFresh p.system.core
      → IsGood r
      → (begin_start c config r p).1 ≡ returned
  unfolding begin_start
  start_returns mapper p mid env made accepted triggered profiled fresh good =
      let valid = (accepted_core_config config mapper made accepted).0 in
      rw (accepted, triggered, profiled)
        (core_started-returned (record p { env = env }) (start (core_config config) r p.system.core)
          (start-started (core_config config) r p.system.core valid fresh good))
