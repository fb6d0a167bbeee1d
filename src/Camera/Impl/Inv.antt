-- ===== src/Camera/Impl/Inv.antt =====
-- What holds of the publisher between its moves, and that Start keeps it.
use robo_baton_4p_ros2_demo.Prelude.{
  ◌≡◌, refl, sym, ap, ◌∙◌, Bool, true, false, ◌||◌, not, Result, ok, throw, arith,
}
use robo_baton_4p_ros2_demo.Options.{Environment}
use robo_baton_4p_ros2_demo.Camera.Core.{
  Core, CameraCoreConfig, record_failure, close_admission_and_request_stop,
}
use robo_baton_4p_ros2_demo.Camera.Lifecycle.{
  StartReplies, StartOutcome, refused, started, cleans_up, start, start_producer, CleanupEntry,
  returns, joins, cleanup_begin, detach_queues,
}
use robo_baton_4p_ros2_demo.Camera.System.{
  Owner, idle, joining, after_start, entered, starts, Reach, later,
}
use robo_baton_4p_ros2_demo.Camera.Publish.{Config, core_config}
use robo_baton_4p_ros2_demo.Camera.Impl.{
  Phase, at_rest, in_start, in_stop, Publisher, core_started, start_cleanup, profile_set,
  trigger_set, validated, begin_start,
}

abbrev pub is_at_joins : Phase → Bool
is_at_joins in_start = true
is_at_joins in_stop = true
is_at_joins _ = false

abbrev pub is_at_rest : Phase → Bool
is_at_rest at_rest = true
is_at_rest _ = false

abbrev pub owner_of : Phase → Owner
owner_of in_start = joining
owner_of in_stop = joining
owner_of _ = idle

-- The core was never claimed, or its cleanup is complete.
abbrev pub is_quiet : Core → Bool
is_quiet c = not c.start_claimed || c.cleanup_complete

-- What holds of the publisher between two moves.
pub record PublisherOk {Env : Type 0} (p : Publisher Env) : Type 0 where
  pub reach : Reach p.system
  pub owner : p.system.owner ≡ owner_of p.phase
  pub unstarted :
      p.phase ≡ at_rest
      → p.is_started ≡ false
      → p.system.core.failed ≡ false
      → is_quiet p.system.core ≡ true
  pub timer_off : p.phase ≡ in_stop → p.has_timer ≡ false

start-refused :
    (config : CameraCoreConfig) (r : StartReplies) (c : Core)
    → (start config r c).1 ≡ refused
    → (start config r c).0 ≡ c
unfolding start start_producer
start-refused config r c h = ground (arith, h)

start-cleans_up :
    (config : CameraCoreConfig) (r : StartReplies) (c : Core)
    → (start config r c).1 ≡ cleans_up
    → (start config r c).0.failed ≡ true
unfolding start start_producer record_failure
start-cleans_up config r c h = ground (arith, h)

pub cleanup_begin-failed : (c : Core) → (cleanup_begin c).0.failed ≡ c.failed
unfolding cleanup_begin close_admission_and_request_stop detach_queues
cleanup_begin-failed c = ground arith

module _ {Env : Type 0} where
  start_cleanup-Ok :
      (p : Publisher Env) (x : Core × CleanupEntry)
      → p.phase ≡ at_rest
      → Reach (entered p.system.callback x)
      → x.0.failed ≡ true
      → PublisherOk (start_cleanup p x).0
  start_cleanup-Ok p (c, returns b) e r f = record {
    reach = r;
    owner = rw e refl;
    unstarted = λ rest off fine. absurd (ground (arith, f, fine));
    timer_off = λ stopping. absurd (ground (arith, stopping, e));
  }
  start_cleanup-Ok p (c, joins) e r f = record {
    reach = r;
    owner = refl;
    unstarted = λ rest off fine. absurd (ground (arith, rest));
    timer_off = λ stopping. absurd (ground (arith, stopping));
  }

  core_started-Ok :
      (config : Config) (p : Publisher Env) (x : Core × StartOutcome)
      → p.phase ≡ at_rest
      → PublisherOk p
      → Reach (after_start p.system.callback x)
      → (x.1 ≡ refused → x.0 ≡ p.system.core)
      → (x.1 ≡ cleans_up → x.0.failed ≡ true)
      → PublisherOk (core_started config p x).0
  core_started-Ok config p (c, refused) e v r same fails = record {
    reach = r;
    owner = rw e refl;
    unstarted = λ rest off fine.
        let core : c ≡ p.system.core = same refl in
        rw core (v.unstarted rest off (ap (λ k. k.failed) (sym core) ∙ fine));
    timer_off = λ stopping. absurd (ground (arith, stopping, e));
  }
  core_started-Ok config p (c, started) e v r same fails = record {
    reach = r;
    owner = rw e refl;
    unstarted = λ rest off fine. absurd (ground (arith, off));
    timer_off = λ stopping. absurd (ground (arith, stopping, e));
  }
  core_started-Ok config p (c, cleans_up) e v r same fails =
      start_cleanup-Ok p (cleanup_begin c) e r (cleanup_begin-failed c ∙ fails refl)

  -- The environment is no part of what holds.
  with_env-Ok :
      (p : Publisher Env) (env : Env) → PublisherOk p → PublisherOk (record p { env = env })
  with_env-Ok p env v = record {
    reach = v.reach;
    owner = v.owner;
    unstarted = v.unstarted;
    timer_off = v.timer_off;
  }

  started-Ok :
      (config : Config) (p : Publisher Env) (r : StartReplies)
      → p.phase ≡ at_rest
      → PublisherOk p
      → PublisherOk (core_started config p (start (core_config config) r p.system.core)).0
  started-Ok config p r e v =
      core_started-Ok config p (start (core_config config) r p.system.core) e v
        (later v.reach (starts (core_config config) r (v.owner ∙ ap owner_of e)))
        (start-refused (core_config config) r p.system.core)
        (start-cleans_up (core_config config) r p.system.core)

module _ (c : Environment) (config : Config) where
  open c use {Env}

  profile_set-Ok :
      (r : StartReplies) (p : Publisher Env) (x : Result Env)
      → p.phase ≡ at_rest
      → PublisherOk p
      → PublisherOk (profile_set c config r p x).0
  profile_set-Ok r p (throw e) rest v = v
  profile_set-Ok r p (ok env) rest v =
      started-Ok config (record p { env = env }) r rest (with_env-Ok p env v)

  trigger_set-Ok :
      (r : StartReplies) (p : Publisher Env) (x : Result Env)
      → p.phase ≡ at_rest
      → PublisherOk p
      → PublisherOk (trigger_set c config r p x).0
  trigger_set-Ok r p (throw e) rest v = v
  trigger_set-Ok r p (ok env) rest v =
      profile_set-Ok r (record p { env = env }) _ rest (with_env-Ok p env v)

  validated-Ok :
      (r : StartReplies) (p : Publisher Env) (x : Result (Unit {0}))
      → p.phase ≡ at_rest
      → PublisherOk p
      → PublisherOk (validated c config r p x).0
  validated-Ok r p (throw e) rest v = v
  validated-Ok r p (ok x) rest v = trigger_set-Ok r p _ rest v

  pub begin_start-Ok :
      (r : StartReplies) (p : Publisher Env)
      → p.phase ≡ at_rest
      → PublisherOk p
      → PublisherOk (begin_start c config r p).0
  unfolding begin_start
  begin_start-Ok r p rest v = validated-Ok r p _ rest v
