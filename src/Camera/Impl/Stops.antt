-- ===== src/Camera/Impl/Stops.antt =====
-- What every move of the publisher keeps.
use robo_baton_4p_ros2_demo.Prelude.{
  ℕ, ◌<◌, ◌≡◌, inl, inr, refl, ap, ◌∙◌, Bool, true, false, ◌&&◌, not, Bool-cases, arith,
}
use robo_baton_4p_ros2_demo.Options.{Environment}
use robo_baton_4p_ros2_demo.Camera.Core.{max_cameras, Core, new_core, record_failure}
use robo_baton_4p_ros2_demo.Camera.Lifecycle.{
  CleanupEntry, returns, joins, cleanup_begin, cleanup_join_failed, cleanup_finish,
}
use robo_baton_4p_ros2_demo.Camera.Callback.{outside}
use robo_baton_4p_ros2_demo.Camera.System.{
  System, initial, entered, IsDone, Step, cleans, finishes, join_fails, Reach, constructed, later,
}
use robo_baton_4p_ros2_demo.Camera.Publish.{Config}
use robo_baton_4p_ros2_demo.Camera.Impl.{
  is_owner_step, at_rest, in_start, in_stop, Publisher, end_start, stop_cleanup, begin_stop,
  end_stop, calls_start, leaves_start, fails_in_start, calls_stop, leaves_stop, fails_in_stop,
  thread_moves, Comes, made, moved,
}
use robo_baton_4p_ros2_demo.Camera.Impl.Inv.{owner_of, is_quiet, PublisherOk, begin_start-Ok}
use robo_baton_4p_ros2_demo.Camera.Impl.Threads.{thread_step}

pub cleanup_begin-quiet :
    (c : Core) (b : Bool) → (cleanup_begin c).1 ≡ returns b → is_quiet (cleanup_begin c).0 ≡ true
unfolding cleanup_begin
cleanup_begin-quiet c b h = ground (arith, h)

module _ {Env : Type 0} where
  stop_cleanup-Ok :
      (p : Publisher Env) (x : Core × CleanupEntry)
      → Reach (entered p.system.callback x)
      → p.has_timer ≡ false
      → ((b : Bool) → x.1 ≡ returns b → is_quiet x.0 ≡ true)
      → PublisherOk (stop_cleanup p x).0
  stop_cleanup-Ok p (c, returns true) r off quiet = record {
    reach = r;
    owner = refl;
    unstarted = λ rest no fine. quiet true refl;
    timer_off = λ stopping. off;
  }
  stop_cleanup-Ok p (c, returns false) r off quiet = record {
    reach = r;
    owner = refl;
    unstarted = λ rest no fine. absurd (ground (arith, rest));
    timer_off = λ stopping. off;
  }
  stop_cleanup-Ok p (c, joins) r off quiet = record {
    reach = r;
    owner = refl;
    unstarted = λ rest no fine. absurd (ground (arith, rest));
    timer_off = λ stopping. off;
  }

  quiet_publisher-Ok :
      (p : Publisher Env)
      → p.phase ≡ at_rest
      → PublisherOk p
      → PublisherOk (record p { has_timer = false })
  quiet_publisher-Ok p rest v = record {
    reach = v.reach;
    owner = v.owner;
    unstarted = v.unstarted;
    timer_off = λ stopping. refl;
  }

  begin_stop-Ok :
      (p : Publisher Env) → p.phase ≡ at_rest → PublisherOk p → PublisherOk (begin_stop p).0
  unfolding begin_stop
  begin_stop-Ok p rest v =
      let quiet = record p { has_timer = false } in
      let cleaned =
        stop_cleanup-Ok quiet (cleanup_begin p.system.core)
          (later v.reach (cleans (v.owner ∙ ap owner_of rest))) refl
          (cleanup_begin-quiet p.system.core) in
      elim (Bool-cases (not p.is_started && not p.system.core.failed)) [
        | inl nothing ↦ rw nothing (quiet_publisher-Ok p rest v)
        | inr something ↦ rw something cleaned
      ]

  end_stop-Ok :
      (p : Publisher Env)
      → p.phase ≡ in_stop
      → ((id : ℕ) → id < max_cameras → IsDone (p.system.core.lanes id).worker)
      → p.system.callback ≡ outside
      → PublisherOk p
      → PublisherOk (end_stop false p).0
  unfolding end_stop cleanup_finish
  end_stop-Ok p e done out v = record {
    reach = later v.reach (finishes (v.owner ∙ ap owner_of e) done out);
    owner = refl;
    unstarted = λ rest no fine. ground arith;
    timer_off = λ stopping. absurd (ground (arith, stopping));
  }

  failed_stop-Ok :
      (p : Publisher Env) → p.phase ≡ in_stop → PublisherOk p → PublisherOk (end_stop true p).0
  unfolding end_stop
  failed_stop-Ok p e v = record {
    reach = later v.reach (join_fails (v.owner ∙ ap owner_of e));
    owner = refl;
    unstarted = λ rest no fine. absurd (ground (arith, rest));
    timer_off = λ stopping. absurd (ground (arith, stopping));
  }

  end_start-Ok :
      (p : Publisher Env)
      → p.phase ≡ in_start
      → ((id : ℕ) → id < max_cameras → IsDone (p.system.core.lanes id).worker)
      → p.system.callback ≡ outside
      → PublisherOk p
      → PublisherOk (end_start false p)
  unfolding end_start cleanup_finish
  end_start-Ok p e done out v = record {
    reach = later v.reach (finishes (v.owner ∙ ap owner_of e) done out);
    owner = refl;
    unstarted = λ rest no fine. ground arith;
    timer_off = λ stopping. absurd (ground (arith, stopping));
  }

  failed_start-Ok :
      (p : Publisher Env) → p.phase ≡ in_start → PublisherOk p → PublisherOk (end_start true p)
  unfolding end_start cleanup_join_failed record_failure
  failed_start-Ok p e v = record {
    reach = later v.reach (join_fails (v.owner ∙ ap owner_of e));
    owner = refl;
    unstarted = λ rest no fine. absurd (ground (arith, fine));
    timer_off = λ stopping. absurd (ground (arith, stopping));
  }

  thread_moves-Ok :
      (p : Publisher Env) (t : System) (step : Step p.system t)
      → is_owner_step step ≡ false
      → PublisherOk p
      → PublisherOk (record p { system = t })
  thread_moves-Ok p t step h v =
      let (owner, kept) = thread_step step h in
      record {
        reach = later v.reach step;
        owner = owner ∙ v.owner;
        unstarted = λ rest no fine. kept.quiet ∙ v.unstarted rest no (kept.failed fine);
        timer_off = v.timer_off;
      }

made-Ok : is_quiet initial.core ≡ true
unfolding initial new_core
made-Ok = refl

module _ (c : Environment) (config : Config) where
  open c use {Env}

  pub Comes-Ok : {p : Publisher Env} → Comes c config p → PublisherOk p
  unfolding initial
  Comes-Ok (made env) = record {
    reach = constructed;
    owner = refl;
    unstarted = λ rest no fine. made-Ok;
    timer_off = λ stopping. refl;
  }
  Comes-Ok (moved {p} comes (calls_start r rest)) =
      begin_start-Ok c config r p rest (Comes-Ok comes)
  Comes-Ok (moved {p} comes (leaves_start e done out)) = end_start-Ok p e done out (Comes-Ok comes)
  Comes-Ok (moved {p} comes (fails_in_start e)) = failed_start-Ok p e (Comes-Ok comes)
  Comes-Ok (moved {p} comes (calls_stop rest)) = begin_stop-Ok p rest (Comes-Ok comes)
  Comes-Ok (moved {p} comes (leaves_stop e done out)) = end_stop-Ok p e done out (Comes-Ok comes)
  Comes-Ok (moved {p} comes (fails_in_stop e)) = failed_stop-Ok p e (Comes-Ok comes)
  Comes-Ok (moved {p} comes (thread_moves t step h)) = thread_moves-Ok p t step h (Comes-Ok comes)
