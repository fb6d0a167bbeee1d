-- ===== src/Imu/Impl/Inv.antt =====
-- What holds of the IMU's publisher between its moves.
use robo_baton_4p_ros2_demo.Prelude.{
  ℕ, ◌≡◌, inl, inr, refl, sym, ap, ◌∙◌, true, false, ◌&&◌, not, ℤ, Bool-cases, arith,
}
use robo_baton_4p_ros2_demo.Imu.Core.{ImuCoreConfig, Core, record_failure, new_core}
use robo_baton_4p_ros2_demo.Imu.Ring.{outside}
use robo_baton_4p_ros2_demo.Imu.Lifecycle.{
  StartReplies, StartOutcome, refused, asks_driver, start_begin, start_with_handle, give_up,
  create_failed, driver_stopped, start_abandon, StopOutcome, returns, asks_driver_to_stop,
  finishes_publisher, stop_begin, stop_finish,
}
use robo_baton_4p_ros2_demo.Imu.System.{
  idle, starting, start_joining, joining, System, initial, after_start, after_stop, IsDone, Step,
  calls_start as core_starts, start_succeeds, start_abandons, calls_stop as core_stops, finishes,
  Reach, constructed, later,
}
use robo_baton_4p_ros2_demo.Imu.Publish.{Config, core_config}
use robo_baton_4p_ros2_demo.Imu.Impl.{
  at_rest, in_stop, Publisher, started_core, begin_start, return_start, abandon_start, stop_core,
  begin_stop, end_stop, is_boundary, calls_start, returns_start, throws_start, calls_stop,
  returns_stop, within, Comes, made, moved,
}
use robo_baton_4p_ros2_demo.Imu.Impl.Threads.{is_quiet, inner_step, inner_idle}

-- A core that answers a start at once is as quiet as it was, unless a failure was recorded.
start_begin-quiet :
    (config : ImuCoreConfig) (r : StartReplies) (c : Core)
    → (start_begin config r c).1 ≡ refused
    → (start_begin config r c).0.failed ≡ false
    → (start_begin config r c).0 ≡ c
unfolding start_begin start_with_handle give_up create_failed record_failure
start_begin-quiet config r c h fine = ground (arith, h, fine)

-- A stop sets the flag of the end, if it was not set.
pub stop_begin-terminal : (c : Core) → (stop_begin c).0.terminal ≡ true
unfolding stop_begin driver_stopped
stop_begin-terminal c = ground arith

-- What holds of the publisher between two moves.
pub record PublisherOk (p : Publisher) : Type 0 where
  pub reach : Reach p.system
  pub owner : p.phase ≡ at_rest → p.system.owner ≡ idle
  pub unstarted :
      p.phase ≡ at_rest
      → p.is_started ≡ false
      → p.system.core.failed ≡ false
      → is_quiet p.system.core ≡ true
  pub stopping : p.phase ≡ in_stop → (p.system.core.terminal ≡ true) × (p.has_timer ≡ false)

started_core-Ok :
    (p : Publisher) (x : Core × StartOutcome)
    → p.phase ≡ at_rest
    → PublisherOk p
    → Reach (after_start p.system x)
    → (x.1 ≡ refused → x.0.failed ≡ false → x.0 ≡ p.system.core)
    → PublisherOk (started_core p x).0
started_core-Ok p (c, refused) e v r same = record {
  reach = r;
  owner = v.owner;
  unstarted = λ rest off fine.
      let core : c ≡ p.system.core = same refl fine in
      rw core (v.unstarted rest off (ap (λ k. k.failed) (sym core) ∙ fine));
  stopping = λ ending. absurd (ground (arith, e, ending));
}
started_core-Ok p (c, asks_driver) e v r same = record {
  reach = r;
  owner = λ rest. absurd (ground (arith, rest));
  unstarted = λ rest off fine. absurd (ground (arith, rest));
  stopping = λ ending. absurd (ground (arith, ending));
}

begin_start-Ok :
    (config : Config) (r : StartReplies) (p : Publisher)
    → p.phase ≡ at_rest
    → PublisherOk p
    → PublisherOk (begin_start config r p).0
unfolding begin_start
begin_start-Ok config r p rest v =
    started_core-Ok p (start_begin (core_config config) r p.system.core) rest v
      (later v.reach (core_starts (core_config config) r (v.owner rest)))
      (start_begin-quiet (core_config config) r p.system.core)

return_start-Ok :
    (config : Config) (now_ns : ℕ) (p : Publisher)
    → p.system.owner ≡ starting
    → PublisherOk p
    → PublisherOk (return_start config now_ns p)
unfolding return_start
return_start-Ok config now_ns p e v = record {
  reach = later v.reach (start_succeeds e);
  owner = λ rest. refl;
  unstarted = λ rest off fine. absurd (ground (arith, off));
  stopping = λ ending. absurd (ground (arith, ending));
}

abandon_start-Ok :
    (p : Publisher)
    → p.system.owner ≡ start_joining
    → IsDone p.system.publisher
    → p.system.producer ≡ outside
    → PublisherOk p
    → PublisherOk (abandon_start p)
unfolding abandon_start start_abandon record_failure
abandon_start-Ok p e done out v = record {
  reach = later v.reach (start_abandons e done out);
  owner = λ rest. refl;
  unstarted = λ rest off fine. absurd (ground (arith, fine));
  stopping = λ ending. absurd (ground (arith, ending));
}

stop_core-Ok :
    (p : Publisher) (x : Core × StopOutcome)
    → p.system.owner ≡ idle
    → Reach (after_stop p.system x)
    → x.0.terminal ≡ true
    → p.has_timer ≡ false
    → PublisherOk (stop_core p x).0
stop_core-Ok p (c, returns b) o r ended off = record {
  reach = r;
  owner = λ rest. o;
  unstarted = λ rest no fine. rw ended refl;
  stopping = λ ending. absurd (ground (arith, ending));
}
stop_core-Ok p (c, asks_driver_to_stop) o r ended off = record {
  reach = r;
  owner = λ rest. absurd (ground (arith, rest));
  unstarted = λ rest no fine. absurd (ground (arith, rest));
  stopping = λ ending. (ended, off);
}
stop_core-Ok p (c, finishes_publisher) o r ended off = record {
  reach = r;
  owner = λ rest. absurd (ground (arith, rest));
  unstarted = λ rest no fine. absurd (ground (arith, rest));
  stopping = λ ending. (ended, off);
}

begin_stop-Ok : (p : Publisher) → p.phase ≡ at_rest → PublisherOk p → PublisherOk (begin_stop p).0
unfolding begin_stop
begin_stop-Ok p rest v =
    let quiet = record p { has_timer = false } in
    let stopped =
      stop_core-Ok quiet (stop_begin p.system.core) (v.owner rest)
        (later v.reach (core_stops (v.owner rest))) (stop_begin-terminal p.system.core) refl in
    elim (Bool-cases (not p.is_started && not p.system.core.failed)) [
      | inl nothing ↦ rw nothing (record {
        reach = v.reach;
        owner = v.owner;
        unstarted = v.unstarted;
        stopping = λ ending. absurd (ground (arith, rest, ending));
      })
      | inr something ↦ rw something stopped
    ]

pub stop_finish-terminal : (status : ℤ) (c : Core) → (stop_finish status c).0.terminal ≡ c.terminal
unfolding stop_finish record_failure
stop_finish-terminal status c = ground arith

end_stop-Ok :
    (status : ℤ) (p : Publisher)
    → p.phase ≡ in_stop
    → p.system.owner ≡ joining status
    → IsDone p.system.publisher
    → p.system.producer ≡ outside
    → PublisherOk p
    → PublisherOk (end_stop status p)
unfolding end_stop
end_stop-Ok status p e o done out v = record {
  reach = later v.reach (finishes status o done out);
  owner = λ rest. refl;
  unstarted = λ rest no fine. rw (stop_finish-terminal status p.system.core, (v.stopping e).0) refl;
  stopping = λ ending. absurd (ground (arith, ending));
}

within-Ok :
    (p : Publisher) (t : System) (step : Step p.system t)
    → is_boundary step ≡ false
    → PublisherOk p
    → PublisherOk (record p { system = t })
within-Ok p t step h v =
    let kept = inner_step step h in
    record {
      reach = later v.reach step;
      owner = λ rest. inner_idle step h (v.owner rest);
      unstarted =
          λ rest no fine. rw (kept.terminal, kept.claimed) (v.unstarted rest no (kept.failed fine));
      stopping = λ ending. (kept.terminal ∙ (v.stopping ending).0, (v.stopping ending).1);
    }

made_quiet : is_quiet initial.core ≡ true
unfolding initial new_core
made_quiet = refl

pub Comes-Ok : (config : Config) {p : Publisher} → Comes config p → PublisherOk p
unfolding initial
Comes-Ok config (made snapshot) = record {
  reach = constructed;
  owner = λ rest. refl;
  unstarted = λ rest off fine. made_quiet;
  stopping = λ ending. absurd (ground (arith, ending));
}
Comes-Ok config (moved {p} comes (calls_start r rest)) =
    begin_start-Ok config r p rest (Comes-Ok config comes)
Comes-Ok config (moved {p} comes (returns_start now_ns e o)) =
    return_start-Ok config now_ns p o (Comes-Ok config comes)
Comes-Ok config (moved {p} comes (throws_start e o done out)) =
    abandon_start-Ok p o done out (Comes-Ok config comes)
Comes-Ok config (moved {p} comes (calls_stop rest)) = begin_stop-Ok p rest (Comes-Ok config comes)
Comes-Ok config (moved {p} comes (returns_stop status e o done out)) =
    end_stop-Ok status p e o done out (Comes-Ok config comes)
Comes-Ok config (moved {p} comes (within t step h)) = within-Ok p t step h (Comes-Ok config comes)
