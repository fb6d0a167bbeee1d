-- ===== src/Camera/System/Inv/Start.antt =====
-- Start and Cleanup keep the invariant.
use robo_baton_4p_ros2_demo.Prelude.{
  ℕ, ◌≡◌, inl, inr, refl, Bool, true, false, ◌||◌, List, arith, Bool-cases,
}
use robo_baton_4p_ros2_demo.Camera.Frame.{Call}
use robo_baton_4p_ros2_demo.Camera.Core.{
  CameraCoreConfig, Core, new_core, validate_config, record_failure,
}
use robo_baton_4p_ros2_demo.Camera.Lifecycle.{
  StartReplies, StartOutcome, refused, started, cleans_up, start, cleanup_begin,
  cleanup_join_failed, cleanup_finish, start_workers, initialize_queues, start_producer, is_ok,
  throws_at, thread_limit,
}
use robo_baton_4p_ros2_demo.Camera.Callback.{Callback, outside}
use robo_baton_4p_ros2_demo.Camera.System.{Owner, idle, joining, entered, after_start}
use robo_baton_4p_ros2_demo.Camera.System.Inv.Defs.{is_outside, Inv}

pub initial-Inv : Inv new_core outside idle
unfolding new_core
initial-Inv = record { flags = ground arith; lane = λ id. ground arith; pushing = refl }

pub cleanup_begin-Inv :
    (c : Core) (cb : Callback)
    → Inv c cb idle
    → let s = entered cb (cleanup_begin c) in Inv s.core s.callback s.owner
unfolding cleanup_begin
cleanup_begin-Inv c cb v = record {
  flags = ground (arith, v.flags);
  lane = λ id. ground (arith, v.flags, v.lane id);
  pushing = ground (arith, v.pushing);
}

-- The invariant does not speak of the calls, the failure and the other flags of Start.
Inv-rest :
    (c : Core) (cb : Callback) (o : Owner) (calls : List Call)
    (failed start_attempted running : Bool) (notified : ℕ)
    → Inv c cb o
    → Inv
        (record c {
          calls = calls;
          failed = failed;
          start_attempted = start_attempted;
          running = running;
          notified = notified;
        })
        cb
        o
Inv-rest c cb o calls failed start_attempted running notified v = record {
  flags = ground (arith, v.flags);
  lane = λ id. ground (arith, v.lane id);
  pushing = v.pushing;
}

start_workers-Inv :
    (limit : ℕ) (c : Core)
    → c.bridge_accepting ≡ true
    → Inv c outside idle
    → Inv (start_workers limit c) outside idle
unfolding start_workers
start_workers-Inv limit c b v = record {
  flags = ground (arith, v.flags);
  lane = λ id. ground (arith, v.flags, v.lane id);
  pushing = refl;
}

-- The core that Start has claimed, before it looks at the configuration.
abbrev claim : CameraCoreConfig → Core → Core
claim config c = record c {
  start_claimed = true;
  config = config;
  has_sink = true;
  has_notifier = true;
}

claim-Inv :
    (config : CameraCoreConfig) (c : Core) (cb : Callback)
    → c.start_claimed ≡ false
    → Inv c cb idle
    → Inv (claim config c) cb idle
claim-Inv config c cb e v = record {
  flags = ground (arith, v.flags);
  lane = λ id. ground (arith, v.flags, v.lane id);
  pushing = ground (arith, v.flags);
}

ready-Inv :
    (config : CameraCoreConfig) (c : Core) (cb : Callback)
    → c.start_claimed ≡ false
    → Inv c cb idle
    → Inv (record (initialize_queues (claim config c)) { bridge_accepting = true }) outside idle
unfolding initialize_queues
ready-Inv config c cb e v = record {
  flags = ground (arith, v.flags);
  lane = λ id. ground (arith, v.flags, v.lane id);
  pushing = refl;
}

start_producer-Inv :
    (r : StartReplies) (c : Core)
    → Inv (record (initialize_queues c) { bridge_accepting = true }) outside idle
    → Inv (start_producer r c).0 outside idle
unfolding start_producer record_failure
start_producer-Inv r c v = elim (Bool-cases (is_ok r.set_fps_status)) [
  | inr bad ↦ rw bad (Inv-rest ready outside idle _ _ _ _ _ v)
  | inl ok₁ ↦ elim (Bool-cases (is_ok r.set_output_rotation_status)) [
    | inr bad ↦ rw (ok₁, bad) (Inv-rest ready outside idle _ _ _ _ _ v)
    | inl ok₂ ↦ elim (Bool-cases (throws_at c.config r.thread_throws_at)) [
      | inl bad ↦ rw (ok₁, ok₂, bad) (Inv-rest threads outside idle _ _ _ _ _ working)
      | inr ok₃ ↦ elim (Bool-cases (is_ok r.start_frame_set_status)) [
        | inr bad ↦ rw (ok₁, ok₂, ok₃, bad) (Inv-rest threads outside idle _ _ _ _ _ working)
        | inl ok₄ ↦ rw (ok₁, ok₂, ok₃, ok₄) (Inv-rest threads outside idle _ _ _ _ _ working)
      ]
    ]
  ]
]
  where
    ready : Core
    ready = record (initialize_queues c) { bridge_accepting = true }

    threads : Core
    threads = start_workers (thread_limit c.config r.thread_throws_at) ready

    working : Inv threads outside idle
    working = start_workers-Inv (thread_limit c.config r.thread_throws_at) ready refl v

start-refused :
    (config : CameraCoreConfig) (r : StartReplies) (c : Core)
    → (c.start_claimed || c.terminal) ≡ true
    → start config r c ≡ (c, refused)
unfolding start
start-refused config r c h = rw h

claimed-Inv :
    (config : CameraCoreConfig) (r : StartReplies) (c : Core)
    → (c.start_claimed || c.terminal) ≡ false
    → Inv c outside idle
    → Inv (start config r c).0 outside idle
unfolding start record_failure
claimed-Inv config r c unclaimed v = elim (Bool-cases (validate_config config)) [
  | inl valid ↦
      rw (unclaimed, valid)
        (start_producer-Inv r (claim config c) (ready-Inv config c outside (ground arith) v))
  | inr invalid ↦
      rw (unclaimed, invalid)
        (Inv-rest (claim config c) outside idle _ _ _ _ _
          (claim-Inv config c outside (ground arith) v))
]

outside_of : (cb : Callback) → is_outside cb ≡ true → cb ≡ outside
outside_of outside h = refl
outside_of _ h = cc

pub start_core-Inv :
    (config : CameraCoreConfig) (r : StartReplies) (c : Core) (cb : Callback)
    → Inv c cb idle
    → Inv (start config r c).0 cb idle
start_core-Inv config r c cb v = elim (Bool-cases (c.start_claimed || c.terminal)) [
  | inl yes_claimed ↦ rw (start-refused config r c yes_claimed) v
  | inr no_claim ↦
      let e : cb ≡ outside = outside_of cb (ground (arith, v.flags)) in
      rw e (claimed-Inv config r c no_claim (rw e at v))
]

pub after_start-Inv :
    (cb : Callback) (c : Core) (o : StartOutcome)
    → Inv c cb idle
    → let s = after_start cb (c, o) in Inv s.core s.callback s.owner
after_start-Inv cb c refused v = v
after_start-Inv cb c started v = v
after_start-Inv cb c cleans_up v = cleanup_begin-Inv c cb v

pub cleanup_finish-Inv :
    (c : Core) (cb : Callback)
    → is_outside cb ≡ true
    → Inv c cb joining
    → Inv (cleanup_finish c).0 cb idle
unfolding cleanup_finish
cleanup_finish-Inv c cb out v = record {
  flags = ground (arith, v.flags);
  lane = λ id. ground (arith, v.flags, v.lane id);
  pushing = ground (arith, v.pushing);
}

pub join_failed-Inv :
    (c : Core) (cb : Callback) → Inv c cb joining → Inv (cleanup_join_failed c).0 cb idle
unfolding cleanup_join_failed
join_failed-Inv c cb v = record {
  flags = ground (arith, v.flags);
  lane = λ id. ground (arith, v.flags, v.lane id);
  pushing = ground (arith, v.pushing);
}
