-- ===== src/Camera/System/Ownership/Start.antt =====
-- Start and Cleanup keep the balance of references.
use robo_baton_4p_ros2_demo.Prelude.{
  ℕ, ◌<◌, ◌≡◌, inl, inr, true, false, ◌||◌, ◌∷◌, arith, Bool-cases,
}
use robo_baton_4p_ros2_demo.Camera.Frame.{set_fps, set_output_rotation}
use robo_baton_4p_ros2_demo.Camera.Queue.{new_queue}
use robo_baton_4p_ros2_demo.Camera.Core.{
  CameraCoreConfig, Core, validate_config, record_failure, close_admission_and_request_stop,
}
use robo_baton_4p_ros2_demo.Camera.Lifecycle.{
  StartReplies, StartOutcome, refused, started, cleans_up, start, cleanup_begin,
  cleanup_join_failed, cleanup_finish, start_workers, initialize_queues, start_producer, is_ok,
  throws_at, thread_limit,
}
use robo_baton_4p_ros2_demo.Camera.Callback.{Callback}
use robo_baton_4p_ros2_demo.Camera.System.{idle, entered, after_start, IsDone}
use robo_baton_4p_ros2_demo.Camera.System.Inv.{has_queue, is_absent, Inv}
use robo_baton_4p_ros2_demo.Camera.System.Ownership.Defs.{
  held_jobs, held_lane, Balanced, blank-held, close-Balanced, detach-Balanced,
}

pub cleanup_begin-Balanced :
    (f : ℕ) (c : Core) (cb : Callback)
    → Balanced f c cb
    → let s = entered cb (cleanup_begin c) in Balanced f s.core s.callback
unfolding cleanup_begin
cleanup_begin-Balanced f c cb b = elim (Bool-cases c.start_claimed) [
  | inr new ↦ rw (new) b
  | inl claimed ↦ elim (Bool-cases c.cleanup_complete) [
    | inl complete ↦ rw (claimed, complete) b
    | inr incomplete ↦
        rw (claimed, incomplete)
          (detach-Balanced f (close_admission_and_request_stop (record c { terminal = true })) cb
            (close-Balanced f (record c { terminal = true }) cb b))
  ]
]

pub cleanup_finish-Balanced :
    (f : ℕ) (c : Core) (cb : Callback)
    → ((id : ℕ) → id < 4 → IsDone (c.lanes id).worker)
    → Balanced f c cb
    → Balanced f (cleanup_finish c).0 cb
unfolding cleanup_finish held_lane
cleanup_finish-Balanced f c cb d b =
    ground (arith, d 0 (omega arith), d 1 (omega arith), d 2 (omega arith), d 3 (omega arith))

pub join_failed-Balanced :
    (f : ℕ) (c : Core) (cb : Callback) → Balanced f c cb → Balanced f (cleanup_join_failed c).0 cb
unfolding cleanup_join_failed record_failure
join_failed-Balanced f c cb b = b

initialize-held :
    (f : ℕ) (c : Core) (id : ℕ)
    → has_queue (c.lanes id).queue ≡ false
    → is_absent (c.lanes id).worker ≡ true
    → held_lane f ((initialize_queues c).lanes id) ≡ 0
unfolding initialize_queues held_lane held_jobs new_queue
initialize-held f c id q w = ground arith

threads-held :
    (f limit : ℕ) (c : Core) (id : ℕ)
    → is_absent (c.lanes id).worker ≡ true
    → held_lane f ((start_workers limit c).lanes id) ≡ held_lane f (c.lanes id)
unfolding start_workers held_lane
threads-held f limit c id w = ground arith

worker-initialize :
    (c : Core) (id : ℕ) → ((initialize_queues c).lanes id).worker ≡ (c.lanes id).worker
unfolding initialize_queues
worker-initialize c id = ground arith

ready-Balanced :
    (f : ℕ) (c : Core) (cb : Callback)
    → ((id : ℕ) → (is_absent (c.lanes id).worker ≡ true) × (has_queue (c.lanes id).queue ≡ false))
    → Balanced f c cb
    → Balanced f (initialize_queues c) cb
unfolding initialize_queues
ready-Balanced f c cb blank b =
    let old = λ (id : ℕ). blank-held f (c.lanes id) (blank id).1 (blank id).0 in
    let new = λ (id : ℕ). initialize-held f c id (blank id).1 (blank id).0 in
    omega (arith, old 0, old 1, old 2, old 3, new 0, new 1, new 2, new 3)

threads-Balanced :
    (f limit : ℕ) (c : Core) (cb : Callback)
    → ((id : ℕ) → is_absent (c.lanes id).worker ≡ true)
    → Balanced f c cb
    → Balanced f (start_workers limit c) cb
unfolding start_workers
threads-Balanced f limit c cb blank b =
    let same = λ (id : ℕ). threads-held f limit c id (blank id) in
    omega (arith, same 0, same 1, same 2, same 3)

-- No lane holds anything while the core is unclaimed, so what Start makes holds nothing.
start_producer-Balanced :
    (f : ℕ) (r : StartReplies) (c : Core) (cb : Callback)
    → ((id : ℕ) → (is_absent (c.lanes id).worker ≡ true) × (has_queue (c.lanes id).queue ≡ false))
    → Balanced f c cb
    → Balanced f (start_producer r c).0 cb
unfolding start_producer record_failure
start_producer-Balanced f r c cb blank b = elim (Bool-cases (is_ok r.set_fps_status)) [
  | inr bad ↦ rw bad ready
  | inl ok₁ ↦ elim (Bool-cases (is_ok r.set_output_rotation_status)) [
    | inr bad ↦ rw (ok₁, bad) ready
    | inl ok₂ ↦ elim (Bool-cases (throws_at c.config r.thread_throws_at)) [
      | inl bad ↦ rw (ok₁, ok₂, bad) threads
      | inr ok₃ ↦ elim (Bool-cases (is_ok r.start_frame_set_status)) [
        | inr bad ↦ rw (ok₁, ok₂, ok₃, bad) threads
        | inl ok₄ ↦ rw (ok₁, ok₂, ok₃, ok₄) threads
      ]
    ]
  ]
]
  where
    ready : Balanced f (initialize_queues c) cb
    ready = ready-Balanced f c cb blank b

    limit : ℕ
    limit = thread_limit c.config r.thread_throws_at

    turned : Core
    turned = record (initialize_queues c) {
      bridge_accepting = true;
      calls =
          set_output_rotation c.config.rotation
          ∷ set_fps c.config.fps
          ∷ (initialize_queues c).calls;
    }

    threads : Balanced f (start_workers limit turned) cb
    threads =
        threads-Balanced f limit turned cb (λ id. rw (worker-initialize c id) (blank id).0) ready

start_core-Balanced :
    (f : ℕ) (config : CameraCoreConfig) (r : StartReplies) (c : Core) (cb : Callback)
    → Inv c cb idle
    → Balanced f c cb
    → Balanced f (start config r c).0 cb
unfolding start record_failure
start_core-Balanced f config r c cb v b = elim (Bool-cases (c.start_claimed || c.terminal)) [
  | inl claimed ↦ rw claimed b
  | inr unclaimed ↦ elim (Bool-cases (validate_config config)) [
    | inr invalid ↦ rw (unclaimed, invalid) b
    | inl valid ↦
        rw (unclaimed, valid)
          (start_producer-Balanced f r
            (record c {
              start_claimed = true;
              config = config;
              has_sink = true;
              has_notifier = true;
            })
            cb (λ id. (v.lane id).blank (ground arith)) b)
  ]
]

after_start-Balanced :
    (f : ℕ) (cb : Callback) (c : Core) (o : StartOutcome)
    → Balanced f c cb
    → let s = after_start cb (c, o) in Balanced f s.core s.callback
after_start-Balanced f cb c refused b = b
after_start-Balanced f cb c started b = b
after_start-Balanced f cb c cleans_up b = cleanup_begin-Balanced f c cb b

pub start-Balanced :
    (f : ℕ) (config : CameraCoreConfig) (r : StartReplies) (c : Core) (cb : Callback)
    → Inv c cb idle
    → Balanced f c cb
    → let s = after_start cb (start config r c) in Balanced f s.core s.callback
start-Balanced f config r c cb v b =
    after_start-Balanced f cb (start config r c).0 (start config r c).1
      (start_core-Balanced f config r c cb v b)
