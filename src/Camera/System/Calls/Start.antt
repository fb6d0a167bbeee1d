-- ===== src/Camera/System/Calls/Start.antt =====
-- Start and Cleanup call libsc132 and the notifier no more than they may.
use robo_baton_4p_ros2_demo.Prelude.{
  ◌≡◌, inl, inr, refl, Bool, true, false, ◌||◌, not, arith, if◌then◌else◌, Bool-cases,
}
use robo_baton_4p_ros2_demo.Camera.Core.{
  CameraCoreConfig, Core, validate_config, record_failure, close_admission_and_request_stop,
}
use robo_baton_4p_ros2_demo.Camera.Lifecycle.{
  StartReplies, StartOutcome, refused, started, cleans_up, start, returns, joins, cleanup_begin,
  cleanup_finish, start_workers, initialize_queues, start_producer,
}
use robo_baton_4p_ros2_demo.Camera.Callback.{Callback}
use robo_baton_4p_ros2_demo.Camera.System.{entered, after_start}
use robo_baton_4p_ros2_demo.Camera.System.Calls.Defs.{Once, record_failure-Once, detach_queues-Once}

pub ending-Once :
    (c : Core)
    → c.cleanup_complete ≡ false
    → Once c
    → Once (close_admission_and_request_stop (record c { terminal = true }))
unfolding close_admission_and_request_stop
ending-Once c pending o = record {
  silent = o.silent;
  notified_once = o.notified_once;
  launched_once = ground (arith, o);
  unclaimed = o.unclaimed;
  requested_once = ground (arith, o);
  ended = λ t. refl;
  stopped_twice = ground (arith, o);
  complete = ground (arith, pending);
}

pub entry-Once :
    (claimed complete quiesced : Bool) (cb : Callback) (c d : Core)
    → Once c
    → (claimed ≡ true → complete ≡ false → Once d)
    → Once
        (entered cb (
          if not claimed
          then (c, returns true)
          else if complete
          then (c, returns quiesced)
          else (d, joins))).core
entry-Once false complete quiesced cb c d o go = o
entry-Once true true quiesced cb c d o go = o
entry-Once true false quiesced cb c d o go = go refl refl

pub cleanup_begin-Once :
    (c : Core) (cb : Callback) → Once c → Once (entered cb (cleanup_begin c)).core
unfolding cleanup_begin
cleanup_begin-Once c cb o =
    entry-Once c.start_claimed c.cleanup_complete c.cleanup_quiesced cb c _ o (λ claimed pending.
      detach_queues-Once (close_admission_and_request_stop (record c { terminal = true }))
        (ending-Once c pending o))

pub cleanup_finish-Once :
    (c : Core)
    → c.start_claimed ≡ true
    → c.terminal ≡ true
    → c.cleanup_complete ≡ false
    → Once c
    → Once (cleanup_finish c).0
unfolding cleanup_finish
cleanup_finish-Once c s t n o = record {
  silent = o.silent;
  notified_once = o.notified_once;
  launched_once = o.launched_once;
  unclaimed = o.unclaimed;
  requested_once = o.requested_once;
  ended = o.ended;
  stopped_twice = ground (arith, o);
  complete = λ h. (s, t);
}

pub start_producer-Once :
    (r : StartReplies) (c : Core)
    → c.start_claimed ≡ true
    → c.start_attempted ≡ false
    → Once c
    → Once (start_producer r c).0
unfolding start_producer initialize_queues start_workers record_failure
start_producer-Once r c s a o = record {
  silent = ground (arith, o);
  notified_once = ground (arith, o);
  launched_once = ground (arith, o);
  unclaimed = ground (arith, o);
  requested_once = ground (arith, o);
  ended = ground (arith, o);
  stopped_twice = ground (arith, o);
  complete = ground (arith, o);
}

abbrev claim : CameraCoreConfig → Core → Core
claim config c = record c {
  start_claimed = true;
  config = config;
  has_sink = true;
  has_notifier = true;
}

pub claim-Once :
    (config : CameraCoreConfig) (c : Core)
    → c.start_claimed ≡ false
    → Once c
    → Once (claim config c)
claim-Once config c e o = record {
  silent = o.silent;
  notified_once = o.notified_once;
  launched_once = o.launched_once;
  unclaimed = ground arith;
  requested_once = o.requested_once;
  ended = o.ended;
  stopped_twice = o.stopped_twice;
  complete = ground (arith, o);
}

pub start-Once :
    (config : CameraCoreConfig) (r : StartReplies) (c : Core) → Once c → Once (start config r c).0
unfolding start
start-Once config r c o = elim (Bool-cases (c.start_claimed || c.terminal)) [
  | inl late ↦ rw late o
  | inr go ↦
      let fresh : c.start_claimed ≡ false = ground (arith, go) in
      let claimed = claim-Once config c fresh o in
      elim (Bool-cases (validate_config config)) [
        | inr bad ↦ rw (go, bad) (record_failure-Once (claim config c) claimed)
        | inl valid ↦
            rw (go, valid) (start_producer-Once r (claim config c) refl (o.unclaimed fresh) claimed)
      ]
]

pub after_start-Once :
    (cb : Callback) (c : Core) (outcome : StartOutcome)
    → Once c
    → Once (after_start cb (c, outcome)).core
after_start-Once cb c refused o = o
after_start-Once cb c started o = o
after_start-Once cb c cleans_up o = cleanup_begin-Once c cb o
