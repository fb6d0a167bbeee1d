-- ===== src/Imu/System/Ending.antt =====
-- The publishing thread ends once it is told to stop.
use robo_baton_4p_ros2_demo.Prelude.{
  ℕ, ◌*◌, ◌+◌, ◌-◌, ◌≤◌, ◌≡◌, ◌⊎◌, inl, inr, refl, Bool, true, false, ◌||◌, Option, arith, sym, ap,
  ◌∙◌,
}
use robo_baton_4p_ros2_demo.Imu.Core.{
  Core, ImuCoreConfig, Sample, PendingSample, new_core, record_failure, store,
}
use robo_baton_4p_ros2_demo.Imu.Ring.{
  Publisher, publish_next, publish_sample, count_sample, enter, check_room, fill, store_write,
  count_arrival, fail_closed, outside, filled,
}
use robo_baton_4p_ros2_demo.Imu.System.{
  System, initial, after_start, Step, calls_start, start_succeeds, start_fails, start_stops,
  start_abandons, calls_stop, stops, finishes, enters, checks, fills, stores, publishes, Reach,
  constructed, later, publisher_step, step_from, join,
}
use robo_baton_4p_ros2_demo.Imu.System.Failure.{
  After, at_once, then_, in_callback, in_callback-bound,
}
use robo_baton_4p_ros2_demo.Imu.Lifecycle.{
  StartReplies, start_begin, start_with_handle, give_up, create_failed, start_failed,
  driver_stopped, start_abandon, stop_begin, stop_finish,
}
use robo_baton_4p_ros2_demo.Imu.System.Ring.{RingOk}
use robo_baton_4p_ros2_demo.Imu.System.Flags.{FlagsOk, is_absent, is_over}
use robo_baton_4p_ros2_demo.Imu.System.Inv.{Inv, Reach-Inv}
use robo_baton_4p_ros2_demo.Imu.System.Measure.{
  rank, measure, step_down, stays_over, unmeasured, measure-bound,
}

-- The same, for what the callback may still store.
potential : System → ℕ
potential s = measure s + 21 * in_callback s.producer

-- Of one step, and of a run, how many are steps of the publishing thread.
unfoldable pub own_step : {s t : System} → Step s t → ℕ
own_step (publishes throws) = 1
own_step _ = 0

unfoldable pub own_steps : {s t : System} → After s t → ℕ
unfolding own_step
own_steps at_once = 0
own_steps (then_ path step) = own_steps path + own_step step

-- A thread that is told to stop, while nothing is let in.
record IsTold (s : System) : Type 0 where
  told : s.core.publisher_stop ≡ true
  shut : s.core.admission ≡ false
  there : is_absent s.publisher ≡ false

-- What a step of `n` steps of the thread does.
record Nearer (n : ℕ) (s t : System) : Type 0 where
  told : IsTold t
  over : is_over s.publisher ≡ true → is_over t.publisher ≡ true
  nearer : (is_over t.publisher ≡ true) ⊎ (n + potential t ≤ potential s)

start_begin-Nearer :
    (config : ImuCoreConfig) (r : StartReplies) (s : System)
    → (s.core.start_claimed || s.core.terminal) ≡ true
    → IsTold s
    → Nearer 0 s (after_start s (start_begin config r s.core))
unfolding start_begin potential
start_begin-Nearer config r s e v = ground (arith, e, v)

enter-Nearer :
    (sample : Option Sample) (now_ns : ℕ) (s : System)
    → s.producer ≡ outside
    → IsTold s
    → Nearer 0 s (record s {
      core = (enter sample now_ns s.core).0;
      producer = (enter sample now_ns s.core).1;
    })
unfolding enter count_arrival potential measure in_callback
enter-Nearer sample now_ns s e v = ground (arith, e, v)

store-Nearer :
    (write : ℕ) (p : PendingSample) (s : System)
    → s.producer ≡ filled write p
    → s.handed ≤ s.admitted
    → IsTold s
    → Nearer 0 s (record s {
      core = store_write write s.core;
      producer = outside;
      admitted = s.admitted + 1;
      arrivals = store s.arrivals s.admitted p;
    })
unfolding store_write potential measure rank in_callback
store-Nearer write p s e ordered v = ground (arith, e, ordered, v)

joined-over : (p : Publisher) → is_absent p ≡ false → is_over (join p) ≡ true
joined-over p e = ground (arith, e)

step_from-shut :
    (throws : Bool) (s : System) (p : Publisher)
    → s.core.admission ≡ false
    → (step_from throws s p).core.admission ≡ false
unfolding step_from publish_next publish_sample count_sample record_failure
step_from-shut throws s p e = ground (arith, e)

step_from-Nearer :
    (throws : Bool) (s : System) (p : Publisher)
    → s.publisher ≡ p
    → RingOk s
    → IsTold s
    → Nearer 1 s (step_from throws s p)
unfolding potential step_from
step_from-Nearer throws s p e w v =
    let (told, there, nearer) = step_down throws s p e (ap is_absent (sym e) ∙ v.there) v.told w in
    record {
      told = record { told = told; shut = step_from-shut throws s p v.shut; there = there };
      over = λ h. stays_over throws s p (ap is_over (sym e) ∙ h);
      nearer = elim nearer [ inl over ↦ inl over | inr less ↦ inr (omega (arith, less)) ];
    }

step-Nearer : {s t : System} (step : Step s t) → Inv s → IsTold s → Nearer (own_step step) s t
unfolding own_step publisher_step start_failed driver_stopped start_abandon stop_begin stop_finish
    record_failure check_room fill potential measure in_callback
step-Nearer {s} (calls_start config r e) w v =
    start_begin-Nearer config r s (ground (arith, w.flags.ending v.told)) v
step-Nearer {s} (start_succeeds e) w v = ground (arith, v)
step-Nearer {s} (start_fails e) w v = ground (arith, v)
step-Nearer {s} (start_stops status e o) w v = ground (arith, v)
step-Nearer {s} (start_abandons e d o) w v = ground (arith, v, joined-over s.publisher)
step-Nearer {s} (calls_stop e) w v = ground (arith, v)
step-Nearer {s} (stops status e o) w v = ground (arith, v)
step-Nearer {s} (finishes status e d o) w v = ground (arith, v, joined-over s.publisher)
step-Nearer {s} (enters sample now_ns d o) w v = enter-Nearer sample now_ns s o v
step-Nearer {s} (checks p e) w v = ground (arith, e, v)
step-Nearer {s} (fills write p e) w v = ground (arith, e, v)
step-Nearer {s} (stores write p e) w v = store-Nearer write p s e w.ring.ordered v
step-Nearer {s} (publishes throws) w v = step_from-Nearer throws s s.publisher refl w.ring v

-- A thread that was told to stop stays so where no step lets samples in.
start_begin-closes :
    (config : ImuCoreConfig) (r : StartReplies) (s : System)
    → (s.core.publisher_stop ≡ true → (s.core.terminal ≡ true) ⊎ (s.core.start_claimed ≡ true))
    → (s.core.publisher_stop ≡ true → s.core.admission ≡ false)
    → (after_start s (start_begin config r s.core)).core.publisher_stop ≡ true
    → (after_start s (start_begin config r s.core)).core.admission ≡ false
unfolding start_begin start_with_handle give_up create_failed record_failure
start_begin-closes config r s w v h = ground (arith, w, v, h)

step_from-closes :
    (throws : Bool) (s : System) (p : Publisher)
    → (s.core.publisher_stop ≡ true → s.core.admission ≡ false)
    → (step_from throws s p).core.publisher_stop ≡ true
    → (step_from throws s p).core.admission ≡ false
unfolding step_from publish_next publish_sample count_sample record_failure
step_from-closes throws s p v h = ground (arith, v, h)

enter-closes :
    (sample : Option Sample) (now_ns : ℕ) (c : Core)
    → (c.publisher_stop ≡ true → c.admission ≡ false)
    → (enter sample now_ns c).0.publisher_stop ≡ true
    → (enter sample now_ns c).0.admission ≡ false
unfolding enter count_arrival fail_closed
enter-closes sample now_ns c v h = ground (arith, v, h)

step-closes :
    {s t : System}
    → Step s t
    → FlagsOk s
    → (s.core.publisher_stop ≡ true → s.core.admission ≡ false)
    → t.core.publisher_stop ≡ true
    → t.core.admission ≡ false
unfolding publisher_step start_failed driver_stopped start_abandon stop_begin stop_finish
    record_failure check_room fail_closed fill store_write
step-closes {s} (calls_start config r e) w v h = start_begin-closes config r s w.ending v h
step-closes {s} (start_succeeds e) w v h = v h
step-closes {s} (start_fails e) w v h = refl
step-closes {s} (start_stops status e o) w v h = refl
step-closes {s} (start_abandons e d o) w v h = v h
step-closes {s} (calls_stop e) w v h = ground (arith, v, h)
step-closes {s} (stops status e o) w v h = refl
step-closes {s} (finishes status e d o) w v h = ground (arith, v, h)
step-closes {s} (enters sample now_ns d o) w v h = enter-closes sample now_ns s.core v h
step-closes {s} (checks p e) w v h = ground (arith, v, h)
step-closes {s} (fills write p e) w v h = v h
step-closes {s} (stores write p e) w v h = v h
step-closes {s} (publishes throws) w v h = step_from-closes throws s s.publisher v h

-- Once the thread is told to stop, no sample is let in.
Reach-shut : {s : System} → Reach s → s.core.publisher_stop ≡ true → s.core.admission ≡ false
unfolding initial new_core
Reach-shut constructed h = refl
Reach-shut (later r step) h = step-closes step (Reach-Inv r).flags (Reach-shut r) h

-- What a run does.
record Ran (n : ℕ) (s t : System) : Type 0 where
  reached : Reach t
  told : IsTold t
  nearer : (is_over t.publisher ≡ true) ⊎ (n + potential t ≤ potential s)

After-Ran : {s t : System} → Reach s → IsTold s → (path : After s t) → Ran (own_steps path) s t
unfolding own_steps
After-Ran {s} r v at_once = record { reached = r; told = v; nearer = inr (omega arith) }
After-Ran {s} r v (then_ {t} {u} path step) =
    let ran = After-Ran r v path in
    let now = step-Nearer step (Reach-Inv ran.reached) ran.told in
    record {
      reached = later ran.reached step;
      told = now.told;
      nearer = elim ran.nearer [
        | inl over ↦ inl (now.over over)
        | inr so_far ↦ elim now.nearer [
          | inl over ↦ inl over
          | inr less ↦ inr (omega (arith, so_far, less))
        ]
      ];
    }

potential-bound : (s : System) → potential s ≤ 12 * (s.admitted - s.handed) + 33
unfolding potential
potential-bound s = omega (arith, measure-bound s, in_callback-bound s.producer)

spent : (s : System) → is_absent s.publisher ≡ false → potential s ≤ 0 → is_over s.publisher ≡ true
unfolding potential
spent s there none_left = unmeasured s there (omega (arith, none_left))

-- In a system that is reached in which the publishing thread was created and `publisher_stop_` is set,
-- however the threads go on: once the publishing thread has taken 12 steps of its own for each sample
-- that is in the ring now and 33 more, it has returned, whatever the other threads do in between and
-- whether or not the sink throws.
pub publisher_terminates :
    (s t : System)
    → Reach s
    → is_absent s.publisher ≡ false
    → s.core.publisher_stop ≡ true
    → (path : After s t) → 12 * (s.admitted - s.handed) + 33 ≤ own_steps path
    → is_over t.publisher ≡ true
publisher_terminates s t r there told path enough =
    let ran = After-Ran r (record { told = told; shut = Reach-shut r told; there = there }) path in
    elim ran.nearer [
      | inl over ↦ over
      | inr less ↦ spent t ran.told.there (omega (arith, less, enough, potential-bound s))
    ]
