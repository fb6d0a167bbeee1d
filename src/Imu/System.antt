-- ===== src/Imu/System.antt =====
-- The threads of ImuLifecycleCore (src/imu_publisher.cpp) as a step relation: the owner, which calls
-- Start and Stop, the thread of the driver, which calls SampleTrampoline one sample after the other,
-- and the publishing thread. The steps choose what the driver answers, which samples come, and whether
-- the sink throws.
--
-- Beside the state of the program a system keeps the histories that the theorems speak of: the samples
-- that were stored in the ring, and those that the sink was called with, each in order.
pub mod Ring
pub mod Flags
pub mod Inv
pub mod Delivery
pub mod Driver
pub mod Failure
mod Measure
pub mod Ending
use robo_baton_4p_ros2_demo.Prelude.{
  ℕ, ◌+◌, ◌≡◌, ◌⊎◌, Bool, true, false, Option, ◌||◌, if◌then◌else◌, ℤ, pos,
}
use robo_baton_4p_ros2_demo.Imu.Core.{
  ImuCoreConfig, Sample, PendingSample, empty_pending, Core, new_core, store,
}
use robo_baton_4p_ros2_demo.Imu.Ring.{
  Producer, outside, checking, filling, filled, enter, check_room, fill, store_write, Publisher,
  absent, top, ended, joined, copied, publishing, publish_next,
}
use robo_baton_4p_ros2_demo.Imu.Lifecycle.{
  StartReplies, is_ok, StartOutcome, refused, asks_driver, start_begin, start_failed,
  driver_stopped, start_abandon, StopOutcome, returns, asks_driver_to_stop, finishes_publisher,
  stop_begin, stop_finish,
}

-- Where the owner stands: outside; in `icm42688_start`; in `icm42688_stop` or at the join of a Start
-- that fails; in `icm42688_stop` or at the join of Stop, with the status that the driver returned.
pub data Owner : Type 0 where
  idle starting start_stopping start_joining stopping : Owner
  joining : ℤ → Owner

pub record System : Type 0 where
  pub core : Core
  pub producer : Producer
  pub publisher : Publisher
  pub owner : Owner
  -- The driver may call the callback: from `icm42688_start` to the return of a stop or a destroy.
  pub driver : Bool
  -- How many samples were stored, how many indices were taken, how often the sink was called.
  pub admitted : ℕ
  pub handed : ℕ
  pub delivered : ℕ
  pub arrivals : ℕ → PendingSample
  pub deliveries : ℕ → PendingSample

unfoldable pub initial : System
initial = record {
  core = new_core;
  producer = outside;
  publisher = absent;
  owner = idle;
  driver = false;
  admitted = 0;
  handed = 0;
  delivered = 0;
  arrivals = λ k. empty_pending;
  deliveries = λ k. empty_pending;
}

abbrev pub after_start : System → Core × StartOutcome → System
after_start s (c, refused) = record s { core = c }
after_start s (c, asks_driver) = record s {
  core = c;
  publisher = top;
  owner = starting;
  driver = true;
}

abbrev pub after_stop : System → Core × StopOutcome → System
after_stop s (c, returns b) = record s { core = c }
after_stop s (c, asks_driver_to_stop) = record s { core = c; owner = stopping }
after_stop s (c, finishes_publisher) = record s { core = c; owner = joining (pos 0) }

-- The join of a thread that was never created does nothing.
abbrev pub join : Publisher → Publisher
join absent = absent
join _ = joined

-- What a step of the publishing thread adds to the histories.
abbrev pub hands : Publisher → ℕ → ℕ
hands (copied read p) n = n + 1
hands _ n = n

abbrev pub delivers_now : Publisher → ℕ → ℕ
delivers_now (publishing p) n = n + 1
delivers_now _ n = n

abbrev pub delivery : Publisher → (ℕ → PendingSample) → ℕ → ℕ → PendingSample
delivery (publishing p) deliveries n = store deliveries n p
delivery _ deliveries n = deliveries

-- The publishing thread, from where it stands.
unfoldable pub step_from : Bool → System → Publisher → System
unfolding publish_next
step_from throws s p = record s {
  core = (publish_next throws s.core p).0;
  publisher = (publish_next throws s.core p).1;
  handed = hands p s.handed;
  delivered = delivers_now p s.delivered;
  deliveries = delivery p s.deliveries s.delivered;
}

unfoldable pub publisher_step : Bool → System → System
unfolding step_from
publisher_step throws s = step_from throws s s.publisher

-- The thread that a join waits for no more.
abbrev pub IsDone : Publisher → Type 0
IsDone p = (p ≡ absent) ⊎ ((p ≡ ended) ⊎ (p ≡ joined))

pub data Step (s : System) : System → Type 0 where
  calls_start :
      (config : ImuCoreConfig) (r : StartReplies)
      → s.owner ≡ idle
      → Step s (after_start s (start_begin config r s.core))
  start_succeeds : s.owner ≡ starting → Step s (record s { owner = idle })
  start_fails :
      s.owner ≡ starting → Step s (record s { core = start_failed s.core; owner = start_stopping })
  -- A stop that succeeds has waited for the callback; one that fails may not have.
  start_stops :
      (status : ℤ)
      → s.owner ≡ start_stopping
      → (is_ok status ≡ true → s.producer ≡ outside)
      → Step s (record s {
        core = driver_stopped status s.core;
        owner = start_joining;
        driver = if is_ok status then false else s.driver;
      })
  -- The destroy waits for the callback.
  start_abandons :
      s.owner ≡ start_joining
      → IsDone s.publisher
      → s.producer ≡ outside
      → Step s (record s {
        core = start_abandon s.core;
        publisher = join s.publisher;
        owner = idle;
        driver = false;
      })
  calls_stop : s.owner ≡ idle → Step s (after_stop s (stop_begin s.core))
  stops :
      (status : ℤ)
      → s.owner ≡ stopping
      → (is_ok status ≡ true → s.producer ≡ outside)
      → Step s (record s {
        core = driver_stopped status s.core;
        owner = joining status;
        driver = if is_ok status then false else s.driver;
      })
  finishes :
      (status : ℤ)
      → s.owner ≡ joining status
      → IsDone s.publisher
      → s.producer ≡ outside
      → Step s (record s {
        core = (stop_finish status s.core).0;
        publisher = join s.publisher;
        owner = idle;
        driver = false;
      })
  enters :
      (sample : Option Sample) (now_ns : ℕ)
      → s.driver ≡ true
      → s.producer ≡ outside
      → Step s (record s {
        core = (enter sample now_ns s.core).0;
        producer = (enter sample now_ns s.core).1;
      })
  checks :
      (p : PendingSample)
      → s.producer ≡ checking p
      → Step s (record s { core = (check_room p s.core).0; producer = (check_room p s.core).1 })
  fills :
      (write : ℕ) (p : PendingSample)
      → s.producer ≡ filling write p
      → Step s (record s { core = fill write p s.core; producer = filled write p })
  stores :
      (write : ℕ) (p : PendingSample)
      → s.producer ≡ filled write p
      → Step s (record s {
        core = store_write write s.core;
        producer = outside;
        admitted = s.admitted + 1;
        arrivals = store s.arrivals s.admitted p;
      })
  publishes : (throws : Bool) → Step s (publisher_step throws s)

-- The systems that are reached from the constructed core.
pub data Reach : System → Type 0 where
  constructed : Reach initial
  later : {s t : System} → Reach s → Step s t → Reach t
