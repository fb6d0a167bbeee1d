-- ===== src/Imu/System/Flags/Defs.antt =====
-- The invariant of the flags, and where the threads stand.
use robo_baton_4p_ros2_demo.Prelude.{◌≡◌, ◌⊎◌, Bool, true, false, ◌||◌, not}
use robo_baton_4p_ros2_demo.Imu.Ring.{
  Producer, outside, Publisher, absent, last_check, ended, joined,
}
use robo_baton_4p_ros2_demo.Imu.Lifecycle.{is_ok}
use robo_baton_4p_ros2_demo.Imu.System.{
  Owner, idle, starting, start_stopping, start_joining, stopping, joining, System,
}

abbrev pub is_outside : Producer → Bool
is_outside outside = true
is_outside _ = false

abbrev pub is_absent : Publisher → Bool
is_absent absent = true
is_absent _ = false

-- The publishing thread has left its loop.
abbrev pub is_over : Publisher → Bool
is_over ended = true
is_over joined = true
is_over _ = false

abbrev pub is_last : Publisher → Bool
is_last (last_check r) = true
is_last _ = false

abbrev pub is_idle : Owner → Bool
is_idle idle = true
is_idle _ = false

-- In the driver's `start` or `stop`.
abbrev pub is_asking : Owner → Bool
is_asking starting = true
is_asking start_stopping = true
is_asking stopping = true
is_asking _ = false

-- At the join of the publishing thread.
abbrev pub is_finishing : Owner → Bool
is_finishing start_joining = true
is_finishing (joining status) = true
is_finishing _ = false

-- About to record a failure.
abbrev pub is_blamed : Owner → Bool
is_blamed start_joining = true
is_blamed (joining status) = not (is_ok status)
is_blamed _ = false

abbrev pub is_start_stopping : Owner → Bool
is_start_stopping start_stopping = true
is_start_stopping _ = false

-- Within Start.
abbrev pub is_starting : Owner → Bool
is_starting starting = true
is_starting start_stopping = true
is_starting start_joining = true
is_starting _ = false

pub record FlagsOk (s : System) : Type 0 where
  pub unclaimed :
      s.core.start_claimed ≡ false
      → (is_absent s.publisher ≡ true)
        × (s.driver ≡ false)
        × (s.core.has_handle ≡ false)
        × (s.core.failed ≡ false)
        × (s.core.admission ≡ false)
  pub quiet : s.driver ≡ false → is_outside s.producer ≡ true
  pub running : s.driver ≡ true → (s.core.start_attempted ≡ true) × (s.core.has_handle ≡ true)
  pub attempted : s.core.start_attempted ≡ true → is_absent s.publisher ≡ false
  pub created : is_absent s.publisher ≡ true → (s.admitted ≡ 0) × (s.core.start_attempted ≡ false)
  pub stopped : s.core.publisher_stop ≡ true → s.core.stop_failed ≡ false → s.driver ≡ false
  pub last : is_last s.publisher ≡ true → s.core.publisher_stop ≡ true
  pub over :
      is_over s.publisher ≡ true
      → s.core.failed ≡ false
      → (s.core.publisher_stop ≡ true) × (s.core.stop_failed ≡ false → s.admitted ≡ s.handed)
  pub asking :
      is_asking s.owner ≡ true
      → (s.core.publisher_stop ≡ false)
        × (s.core.has_handle ≡ true)
        × (s.core.start_attempted ≡ true)
  pub usable :
      is_idle s.owner ≡ true
      → s.core.has_handle ≡ true
      → (s.core.publisher_stop ≡ false) × (s.core.start_attempted ≡ true)
  pub finishing :
      is_finishing s.owner ≡ true → (s.core.publisher_stop ≡ true) × (s.core.admission ≡ false)
  pub failing : is_start_stopping s.owner ≡ true → s.core.admission ≡ false
  pub reported : s.core.stop_failed ≡ true → (s.core.failed ≡ true) ⊎ (is_blamed s.owner ≡ true)
  pub settled :
      is_idle s.owner ≡ true
      → s.core.terminal ≡ true
      → (is_absent s.publisher || is_over s.publisher ≡ true) × (s.core.has_handle ≡ false)
  pub closed : s.core.failed ≡ true → s.core.admission ≡ false
  pub handled : s.core.has_handle ≡ true → s.core.start_claimed ≡ true
  pub beginning : is_starting s.owner ≡ true → s.core.terminal ≡ false
  pub blamed : is_blamed s.owner ≡ true → s.core.start_claimed ≡ true
  pub ending :
      s.core.publisher_stop ≡ true → (s.core.terminal ≡ true) ⊎ (s.core.start_claimed ≡ true)
