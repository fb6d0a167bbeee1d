-- ===== src/Imu/Lifecycle.antt =====
-- Start and Stop of ImuLifecycleCore in src/imu_publisher.cpp, in the stretches between the points at
-- which they can block: in the driver's `start` and `stop`, and at the join of the publishing thread.
-- Both hold `mutex_` throughout.
use robo_baton_4p_ros2_demo.Prelude.{
  Bool, true, false, ◌&&◌, ◌||◌, not, ◌∷◌, if◌then◌else◌, ℤ, pos, ◌==ℤ◌,
}
use robo_baton_4p_ros2_demo.Imu.Core.{
  ImuCoreConfig, DriverConfig, create, set_callback, start, stop, destroy, Core, record_failure,
}

-- What the driver answers to the calls of Start up to `icm42688_start`, and whether the creation of
-- the thread throws.
pub record StartReplies : Type 0 where
  pub create_status : ℤ
  pub candidate_is_null : Bool
  pub set_callback_status : ℤ
  pub thread_throws : Bool

abbrev pub is_ok : ℤ → Bool
is_ok status = status ==ℤ pos 0

unfoldable pub producer_config : ImuCoreConfig → DriverConfig
producer_config config = record {
  sample_rate_hz = config.sample_rate_hz;
  fifo_watermark_samples = config.fifo_watermark_samples;
  read_mode = config.read_mode;
}

-- The handle is destroyed, the core is terminal, and the failure is recorded.
unfoldable pub give_up : Core → Core
unfolding record_failure
give_up c =
    record_failure (record c {
      admission = false;
      calls = destroy ∷ c.calls;
      has_handle = false;
      terminal = true;
    })

-- `icm42688_create` failed, with or without a handle.
unfoldable pub create_failed : ImuCoreConfig → Bool → Core → Core
unfolding record_failure
create_failed config candidate_is_null c = record_failure (record c {
  calls =
      if candidate_is_null then c.calls else destroy ∷ create (producer_config config) ∷ c.calls;
  terminal = true;
})

-- How Start ends or goes on: it returns false, or it calls `icm42688_start`.
pub data StartOutcome : Type 0 where
  refused asks_driver : StartOutcome

-- With a handle, up to `icm42688_start`.
unfoldable pub start_with_handle : StartReplies → Core → Core × StartOutcome
unfolding give_up
start_with_handle r c =
    let hooked = record c { calls = set_callback ∷ c.calls } in
    if not (is_ok r.set_callback_status)
    then (give_up hooked, refused)
    else if r.thread_throws
    then (give_up hooked, refused)
    else (
      record hooked { admission = true; start_attempted = true; calls = start ∷ hooked.calls },
      asks_driver,
    )

-- Start up to its return or its call of `icm42688_start`.
unfoldable pub start_begin : ImuCoreConfig → StartReplies → Core → Core × StartOutcome
unfolding create_failed start_with_handle
start_begin config r c =
    let claimed = record c {
      start_claimed = true;
      has_sink = true;
      has_notifier = true;
      metrics_enabled = config.rate_metrics_enabled;
    } in
    if c.start_claimed || c.terminal
    then (c, refused)
    else if not (is_ok r.create_status) || r.candidate_is_null
    then (create_failed config r.candidate_is_null claimed, refused)
    else start_with_handle r (record claimed {
      has_handle = true;
      calls = create (producer_config config) ∷ claimed.calls;
    })

-- `icm42688_start` failed: Start calls `icm42688_stop`.
unfoldable pub start_failed : Core → Core
start_failed c = record c { admission = false; calls = stop ∷ c.calls }

-- `icm42688_stop` returned to Start or to Stop: what FinishPublisher does before its join.
unfoldable pub driver_stopped : ℤ → Core → Core
driver_stopped status c = record c {
  stop_failed = if is_ok status then c.stop_failed else true;
  admission = false;
  publisher_stop = true;
}

-- The rest of Start after the join; it returns false.
unfoldable pub start_abandon : Core → Core
unfolding record_failure
start_abandon c =
    record (record_failure
      (record c { calls = destroy ∷ c.calls; has_handle = false; terminal = true })) {
        has_sink = false;
        has_notifier = false;
      }

-- How Stop goes on: it returns a result, it waits for the driver, or it joins the publishing thread.
pub data StopOutcome : Type 0 where
  returns : Bool → StopOutcome
  asks_driver_to_stop finishes_publisher : StopOutcome

unfoldable pub stop_begin : Core → Core × StopOutcome
unfolding driver_stopped
stop_begin c =
    let ending = record c { terminal = true } in
    if c.terminal && not c.has_handle
    then (c, returns (not c.stop_failed))
    else if c.has_handle && c.start_attempted
    then (record ending { calls = stop ∷ c.calls }, asks_driver_to_stop)
    else (driver_stopped (pos 0) ending, finishes_publisher)

-- The rest of Stop after the join, with the status of `icm42688_stop`; it returns the second part.
unfoldable pub stop_finish : ℤ → Core → Core × Bool
unfolding record_failure
stop_finish status c =
    let finalized = record c {
      calls = if c.has_handle then destroy ∷ c.calls else c.calls;
      has_handle = false;
    } in
    let settled = if is_ok status then finalized else record_failure finalized in
    (record settled { has_sink = false; has_notifier = false }, is_ok status)
