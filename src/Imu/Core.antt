-- ===== src/Imu/Core.antt =====
-- ImuLifecycleCore of src/imu_publisher.cpp: its state, its configuration, and RecordFailure; and the
-- samples of include/robobaton_4p_ros2_demo/icm42688_driver.h.
--
-- A double is the number of its 64 bits: nothing computes with one. `calls` records the calls of
-- the driver, newest first, and `notified` counts the calls of the failure notifier. What the driver
-- answers is an argument of the function that calls it.
use robo_baton_4p_ros2_demo.Prelude.{
  ℕ, ◌+◌, Bool, true, false, ◌&&◌, not, List, [], ◌==◌, if◌then◌else◌,
}
use robo_baton_4p_ros2_demo.Metrics.{PublicationRateMetrics, k_none, new_metrics}

abbrev pub pending_capacity : ℕ
pending_capacity = 1024

-- `sizeof(icm42688_sample_t)`
abbrev pub sizeof_sample : ℕ
sizeof_sample = 120

-- `double[3]`
pub record Vector3 : Type 0 where
  pub x : ℕ
  pub y : ℕ
  pub z : ℕ

-- `icm42688_sample_t`, with the fields that are read.
pub record Sample : Type 0 where
  pub struct_size : ℕ
  pub sample_timestamp_ns : ℕ
  pub temperature_c : ℕ
  pub accel_mps2 : Vector3
  pub gyro_rps : Vector3

pub record PendingSample : Type 0 where
  pub sample : Sample
  pub arrival_ns : ℕ

-- `PendingSample{}`
unfoldable pub empty_pending : PendingSample
empty_pending = record {
  sample = record {
    struct_size = 0;
    sample_timestamp_ns = 0;
    temperature_c = 0;
    accel_mps2 = record { x = 0; y = 0; z = 0 };
    gyro_rps = record { x = 0; y = 0; z = 0 };
  };
  arrival_ns = 0;
}

pub record ImuCoreConfig : Type 0 where
  pub sample_rate_hz : ℕ
  pub fifo_watermark_samples : ℕ
  pub read_mode : ℕ
  pub rate_metrics_enabled : Bool

-- `icm42688_config_t`, without its size and the reserved words.
pub record DriverConfig : Type 0 where
  pub sample_rate_hz : ℕ
  pub fifo_watermark_samples : ℕ
  pub read_mode : ℕ

-- The calls of the driver. `create` is one that gave a handle.
pub data DriverCall : Type 0 where
  create : DriverConfig → DriverCall
  set_callback start stop destroy : DriverCall

pub record Core : Type 0 where
  pub pending : ℕ → PendingSample
  pub write : ℕ
  pub read : ℕ
  pub publisher_stop : Bool
  pub failure_notified : Bool
  pub has_handle : Bool
  pub has_sink : Bool
  pub has_notifier : Bool
  pub admission : Bool
  pub failed : Bool
  pub stop_failed : Bool
  pub source_count : ℕ
  pub source_first_ns : ℕ
  pub metrics : PublicationRateMetrics
  pub metrics_enabled : Bool
  pub start_claimed : Bool
  pub start_attempted : Bool
  pub terminal : Bool
  pub notified : ℕ
  pub calls : List DriverCall

unfoldable pub new_core : Core
new_core = record {
  pending = λ slot. empty_pending;
  write = 0;
  read = 0;
  publisher_stop = false;
  failure_notified = false;
  has_handle = false;
  has_sink = false;
  has_notifier = false;
  admission = false;
  failed = false;
  stop_failed = false;
  source_count = 0;
  source_first_ns = 0;
  metrics = new_metrics k_none;
  metrics_enabled = false;
  start_claimed = false;
  start_attempted = false;
  terminal = false;
  notified = 0;
  calls = [];
}

-- RecordFailure: the first failure calls the notifier, if there is one.
unfoldable pub record_failure : Core → Core
record_failure c = record c {
  failed = true;
  failure_notified = true;
  notified = if not c.failure_notified && c.has_notifier then c.notified + 1 else c.notified;
}

-- One entry of an array, or of a history, changed.
abbrev pub store : (ℕ → PendingSample) → ℕ → PendingSample → ℕ → PendingSample
store slots i p j = if i == j then p else slots j
